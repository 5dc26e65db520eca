-- ===== src/PatchStream/Encoded.antt =====
-- What a loader has left on the code of a sequence of runs.
use hdiff_patch.Prelude.{
  ℕ, zero, suc, ◌+◌, ◌-◌, ◌%◌, ◌^◌, ◌≤◌, ◌<◌, ◌≡◌, refl, ap, ◌∙◌, true, false, some, List, [], ◌∷◌,
  ◌++◌, arith, length, All, length-append, take-append, drop-append, le→ltb,
}
use hdiff_patch.Varint.RoundTrip.{packed_tag}
use hdiff_patch.Rle.{byte_rle_type, byte_rle_type_bit}
use hdiff_patch.Rle.Runs.{
  Run, zeros, ones, same, copied, run_data, run_code, run_length, run_tag, run_tag-lt, ctrl_of,
  code_of, data_of, length-run_data,
}
use hdiff_patch.RleStream.Spec.{
  Pending, Bytes, before, unfinished, start_run, read_run, runs_left, bytes_left,
}
use hdiff_patch.PatchStream.Written.{unpack_within-packed}

-- A run whose length fits 64 bits.
abbrev pub IsShort : Run → Type 0
IsShort r = (1 ≤ run_length r) × (run_length r < 2 ^ 64)

-- The loader in front of a run, and the data code behind what it takes at once.
run_start : Run → (ctrl code : List ℕ) → Pending
run_start (zeros n) ctrl code = record {
  copy_length = 0;
  set_length = n;
  set_value = 0;
  ctrl = ctrl;
  code = code;
}
run_start (ones n) ctrl code = record {
  copy_length = 0;
  set_length = n;
  set_value = 255;
  ctrl = ctrl;
  code = code;
}
run_start (same x n) ctrl code = record {
  copy_length = 0;
  set_length = n;
  set_value = x;
  ctrl = ctrl;
  code = code;
}
run_start (copied bytes) ctrl code = record {
  copy_length = length bytes;
  set_length = 0;
  set_value = 0;
  ctrl = ctrl;
  code = bytes ++ code;
}

start_run-run :
    (r : Run) (ctrl code : List ℕ)
    → start_run (byte_rle_type (run_tag r)) (run_length r) ctrl (run_code r ++ code)
      ≡ some (run_start r ctrl code)
unfolding start_run byte_rle_type run_start
start_run-run (zeros n) ctrl code = refl
start_run-run (ones n) ctrl code = refl
start_run-run (same x n) ctrl code = refl
start_run-run (copied bytes) ctrl code = refl

-- What is left in front of a run.
left_of_start :
    (fuel : ℕ) (r : Run) (ctrl code : List ℕ)
    → bytes_left fuel (run_start r ctrl code) ≡ before (run_data r) (runs_left fuel ctrl code)
unfolding bytes_left run_start
left_of_start fuel (zeros n) ctrl code = rw (le→ltb (length code) 0 (omega arith)) refl
left_of_start fuel (ones n) ctrl code = rw (le→ltb (length code) 0 (omega arith)) refl
left_of_start fuel (same x n) ctrl code = rw (le→ltb (length code) 0 (omega arith)) refl
left_of_start fuel (copied bytes) ctrl code =
    rw
      (
        le→ltb (length (bytes ++ code)) (length bytes) (omega (arith, length-append bytes code)),
        take-append bytes code,
        drop-append bytes code,
      )
      refl

unfinished-some :
    (bytes : List ℕ) (rest : Bytes)
    → 1 ≤ length bytes
    → unfinished (before bytes rest) ≡ before bytes rest
unfinished-some [] rest h = absurd (omega arith)
unfinished-some (x ∷ bytes) (rest, true) h = refl
unfinished-some (x ∷ bytes) (rest, false) h = refl

-- The control bytes and the data bytes of a sequence of runs stand for its bytes, and end there.
pub runs_left-runs :
    (rs : List Run) (fuel : ℕ)
    → All IsShort rs
    → length rs ≤ fuel
    → runs_left fuel (ctrl_of rs) (code_of rs) ≡ (data_of rs, true)
unfolding runs_left run_start bytes_left
runs_left-runs [] fuel h enough = ground arith
runs_left-runs (r ∷ rs) zero h enough = absurd (omega arith)
runs_left-runs (r ∷ rs) (suc fuel) ((lo, hi), h) enough =
    let (byte, bytes, e, top) =
      packed_tag (run_length r - 1) (run_tag r) 2 (omega arith) (run_tag-lt r) in
    let found =
      unpack_within-packed (run_length r - 1) (run_tag r) byte_rle_type_bit (ctrl_of rs)
        (omega arith) (omega arith) (run_tag-lt r) in
    let len : (run_length r - 1 + 1) % 2 ^ 64 ≡ run_length r = omega arith in
    let reads : read_run byte (bytes ++ ctrl_of rs) (run_code r ++ code_of rs)
        ≡ some (run_start r (ctrl_of rs) (code_of rs)) =
      unfold read_run in
      rw (rw e at found) (rw (top, len) (start_run-run r (ctrl_of rs) (code_of rs))) in
    rw e (
      rw reads (
        ap (λ b. unfinished b) (left_of_start fuel r (ctrl_of rs) (code_of rs))
        ∙ unfinished-some (run_data r) (runs_left fuel (ctrl_of rs) (code_of rs))
            (omega (arith, length-run_data r))
        ∙ ap (λ b. before (run_data r) b) (runs_left-runs rs fuel h (omega arith))))
