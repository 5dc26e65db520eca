-- ===== src/Rle/Runs.antt =====
-- What a sequence of runs stands for, and that _bytesRle_load restores it.
use hdiff_patch.Prelude.{
  ℕ, zero, suc, ◌+◌, ◌-◌, ◌^◌, ◌≤◌, ◌<◌, ◌≡◌, refl, ap, ◌∙◌, some, List, [], ◌∷◌, ◌++◌, length,
  replicate, ◌>>=◌, arith, All, length-append, length-replicate, take-append, drop-append, lt→ltb,
  le→ltb,
}
use hdiff_patch.Varint.{IsU64}
use hdiff_patch.Varint.RoundTrip.{packed, unpack-packed, packed_tag}
use hdiff_patch.Rle.{byte_rle_type, run_bytes, load_loop, bytes_rle_load, byte_rle_type_bit}

-- One run: a type, the bytes that it stands for, and the data bytes that it takes.
pub data Run : Type 0 where
  zeros : ℕ → Run
  ones : ℕ → Run
  same : ℕ → ℕ → Run
  copied : List ℕ → Run

abbrev pub run_data : Run → List ℕ
run_data (zeros n) = replicate n 0
run_data (ones n) = replicate n 255
run_data (same x n) = replicate n x
run_data (copied bytes) = bytes

abbrev pub run_code : Run → List ℕ
run_code (zeros n) = []
run_code (ones n) = []
run_code (same x n) = x ∷ []
run_code (copied bytes) = bytes

abbrev pub run_length : Run → ℕ
run_length (zeros n) = n
run_length (ones n) = n
run_length (same x n) = n
run_length (copied bytes) = length bytes

abbrev pub run_tag : Run → ℕ
run_tag (zeros n) = 0
run_tag (ones n) = 1
run_tag (same x n) = 2
run_tag (copied bytes) = 3

-- A run is not empty, and its length less one fits 64 bits.
abbrev pub IsRun : Run → Type 0
IsRun r = (1 ≤ run_length r) × (run_length r ≤ 2 ^ 64)

abbrev pub run_ctrl : Run → List ℕ
run_ctrl r = packed (run_length r - 1) (run_tag r) byte_rle_type_bit

abbrev pub ctrl_of : List Run → List ℕ
ctrl_of [] = []
ctrl_of (r ∷ rs) = run_ctrl r ++ ctrl_of rs

abbrev pub code_of : List Run → List ℕ
code_of [] = []
code_of (r ∷ rs) = run_code r ++ code_of rs

abbrev pub data_of : List Run → List ℕ
data_of [] = []
data_of (r ∷ rs) = run_data r ++ data_of rs

pub length-run_data : (r : Run) → length (run_data r) ≡ run_length r
length-run_data (zeros n) = length-replicate n _
length-run_data (ones n) = length-replicate n _
length-run_data (same x n) = length-replicate n _
length-run_data (copied bytes) = refl

run_bytes-run :
    (r : Run) (code : List ℕ)
    → run_bytes (byte_rle_type (run_tag r)) (run_length r) (run_code r ++ code)
      ≡ some (run_data r, code)
unfolding run_bytes byte_rle_type
run_bytes-run (zeros n) code = refl
run_bytes-run (ones n) code = refl
run_bytes-run (same x n) code = refl
run_bytes-run (copied bytes) code =
    rw (take-append bytes code, drop-append bytes code) (ground (arith, length-append bytes code))

pub run_tag-lt : (r : Run) → run_tag r < 2 ^ 2
run_tag-lt (zeros n) = omega arith
run_tag-lt (ones n) = omega arith
run_tag-lt (same x n) = omega arith
run_tag-lt (copied bytes) = omega arith

-- One round of the loop.
load_loop_step :
    (f : ℕ) (r : Run) (ctrl code : List ℕ) (room : ℕ)
    → IsRun r
    → load_loop (suc f) (run_ctrl r ++ ctrl) (run_code r ++ code) (run_length r + room)
      ≡ (load_loop f ctrl code room >>= λ rest. some (run_data r ++ rest))
unfolding load_loop
load_loop_step f r ctrl code room (lo, hi) =
    let (c, cs, e, top) =
      packed_tag (run_length r - 1) (run_tag r) 2 (omega arith) (run_tag-lt r) in
    let read =
      unpack-packed (run_length r - 1) (run_tag r) 2 ctrl (omega arith) (omega arith)
        (run_tag-lt r) in
    let len : run_length r - 1 + 1 ≡ run_length r = omega arith in
    let left : run_length r + room - run_length r ≡ room = omega arith in
    rw e (
      rw (rw e at read) (
        rw (lt→ltb (run_length r - 1) (run_length r + room) (omega arith))
          (rw (len, top) (rw (run_bytes-run r code, left) refl))))

load_loop-runs :
    (rs : List Run) (f : ℕ)
    → All IsRun rs
    → length rs ≤ f
    → load_loop f (ctrl_of rs) (code_of rs) (length (data_of rs)) ≡ some (data_of rs)
unfolding load_loop
load_loop-runs [] f h hf = ground arith
load_loop-runs (r ∷ rs) zero h hf = absurd (omega arith)
load_loop-runs (r ∷ rs) (suc f) (hr, hrs) hf =
    rw (length-append (run_data r) (data_of rs), length-run_data r)
      (load_loop_step f r (ctrl_of rs) (code_of rs) (length (data_of rs)) hr
        ∙ rw (load_loop-runs rs f hrs (omega arith)))

pub length-ctrl_of : (rs : List Run) → All IsRun rs → length rs ≤ length (ctrl_of rs)
length-ctrl_of [] h = omega arith
length-ctrl_of (r ∷ rs) (hr, hrs) =
    let (c, cs, e, _) = packed_tag (run_length r - 1) (run_tag r) 2 (omega arith) (run_tag-lt r) in
    omega
      (arith, length-append (run_ctrl r) (ctrl_of rs), ap (λ l. length l) e, length-ctrl_of rs hrs)

-- The code of a sequence of runs: the size of the control bytes, these, and the data bytes.
abbrev pub encode : List Run → List ℕ
encode rs = packed (length (ctrl_of rs)) 0 0 ++ (ctrl_of rs ++ code_of rs)

-- _bytesRle_load restores the bytes of any sequence of runs into a buffer of just their size, when
-- each run has from 1 to 2 ^ 64 bytes and the size of the control bytes fits 64 bits.
pub bytes_rle_load-encode :
    (rs : List Run)
    → All IsRun rs
    → IsU64 (length (ctrl_of rs))
    → bytes_rle_load (length (data_of rs)) (encode rs) ≡ some (data_of rs)
unfolding bytes_rle_load
bytes_rle_load-encode rs h fits =
    rw
      (unpack-packed (length (ctrl_of rs)) 0 0 (ctrl_of rs ++ code_of rs) fits (omega arith)
        (omega arith))
      (rw
        (le→ltb (length (ctrl_of rs ++ code_of rs)) (length (ctrl_of rs))
          (omega (arith, length-append (ctrl_of rs) (code_of rs))))
        (rw (take-append (ctrl_of rs) (code_of rs), drop-append (ctrl_of rs) (code_of rs))
          (load_loop-runs rs (length (ctrl_of rs)) h (length-ctrl_of rs h))))
