-- ===== src/Rle/Encoder/Restore.antt =====
-- The encoder writes a sequence of runs that stand for its input.
use hdiff_patch.Prelude.{
  ℕ, ◌+◌, ◌-◌, ◌*◌, ◌^◌, ◌≤◌, ◌<◌, ◌≡◌, refl, ap, List, [], ◌∷◌, arith, length, All, length-append,
  some, le→ltb,
}
use hdiff_patch.Rle.Runs.{
  Run, IsRun, run_ctrl, run_data, ctrl_of, data_of, encode, bytes_rle_load-encode, run_length,
  run_tag, length-run_data,
}
use hdiff_patch.Varint.Decode.{length-packed}
use hdiff_patch.Rle.{bytes_rle_load, byte_rle_type_bit}
use hdiff_patch.Rle.Encoder.{end_same, append, bytes_rle_save, empty_rle}
use hdiff_patch.Rle.Encoder.Steps.{
  end_no_same-IsFlushed, IsEnded, end_same-IsEnded, append_loop-IsOpen,
}

-- A run takes at most eleven control bytes, and stands for one byte at least.
length-ctrl_of-le : (rs : List Run) → All IsRun rs → length (ctrl_of rs) ≤ 11 * length (data_of rs)
length-ctrl_of-le [] h = omega arith
length-ctrl_of-le (r ∷ rs) ((lo, hi), hrs) = omega (
  arith,
  length-append (run_ctrl r) (ctrl_of rs),
  length-append (run_data r) (data_of rs),
  length-run_data r,
  length-packed (run_length r - 1) (run_tag r) byte_rle_type_bit (omega arith),
  length-ctrl_of-le rs hrs,
)

append-empty_rle :
    (k : ℕ) (src : List ℕ)
    → length src < 2 ^ 64
    → IsEnded (end_same (k + 1) (append (k + 1) empty_rle src)) src
unfolding append
append-empty_rle k [] fits =
    unfold end_same in
    rw (le→ltb (k + 1) (0 + 1) (omega arith)) (
      [],
      [],
      record { valid = tt; ctrl_is = refl; code_is = refl; count_is = refl; src_is = refl },
    )
append-empty_rle k (x ∷ src) fits =
    end_same-IsEnded (k + 1) _ (x ∷ src)
      (append_loop-IsOpen (k + 1) src _ (x ∷ [])
        (record {
          runs = [];
          tail = [];
          front = [];
          pending = record {
            valid = tt;
            ctrl_is = refl;
            code_is = refl;
            count_is = refl;
            src_is = refl;
          };
          src_is = refl;
          some_same = omega arith;
        })
        fits)
      fits

-- The encoder writes the code of a sequence of runs that stand for its input.
pub bytes_rle_save-encode :
    (rle_parameter : ℕ) (src : List ℕ)
    → length src < 2 ^ 60
    → (rs : List Run) × All IsRun rs
      × (bytes_rle_save rle_parameter src ≡ encode rs)
      × (src ≡ data_of rs)
      × (length (ctrl_of rs) < 2 ^ 64)
unfolding bytes_rle_save
bytes_rle_save-encode rle_parameter src fits =
    let s = end_same (rle_parameter + 1) (append (rle_parameter + 1) empty_rle src) in
    let (rs, tail, p) = append-empty_rle rle_parameter src (omega arith) in
    let short : length tail ≤ 2 ^ 64 =
      omega (arith, ap (λ l. length l) p.src_is, length-append (data_of rs) tail) in
    let ((rs', h), _) = end_no_same-IsFlushed rs tail s src p short in
    let ctrl_fits : length (ctrl_of rs') < 2 ^ 64 =
      omega (arith, ap (λ l. length l) h.data_is, length-ctrl_of-le rs' h.valid) in
    (rs', h.valid, rw (h.ctrl_is, h.code_is), h.data_is, ctrl_fits)

-- _bytesRle_load restores what bytesRLE_save was given, for every parameter, if the input has fewer
-- than 2 ^ 60 bytes.
pub bytes_rle_load-save :
    (rle_parameter : ℕ) (src : List ℕ)
    → length src < 2 ^ 60
    → bytes_rle_load (length src) (bytes_rle_save rle_parameter src) ≡ some src
bytes_rle_load-save rle_parameter src fits =
    let (rs, valid, code, back_src, ctrl_fits) = bytes_rle_save-encode rle_parameter src fits in
    rw (code, back_src) (bytes_rle_load-encode rs valid ctrl_fits)
