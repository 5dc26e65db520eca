-- ===== src/Lite/Head.antt =====
-- The heads of HPatchLite diffs: _hpi_readSize and hpatch_lite_open of
-- libHDiffPatch/HPatchLite/hpatch_lite.c, and hpi_getSavedSizeBytes, hpi_saveSize and the head that
-- serialize_lite_diff of libHDiffPatch/HDiff/diff.cpp writes.
pub mod RoundTrip
mod Tests
use hdiff_patch.Prelude.{
  ℕ, zero, suc, ◌+◌, ◌-◌, ◌*◌, ◌/◌, ◌%◌, ◌^◌, ◌≤◌, ◌<◌, ◌≡◌, refl, Bool, true, false, not, Option,
  none, some, List, [], ◌∷◌, ◌++◌, arith, ltb, ◌==◌, if◌then◌else◌, length, take, drop, ◌>>=◌, ◌>>◌,
  check, bit_and, bit_or, dite, dec_lt,
}
use hdiff_patch.Prelude.Wf.{lt_wf}
use mathlib.Core.WellFounded.{Acc}

-- _hpi_readSize: the last byte is the highest one.
unfoldable pub read_size : List ℕ → ℕ
read_size [] = 0
read_size (b ∷ buf) = bit_or (read_size buf * 2 ^ 8 % 2 ^ 32) b

pub byte_shrinks : (size : ℕ) → 0 < size → size / 2 ^ 8 < size
byte_shrinks size h = omega arith

-- the `while` of hpi_saveSize
pub save_size_loop : (size : ℕ) → Acc ◌<◌ size → List ℕ
save_size_loop size (Acc.intro _ smaller) =
    dite (dec_lt 0 size)
      (λ more. size % 2 ^ 8 ∷ save_size_loop (size / 2 ^ 8) (smaller _ (byte_shrinks size more)))
      (λ _. [])

unfoldable pub save_size : ℕ → List ℕ
unfolding save_size_loop lt_wf dec_lt
save_size size = save_size_loop size (lt_wf.apply size)

-- the `while` of hpi_getSavedSizeBytes
pub saved_size_loop : (size : ℕ) → Acc ◌<◌ size → (bytes : ℕ) → ℕ
saved_size_loop size (Acc.intro _ smaller) bytes =
    dite (dec_lt 0 size)
      (λ more. saved_size_loop (size / 2 ^ 8) (smaller _ (byte_shrinks size more)) (bytes + 1))
      (λ _. bytes)

unfoldable pub saved_size_bytes : ℕ → ℕ
unfolding saved_size_loop lt_wf dec_lt
saved_size_bytes size = saved_size_loop size (lt_wf.apply size) 0

-- The head that serialize_lite_diff writes without in-place patching.
unfoldable pub lite_head : (compress_type new_size uncompress_size : ℕ) → List ℕ
lite_head compress_type new_size uncompress_size =
    104
    ∷ 73
    ∷ compress_type
    ∷ bit_or (bit_or (1 * 2 ^ 6) (saved_size_bytes new_size))
        (saved_size_bytes uncompress_size * 2 ^ 3)
    ∷ (save_size new_size ++ save_size uncompress_size)

-- The type tag and the version: compress type and the byte with the sizes.
unfoldable pub type_and_sizes : (version_code : ℕ) → List ℕ → Option (ℕ × ℕ)
type_and_sizes version_code (h ∷ i ∷ compress_type ∷ lenu ∷ []) =
    if h == 104
    then if i == 73
      then if lenu / 2 ^ 6 == version_code then some (compress_type, lenu) else none
      else none
    else none
type_and_sizes version_code buf = none

module _ {H : Type 0} (read_diff : H → ℕ → Option (List ℕ) × H) where
  -- `_CHECK(read_diff(diff_data,buf,&len))`
  abbrev pub read_checked : H → ℕ → Option (List ℕ × H)
  read_checked diff_data len =
      let (answer, diff_data') = read_diff diff_data len in answer >>= λ buf. some (buf, diff_data')

  -- hpatch_lite_open: compress type, new size, uncompressed size, and the diff behind the head. A
  -- short read of a size is not checked; the size is then that of the bytes delivered.
  unfoldable pub hpatch_lite_open : H → Option (ℕ × ℕ × ℕ × H)
  unfolding type_and_sizes read_size
  hpatch_lite_open diff_data = do
    (buf, diff_data) ← read_checked diff_data 4
    (compress_type, lenu) ← type_and_sizes 1 buf
    check (not (ltb 4 (bit_and lenu 7)))
    check (not (ltb 4 (bit_and (lenu / 2 ^ 3) 7)))
    (new_buf, diff_data) ← read_checked diff_data (bit_and lenu 7)
    (uncompress_buf, diff_data) ← read_checked diff_data (bit_and (lenu / 2 ^ 3) 7)
    some (compress_type, read_size new_buf, read_size uncompress_buf, diff_data)
