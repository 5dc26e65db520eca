-- ===== src/MemPatch.antt =====
-- Patching in memory: patch and addData of libHDiffPatch/HPatch/patch.c, in the build with
-- __RUN_MEM_SAFE_CHECK and a size_t of 64 bits.
-- A pair of pointers into a buffer is the list of the bytes between them.
pub mod Serialize
pub mod Rounds
pub mod Sizes
pub mod Restore
pub mod Bounds
mod Tests
use hdiff_patch.Prelude.{
  ℕ, zero, suc, ◌+◌, ◌-◌, ◌/◌, ◌%◌, ◌^◌, ◌≡◌, Bool, true, false, ◌&&◌, not, Option, none, some,
  List, [], ◌∷◌, ◌++◌, ltb, ◌==◌, if◌then◌else◌, length, take, drop, ◌>>=◌, ◌>>◌, check,
}
use hdiff_patch.Varint.{unpack_uint_with_tag}
use hdiff_patch.Rle.{bytes_rle_load}

-- `while (length--) { *dst++ += *src++; }` on unsigned bytes: `src` is added to the front of `dst`.
unfoldable pub add_data : (dst src : List ℕ) → List ℕ
add_data [] src = []
add_data (d ∷ dst) [] = d ∷ dst
add_data (d ∷ dst) (s ∷ src) = (d + s) % 2 ^ 8 ∷ add_data dst src

-- kSignTagBit
abbrev pub sign_tag_bit : ℕ
sign_tag_bit = 1

-- The variables of the cover loop: the four code streams from their read pointers on, oldPosBack,
-- and out_newData from newPosBack on, which still holds the difference bytes of the run-length code.
pub record PatchState : Type 0 where
  pub code_lengths : List ℕ
  pub code_inc_new_pos : List ℕ
  pub code_inc_old_pos : List ℕ
  pub code_new_data_diff : List ℕ
  pub old_pos_back : ℕ
  pub new_rest : List ℕ

-- `if (code_inc_oldPos>=code_inc_oldPos_end) return _hpatch_FALSE;` and the sign above it.
unfoldable pub inc_old_pos_sign : List ℕ → Option ℕ
inc_old_pos_sign [] = none
inc_old_pos_sign (code ∷ codes) = some (code / 2 ^ (8 - sign_tag_bit))

-- `oldPosBack+inc_oldPos` or `oldPosBack-inc_oldPos`, modulo 2 ^ 64
unfoldable pub next_old_pos : (sign old_pos_back inc_old_pos : ℕ) → ℕ
next_old_pos sign old_pos_back inc_old_pos =
    if sign == 0
    then (old_pos_back + inc_old_pos) % 2 ^ 64
    else (old_pos_back + 2 ^ 64 - inc_old_pos) % 2 ^ 64

-- `memcpy(out_newData+newPosBack,code_newDataDiff,copyLength)` behind its two checks: new bytes are
-- copied over the difference bytes.
pub copy_new : (copy_length : ℕ) → PatchState → Option (List ℕ × PatchState)
copy_new copy_length s = do
  check (not (ltb (length s.new_rest) copy_length))
  check (not (ltb (length s.code_new_data_diff) copy_length))
  some (
    take copy_length s.code_new_data_diff,
    record s {
      code_new_data_diff = drop copy_length s.code_new_data_diff;
      new_rest = drop copy_length s.new_rest;
    },
  )

-- `if (copyLength>0){…}`
pub copy_part : (copy_length : ℕ) → PatchState → Option (List ℕ × PatchState)
copy_part copy_length s = if ltb 0 copy_length then copy_new copy_length s else some ([], s)

-- The part behind it: old bytes are added to the difference bytes.
pub add_part : (old : List ℕ) (old_pos add_length : ℕ) → PatchState → Option (List ℕ × PatchState)
add_part old old_pos add_length s = do
  check (not (ltb (length s.new_rest) add_length))
  check (not (ltb (length old) old_pos))
  check (not (ltb (length old - old_pos) add_length))
  some (
    add_data (take add_length s.new_rest) (take add_length (drop old_pos old)),
    record s { old_pos_back = old_pos; new_rest = drop add_length s.new_rest },
  )

-- One round of `for (i=0; i<coverCount; ++i)`: the bytes of out_newData that it settles.
pub cover_round : (old : List ℕ) → PatchState → Option (List ℕ × PatchState)
cover_round old s = do
  (copy_length, inc_new_pos) ← unpack_uint_with_tag s.code_inc_new_pos 0
  (add_length, lengths) ← unpack_uint_with_tag s.code_lengths 0
  sign ← inc_old_pos_sign s.code_inc_old_pos
  (inc_old_pos, inc_old_poses) ← unpack_uint_with_tag s.code_inc_old_pos sign_tag_bit
  let old_pos = next_old_pos sign s.old_pos_back inc_old_pos
  (copied, s') ← copy_part copy_length (record s {
    code_lengths = lengths;
    code_inc_new_pos = inc_new_pos;
    code_inc_old_pos = inc_old_poses;
  })
  (added, s'') ← add_part old old_pos add_length s'
  some (copied ++ added, s'')

abbrev pub is_empty : List ℕ → Bool
is_empty [] = true
is_empty (x ∷ xs) = false

-- Behind the loop: the last new bytes, then the test that every code stream is used up.
pub patch_tail : PatchState → Option (List ℕ)
patch_tail s = do
  check (not (ltb (length s.code_new_data_diff) (length s.new_rest)))
  check (
      is_empty s.code_lengths
      && is_empty s.code_inc_new_pos
      && is_empty s.code_inc_old_pos
      && is_empty (drop (length s.new_rest) s.code_new_data_diff))
  some (take (length s.new_rest) s.code_new_data_diff)

-- The loop over the covers that are left, and what follows it.
pub patch_covers : (cover_count : ℕ) (old : List ℕ) → PatchState → Option (List ℕ)
patch_covers zero old s = patch_tail s
patch_covers (suc cover_count) old s = do
  (bytes, s') ← cover_round old s
  rest ← patch_covers cover_count old s'
  some (bytes ++ rest)

-- `if (size>end-begin) return _hpatch_FALSE;`, then the code stream of that size.
unfoldable pub cut : (size : ℕ) → List ℕ → Option (List ℕ × List ℕ)
cut size code = if ltb (length code) size then none else some (take size code, drop size code)

-- The new data of `new_size` bytes, or `none` where `patch` returns hpatch_FALSE.
unfoldable pub patch : (new_size : ℕ) (old serialized_diff : List ℕ) → Option (List ℕ)
unfolding add_data inc_old_pos_sign next_old_pos cut copy_new copy_part add_part cover_round
    patch_tail patch_covers
patch new_size old serialized_diff = do
  (cover_count, d) ← unpack_uint_with_tag serialized_diff 0
  (length_size, d) ← unpack_uint_with_tag d 0
  (inc_new_pos_size, d) ← unpack_uint_with_tag d 0
  (inc_old_pos_size, d) ← unpack_uint_with_tag d 0
  (new_data_diff_size, d) ← unpack_uint_with_tag d 0
  (code_lengths, d) ← cut length_size d
  (code_inc_new_pos, d) ← cut inc_new_pos_size d
  (code_inc_old_pos, d) ← cut inc_old_pos_size d
  (code_new_data_diff, d) ← cut new_data_diff_size d
  difference ← bytes_rle_load new_size d
  patch_covers cover_count old (record {
    code_lengths = code_lengths;
    code_inc_new_pos = code_inc_new_pos;
    code_inc_old_pos = code_inc_old_pos;
    code_new_data_diff = code_new_data_diff;
    old_pos_back = 0;
    new_rest = difference;
  })
