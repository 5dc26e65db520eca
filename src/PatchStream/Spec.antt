-- ===== src/PatchStream/Spec.antt =====
-- What patchByClip does, on the bytes of its streams as lists.
use hdiff_patch.Prelude.{
  ℕ, zero, suc, ◌+◌, ◌-◌, ◌%◌, ◌^◌, Bool, ◌&&◌, not, Option, some, List, ◌++◌, ltb, length, take,
  drop, ◌>>=◌, ◌>>◌, check,
}
use hdiff_patch.Varint.{unpack_within, max_packed_uint_bytes}
use hdiff_patch.MemPatch.{sign_tag_bit, next_old_pos, inc_old_pos_sign, cut, add_data, is_empty}
use hdiff_patch.MemPatch.Serialize.{Cover}

-- The bytes that the streams have left, the two positions, and whether the run-length code ends
-- behind `deltas`.
pub record Lists : Type 0 where
  pub lengths : List ℕ
  pub inc_new : List ℕ
  pub inc_old : List ℕ
  pub news : List ℕ
  pub deltas : List ℕ
  pub ends : Bool
  pub old_pos_back : ℕ
  pub new_pos_back : ℕ

-- The code streams behind a cover.
pub record Codes : Type 0 where
  pub lengths : List ℕ
  pub inc_new : List ℕ
  pub inc_old : List ℕ

-- The next cover.
unfoldable pub list_cover : Lists → Option (Cover × Codes)
list_cover s = do
  sign ← inc_old_pos_sign s.inc_old
  (inc, inc_old) ← unpack_within max_packed_uint_bytes s.inc_old sign_tag_bit
  (copy_length, inc_new) ← unpack_within max_packed_uint_bytes s.inc_new 0
  (len, lengths) ← unpack_within max_packed_uint_bytes s.lengths 0
  some (
    record {
      old_pos = next_old_pos sign s.old_pos_back inc;
      new_pos = (s.new_pos_back + copy_length) % 2 ^ 64;
      len = len;
    },
    record { lengths = lengths; inc_new = inc_new; inc_old = inc_old },
  )

-- A cover in the bounds of both data, and the bytes up to its end: new bytes, and as many
-- differences that are skipped, then old bytes with their differences.
unfoldable pub list_round : (new_size : ℕ) (old : List ℕ) → Lists → Option (List ℕ × Lists)
unfolding list_cover
list_round new_size old s = do
  (c, codes) ← list_cover s
  check (not (ltb c.new_pos s.new_pos_back))
  check (not (ltb new_size (c.new_pos + c.len)))
  check (not (ltb (length old) (c.old_pos + c.len)))
  (copied, news) ← cut (c.new_pos - s.new_pos_back) s.news
  (skipped, deltas) ← cut (c.new_pos - s.new_pos_back) s.deltas
  (difference, deltas) ← cut c.len deltas
  some (
    copied ++ add_data (take c.len (drop c.old_pos old)) difference,
    record {
      lengths = codes.lengths;
      inc_new = codes.inc_new;
      inc_old = codes.inc_old;
      news = news;
      deltas = deltas;
      ends = s.ends;
      old_pos_back = c.old_pos;
      new_pos_back = c.new_pos + c.len;
    },
  )

-- The last new bytes, if nothing is then left.
unfoldable pub list_tail : (new_size : ℕ) → Lists → Option (List ℕ)
list_tail new_size s = do
  (bytes, news) ← cut (new_size - s.new_pos_back) s.news
  (skipped, deltas) ← cut (new_size - s.new_pos_back) s.deltas
  check (
      is_empty deltas
      && s.ends
      && is_empty s.lengths
      && is_empty s.inc_new
      && is_empty s.inc_old
      && is_empty news)
  some bytes

-- All the new bytes.
unfoldable pub list_patch : (cover_count new_size : ℕ) (old : List ℕ) → Lists → Option (List ℕ)
unfolding list_round list_tail
list_patch zero new_size old s = list_tail new_size s
list_patch (suc cover_count) new_size old s = do
  (bytes, s) ← list_round new_size old s
  rest ← list_patch cover_count new_size old s
  some (bytes ++ rest)
