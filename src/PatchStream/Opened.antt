-- ===== src/PatchStream/Opened.antt =====
-- _patch_stream_with_cache restores the new data that the streams of a diff stand for.
use hdiff_patch.Prelude.{
  ℕ, ◌+◌, ◌-◌, ◌*◌, ◌/◌, ◌^◌, ◌≤◌, ◌<◌, ◌≡◌, refl, false, Option, some, List, ◌++◌, arith, length,
  length-append, le→ltb,
}
use hdiff_patch.Varint.{IsU64, max_packed_uint_bytes}
use hdiff_patch.Clip.{clip_init}
use hdiff_patch.Clip.Reads.{IsClip}
use hdiff_patch.OutCache.Writes.{Accepts}
use hdiff_patch.MemStream.Access.{Window, Random-Serves}
use hdiff_patch.RleStream.Steps.{AreBytes}
use hdiff_patch.PatchStream.{Covers, covers_init}
use hdiff_patch.PatchStream.Adds.{Random}
use hdiff_patch.PatchStream.NextCover.{IsCovers}
use hdiff_patch.PatchStream.Open.{DiffHead, packed_covers_open}
use hdiff_patch.PatchStream.Heads.{Suffix, window_of, clip_init-IsClip, read_diff_head-some}
use hdiff_patch.PatchStream.Stream.{
  Parts, rle_part, streams_part, diff_of, lists_of, diff_of-IsPlaced,
}

module _ {H W O : Type 0} (read : H → ℕ → ℕ → Option (List ℕ × H)) (Holds : H → List ℕ → Type 0)
    (random : Random read Holds) (write : W → ℕ → List ℕ → Option W) (Written : W → List ℕ → Type 0)
    (new_size : ℕ) (accepts : Accepts write Written new_size) (new_fits : new_size < 2 ^ 64)
    (read_old : O → ℕ → ℕ → Option (List ℕ × O)) (HoldsOld : O → List ℕ → Type 0)
    (random_old : Random read_old HoldsOld) (old : List ℕ) (old_fits : length old < 2 ^ 64)
    (old_bytes : AreBytes old) (p : Parts) (fits : length (diff_of p) < 2 ^ 64)
    (count_fits : IsU64 p.count) where
  abbrev pub At : H → ℕ → List ℕ → Type 0
  At = Window Holds (diff_of p)

  unfoldable pub base : ℕ
  base = length (diff_of p) - length (streams_part p)

  -- A clip on one of the streams.
  pub part-IsClip :
      (stream : H) (pos until size : ℕ) (front rest : List ℕ)
      → Holds stream (diff_of p)
      → Suffix (diff_of p) (front ++ rest)
      → pos + length (front ++ rest) ≡ length (diff_of p)
      → pos + length front ≡ until
      → IsClip At size (clip_init read stream pos until size) front
  part-IsClip stream pos until size front rest has s at ends =
      clip_init-IsClip read At stream pos until size front
        (window_of Holds (diff_of p) front rest stream pos has s at) ends
        (omega (arith, at, length-append front rest))

  -- _packedCovers_open
  unfoldable pub opened_covers : (stream : H) (size : ℕ) → Covers H
  unfolding base
  opened_covers stream size =
      covers_init read p.count
        (clip_init read stream (base + length p.lengths + length p.inc_new)
          (base + length p.lengths + length p.inc_new + length p.inc_old) size)
        (clip_init read stream (base + length p.lengths)
          (base + length p.lengths + length p.inc_new) size)
        (clip_init read stream base (base + length p.lengths) size) false

  pub sizes :
      (length (streams_part p) ≤ length (diff_of p))
      × (length (streams_part p)
          ≡ length p.lengths
            + length p.inc_new
            + length p.inc_old
            + length p.news
            + length (rle_part p))
  sizes =
      let (k, e, at) = (diff_of-IsPlaced p).at_lengths in
      (
        omega (arith, at),
        omega (
          arith,
          length-append p.lengths (p.inc_new ++ (p.inc_old ++ (p.news ++ rle_part p))),
          length-append p.inc_new (p.inc_old ++ (p.news ++ rle_part p)),
          length-append p.inc_old (p.news ++ rle_part p),
          length-append p.news (rle_part p),
        ),
      )

  pub opened_covers-IsCovers :
      (stream : H) (size : ℕ) (deltas : List ℕ)
      → Holds stream (diff_of p)
      → IsCovers read At
          (Random-Serves read Holds (diff_of p) random)
          size
          false
          p.count
          (opened_covers stream size)
          (lists_of p deltas)
  unfolding opened_covers base
  opened_covers-IsCovers stream size deltas has =
      let (inside, total) = sizes in
      let placed = diff_of-IsPlaced p in
      let l1 = length-append p.inc_new (p.inc_old ++ (p.news ++ rle_part p)) in
      let l2 = length-append p.inc_old (p.news ++ rle_part p) in
      let l3 = length-append p.news (rle_part p) in
      record {
        count_is = refl;
        old_pos_is = refl;
        new_pos_is = refl;
        adds_is = refl;
        old_has =
            part-IsClip stream _ _ size p.inc_old (p.news ++ rle_part p) has placed.at_inc_old
              (omega (arith, inside, total, l2, l3)) refl;
        new_has =
            part-IsClip stream _ _ size p.inc_new (p.inc_old ++ (p.news ++ rle_part p)) has
              placed.at_inc_new (omega (arith, inside, total, l1, l2, l3)) refl;
        lengths_has =
            part-IsClip stream _ _ size p.lengths
              (p.inc_new ++ (p.inc_old ++ (p.news ++ rle_part p))) has placed.at_lengths
              (omega (arith, inside)) refl;
      }

  unfoldable pub head : DiffHead
  unfolding base
  head = record {
    cover_count = p.count;
    length_size = length p.lengths;
    inc_new_pos_size = length p.inc_new;
    inc_old_pos_size = length p.inc_old;
    new_data_diff_size = length p.news;
    head_end_pos = base;
    cover_end_pos = base + length p.lengths + length p.inc_new + length p.inc_old;
  }

  pub packed_covers_open-some :
      (struct_size : ℕ) (stream : H) (temp_cache temp_cache_end : ℕ)
      → Holds stream (diff_of p)
      → temp_cache + struct_size + 40 ≤ temp_cache_end
      → (cover_size : ℕ) × (packed_covers_open read
            (length (diff_of p))
            struct_size
            stream
            temp_cache
            temp_cache_end
          ≡ some (head, opened_covers stream cover_size))
        × (max_packed_uint_bytes ≤ cover_size)
  unfolding packed_covers_open head opened_covers base
  packed_covers_open-some struct_size stream temp_cache temp_cache_end has room =
      let (inside, total) = sizes in
      (
        (temp_cache_end - ((temp_cache + (8 - 1)) / 8 * 8 + struct_size)) / 3,
        rw
            (
              le→ltb (temp_cache_end - temp_cache) (8 + struct_size) (omega arith),
              read_diff_head-some read Holds random (diff_of p) stream p.count (length p.lengths)
                  (length p.inc_new) (length p.inc_old) (length p.news) (streams_part p) has fits
                  refl count_fits (omega (arith, total)),
            )
            refl,
        omega arith,
      )
