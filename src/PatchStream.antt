-- ===== src/PatchStream.antt =====
-- Patching by streams: patchByClip and _patch_stream_with_cache of libHDiffPatch/HPatch/patch.c, with
-- _TCovers, read_diff_head and _packedCovers_open.
-- The clips of a stream hold a view `H` of it each; a read at one position leaves to the others what
-- they see. `W` is the state of the written stream and `O` that of the old data.
pub mod Open
pub mod Spec
pub mod NextCover
pub mod Adds
pub mod Parts
pub mod Rounds
pub mod Refine
pub mod Tail
pub mod Whole
pub mod Written
pub mod Encoded
pub mod Heads
pub mod Stream
pub mod Opened
pub mod Restores
pub mod RoundTrip
mod Tests
use hdiff_patch.Prelude.{
  ℕ, zero, suc, ◌+◌, ◌-◌, ◌*◌, ◌/◌, ◌%◌, ◌^◌, Bool, true, false, not, ◌&&◌, Option, none, some,
  List, [], ◌∷◌, ltb, ◌==◌, if◌then◌else◌, length, ◌>>=◌, ◌>>◌, check,
}
use hdiff_patch.Varint.{max_packed_uint_bytes}
use hdiff_patch.MemPatch.{sign_tag_bit, next_old_pos}
use hdiff_patch.MemPatch.Serialize.{Cover}
use hdiff_patch.Clip.{
  Clip, at_most, clip_init, is_finish, leave_size, read_pos_of_src_stream, access_data,
  clip_unpack_uint_with_tag,
}
use hdiff_patch.OutCache.{
  OutCache, out_init, out_leave_size, out_is_finish, flush, out_write, copy_from_clip,
}
use hdiff_patch.RleStream.{Loader, first, loader_init, loader_is_finish, decode_add, decode_skip}

-- _TCovers, whose three clips are three objects, as _packedCovers_open gives them; the covers of a
-- compressed diff, whose three pointers are one clip, are not modelled.
pub record Covers (H : Type 0) : Type 0 where
  pub cover_count : ℕ
  pub old_pos_back : ℕ
  pub new_pos_back : ℕ
  pub code_inc_old_pos_clip : Clip H
  pub code_inc_new_pos_clip : Clip H
  pub code_lengths_clip : Clip H
  pub is_old_pos_back_need_add_length : Bool

-- The streams that patchByClip works on.
pub record Machine (H W O : Type 0) : Type 0 where
  pub out_cache : OutCache W
  pub old_data : O
  pub covers : Covers H
  pub code_new_data_diff_clip : Clip H
  pub rle_loader : Loader H
  pub new_pos_back : ℕ

module _ {H : Type 0} (read : H → (read_from_pos size : ℕ) → Option (List ℕ × H)) where
  -- _covers_init
  abbrev pub covers_init :
      (cover_count : ℕ) (code_inc_old_pos_clip code_inc_new_pos_clip code_lengths_clip : Clip H)
      (is_old_pos_back_need_add_length : Bool)
      → Covers H
  covers_init cover_count code_inc_old_pos_clip code_inc_new_pos_clip code_lengths_clip
        is_old_pos_back_need_add_length =
      record {
        cover_count = cover_count;
        old_pos_back = 0;
        new_pos_back = 0;
        code_inc_old_pos_clip = code_inc_old_pos_clip;
        code_inc_new_pos_clip = code_inc_new_pos_clip;
        code_lengths_clip = code_lengths_clip;
        is_old_pos_back_need_add_length = is_old_pos_back_need_add_length;
      }

  -- The body of _covers_read_cover, once the cover is counted.
  unfoldable pub next_cover : Covers H → Option (Cover × Covers H)
  unfolding access_data clip_unpack_uint_with_tag next_old_pos
  next_cover s = do
    clip ← access_data read s.code_inc_old_pos_clip 1
    byte ← first clip.cached
    (inc_old_pos, inc_old_clip) ← clip_unpack_uint_with_tag read clip sign_tag_bit
    let old_pos = next_old_pos (byte / 2 ^ (8 - sign_tag_bit)) s.old_pos_back inc_old_pos
    (copy_length, inc_new_clip) ← clip_unpack_uint_with_tag read s.code_inc_new_pos_clip 0
    (cover_length, lengths_clip) ← clip_unpack_uint_with_tag read s.code_lengths_clip 0
    let new_pos = (s.new_pos_back + copy_length) % 2 ^ 64
    some (
      record { old_pos = old_pos; new_pos = new_pos; len = cover_length },
      record s {
        old_pos_back =
            if s.is_old_pos_back_need_add_length
            then (old_pos + cover_length) % 2 ^ 64
            else old_pos;
        new_pos_back = (new_pos + cover_length) % 2 ^ 64;
        code_inc_old_pos_clip = inc_old_clip;
        code_inc_new_pos_clip = inc_new_clip;
        code_lengths_clip = lengths_clip;
      },
    )

  -- _covers_read_cover
  unfoldable pub read_cover : Covers H → Option (Cover × Covers H)
  unfolding next_cover
  read_cover s =
      if ltb 0 s.cover_count
      then next_cover (record s { cover_count = s.cover_count - 1 })
      else none

  -- _covers_is_finish
  abbrev pub covers_is_finish : Covers H → Bool
  covers_is_finish s =
      is_finish read s.code_lengths_clip
      && is_finish read s.code_inc_new_pos_clip
      && is_finish read s.code_inc_old_pos_clip

  -- _rle_decode_skip: a round skips what a size_t can count.
  unfoldable pub rle_decode_skip : (fuel : ℕ) → Loader H → (copy_length : ℕ) → Option (Loader H)
  unfolding decode_add
  rle_decode_skip fuel l zero = some l
  rle_decode_skip zero l (suc copy_length) = none
  rle_decode_skip (suc fuel) l (suc copy_length) = do
    let len = at_most (2 ^ 64 - 1) (suc copy_length)
    (skipped, l) ← decode_skip read l len
    rle_decode_skip fuel l (suc copy_length - len)

module _ {H W O : Type 0} (read : H → (read_from_pos size : ℕ) → Option (List ℕ × H))
    (write : W → (write_to_pos : ℕ) → (data_ : List ℕ) → Option W)
    (read_old : O → (read_from_pos size : ℕ) → Option (List ℕ × O)) where
  -- _patch_add_old_with_rle
  unfoldable pub patch_add_old_with_rle :
      (fuel : ℕ)
      → OutCache W
      → Loader H
      → O
      → (old_pos add_length cache_size : ℕ) → Option (OutCache W × Loader H × O)
  unfolding decode_add out_write
  patch_add_old_with_rle fuel out_cache rle_loader old old_pos zero cache_size =
      some (out_cache, rle_loader, old)
  patch_add_old_with_rle zero out_cache rle_loader old old_pos (suc add_length) cache_size = none
  patch_add_old_with_rle (suc fuel) out_cache rle_loader old old_pos (suc add_length) cache_size =
      do
        let decode_step = at_most cache_size (suc add_length)
        (bytes, old) ← read_old old old_pos decode_step
        (added, rle_loader) ← decode_add read rle_loader bytes decode_step
        out_cache ← out_write write (length added) out_cache added
        patch_add_old_with_rle fuel out_cache rle_loader old ((old_pos + decode_step) % 2 ^ 64)
            (suc add_length - decode_step) cache_size

  -- `…copyFromClip(outCache,code_newDataDiffClip,copyLength)` and `_rle_decode_skip(rle_loader,copyLength)`
  unfoldable pub copy_new_data : (copy_length : ℕ) → Machine H W O → Option (Machine H W O)
  unfolding copy_from_clip rle_decode_skip
  copy_new_data copy_length m = do
    (out_cache, clip) ←
        copy_from_clip write read copy_length m.out_cache m.code_new_data_diff_clip copy_length
    rle_loader ← rle_decode_skip read copy_length m.rle_loader copy_length
    some (record m {
      out_cache = out_cache;
      code_new_data_diff_clip = clip;
      rle_loader = rle_loader;
    })

  -- The last statements of a round of patchByClip: the old data with its differences.
  unfoldable pub add_old_data : (cache_size : ℕ) → Cover → Machine H W O → Option (Machine H W O)
  unfolding patch_add_old_with_rle
  add_old_data cache_size cover m = do
    (out_cache, rle_loader, old) ←
        patch_add_old_with_rle cover.len m.out_cache m.rle_loader m.old_data cover.old_pos cover.len
          cache_size
    some (record m {
      out_cache = out_cache;
      rle_loader = rle_loader;
      old_data = old;
      new_pos_back = (cover.new_pos + cover.len) % 2 ^ 64;
    })

  -- A round of `while (coverCount--)`
  unfoldable pub clip_round :
      (new_data_size old_data_size cache_size : ℕ) → Machine H W O → Option (Machine H W O)
  unfolding read_cover copy_new_data add_old_data
  clip_round new_data_size old_data_size cache_size m = do
    (cover, covers) ← read_cover read m.covers
    check (not (ltb cover.new_pos m.new_pos_back))
    check (not (ltb ((new_data_size + 2 ^ 64 - cover.new_pos) % 2 ^ 64) cover.len))
    check (not (ltb old_data_size cover.old_pos))
    check (not (ltb (old_data_size - cover.old_pos) cover.len))
    let m = record m { covers = covers }
    let gap = copy_new_data (cover.new_pos - m.new_pos_back) m
    m ← (if ltb m.new_pos_back cover.new_pos then gap else some m)
    add_old_data cache_size cover m

  unfoldable pub clip_rounds :
      (cover_count new_data_size old_data_size cache_size : ℕ)
      → Machine H W O
      → Option (Machine H W O)
  unfolding clip_round
  clip_rounds zero new_data_size old_data_size cache_size m = some m
  clip_rounds (suc cover_count) new_data_size old_data_size cache_size m = do
    m ← clip_round new_data_size old_data_size cache_size m
    clip_rounds cover_count new_data_size old_data_size cache_size m

  -- What follows the loop: the last new data, the flush and the tests.
  unfoldable pub clip_tail :
      (stream_size new_data_size : ℕ) → Machine H W O → Option (Machine H W O)
  unfolding copy_new_data flush loader_is_finish
  clip_tail stream_size new_data_size m = do
    let last = copy_new_data (new_data_size - m.new_pos_back) m
    m ←
        (if ltb m.new_pos_back new_data_size
          then (last >>= λ m'. some (record m' { new_pos_back = new_data_size }))
          else some m)
    out_cache ← flush write m.out_cache
    check (
        loader_is_finish read m.rle_loader
        && covers_is_finish read m.covers
        && out_is_finish write stream_size out_cache
        && is_finish read m.code_new_data_diff_clip
        && (m.new_pos_back == new_data_size))
    some (record m { out_cache = out_cache })

  -- patchByClip; `stream_size` is that of the written stream.
  unfoldable pub patch_by_clip :
      (stream_size old_data_size cache_size : ℕ) → Machine H W O → Option (Machine H W O)
  unfolding clip_rounds clip_tail
  patch_by_clip stream_size old_data_size cache_size m = do
    let new_data_size = out_leave_size write stream_size m.out_cache
    m ←
        clip_rounds m.covers.cover_count new_data_size old_data_size cache_size
          (record m { new_pos_back = 0 })
    clip_tail stream_size new_data_size m
