-- ===== src/PatchStream/Open.antt =====
-- Opening the streams of an uncompressed diff: read_diff_head, _packedCovers_open and
-- _patch_stream_with_cache of libHDiffPatch/HPatch/patch.c.
-- temp_cache and temp_cache_end are addresses; the bytes between them are shared out to the caches.
use hdiff_patch.Prelude.{
  true, ℕ, ◌+◌, ◌-◌, ◌*◌, ◌/◌, false, not, Option, none, some, List, ltb, ◌>>=◌, ◌>>◌, check,
}
use hdiff_patch.Varint.{max_packed_uint_bytes}
use hdiff_patch.Clip.{clip_init, read_pos_of_src_stream, clip_unpack_uint_with_tag}
use hdiff_patch.OutCache.{out_init}
use hdiff_patch.RleStream.{loader_init}
use hdiff_patch.PatchStream.{Covers, Machine, covers_init, patch_by_clip}

-- hpatch_kStreamCacheSize
abbrev pub stream_cache_size : ℕ
stream_cache_size = 1024 * 4

-- _kCachePatCount
abbrev pub cache_pat_count : ℕ
cache_pat_count = 8

-- _THDiffHead
pub record DiffHead : Type 0 where
  pub cover_count : ℕ
  pub length_size : ℕ
  pub inc_new_pos_size : ℕ
  pub inc_old_pos_size : ℕ
  pub new_data_diff_size : ℕ
  pub head_end_pos : ℕ
  pub cover_end_pos : ℕ

-- _cache_alloc for `mem_size` bytes that are aligned to eight: where the cache goes on.
abbrev pub cache_alloc : (mem_size temp_cache temp_cache_end : ℕ) → Option ℕ
cache_alloc mem_size temp_cache temp_cache_end =
    check (not (ltb (temp_cache_end - temp_cache) (8 + mem_size)))
    >> some ((temp_cache + (8 - 1)) / 8 * 8 + mem_size)

module _ {H : Type 0} (read : H → (read_from_pos size : ℕ) → Option (List ℕ × H))
    (stream_size : ℕ) where
  -- `if (size>(hpatch_StreamPos_t)(diffPos_end-diffPos0)) return _hpatch_FALSE; diffPos0+=size;`
  abbrev pub past : (diff_pos size : ℕ) → Option ℕ
  past diff_pos size = check (not (ltb (stream_size - diff_pos) size)) >> some (diff_pos + size)

  -- read_diff_head
  unfoldable pub read_diff_head : (serialized_diff : H) → Option DiffHead
  unfolding clip_unpack_uint_with_tag
  read_diff_head serialized_diff = do
    let clip = clip_init read serialized_diff 0 stream_size stream_cache_size
    (cover_count, clip) ← clip_unpack_uint_with_tag read clip 0
    (length_size, clip) ← clip_unpack_uint_with_tag read clip 0
    (inc_new_pos_size, clip) ← clip_unpack_uint_with_tag read clip 0
    (inc_old_pos_size, clip) ← clip_unpack_uint_with_tag read clip 0
    (new_data_diff_size, clip) ← clip_unpack_uint_with_tag read clip 0
    let head_end_pos = read_pos_of_src_stream read clip
    diff_pos ← past head_end_pos length_size
    diff_pos ← past diff_pos inc_new_pos_size
    cover_end_pos ← past diff_pos inc_old_pos_size
    diff_end_pos ← past cover_end_pos new_data_diff_size
    some (record {
      cover_count = cover_count;
      length_size = length_size;
      inc_new_pos_size = inc_new_pos_size;
      inc_old_pos_size = inc_old_pos_size;
      new_data_diff_size = new_data_diff_size;
      head_end_pos = head_end_pos;
      cover_end_pos = cover_end_pos;
    })

  -- _packedCovers_open; `packed_covers_size` is sizeof(_TPackedCovers).
  unfoldable pub packed_covers_open :
      (packed_covers_size : ℕ) (serialized_diff : H) (temp_cache temp_cache_end : ℕ)
      → Option (DiffHead × Covers H)
  unfolding read_diff_head
  packed_covers_open packed_covers_size serialized_diff temp_cache temp_cache_end = do
    temp_cache ← cache_alloc packed_covers_size temp_cache temp_cache_end
    let cache_size = (temp_cache_end - temp_cache) / 3
    head ← read_diff_head serialized_diff
    let inc_new_pos = head.head_end_pos + head.length_size
    let inc_old_pos = inc_new_pos + head.inc_new_pos_size
    some (
      head,
      covers_init read head.cover_count
          (clip_init read serialized_diff inc_old_pos (inc_old_pos + head.inc_old_pos_size)
            cache_size)
          (clip_init read serialized_diff inc_new_pos inc_old_pos cache_size)
          (clip_init read serialized_diff head.head_end_pos inc_new_pos cache_size) false,
    )

  module _ {W O : Type 0} (write : W → (write_to_pos : ℕ) → (data_ : List ℕ) → Option W)
      (read_old : O → (read_from_pos size : ℕ) → Option (List ℕ × O)) where
    -- The covers of _patch_stream_with_cache: those that are given, or those of the diff.
    unfoldable pub open_covers :
        (packed_covers_size : ℕ) (serialized_diff : H) (cached_covers : Option (Covers H))
        (cache_size temp_cache temp_cache_end : ℕ)
        → Option (DiffHead × Covers H)
    unfolding packed_covers_open
    open_covers packed_covers_size serialized_diff none cache_size temp_cache temp_cache_end =
        packed_covers_open packed_covers_size serialized_diff
          (temp_cache + cache_size * (cache_pat_count - 3)) temp_cache_end
    open_covers packed_covers_size serialized_diff (some covers) cache_size temp_cache
          temp_cache_end =
        do head ← read_diff_head serialized_diff; some (head, covers)

    abbrev pub cache_count : Option (Covers H) → ℕ
    cache_count none = cache_pat_count
    cache_count (some covers) = cache_pat_count - 3

    -- _patch_stream_with_cache: `new_data_size` is out_newData->streamSize and `old_data_size` that of
    -- oldData.
    unfoldable pub patch_stream_with_cache :
        (packed_covers_size new_data_size old_data_size : ℕ) (out_new_data : W) (old_data : O)
        (serialized_diff : H) (cached_covers : Option (Covers H)) (temp_cache temp_cache_end : ℕ)
        → Option (Machine H W O)
    unfolding open_covers patch_by_clip clip_unpack_uint_with_tag
    patch_stream_with_cache packed_covers_size new_data_size old_data_size out_new_data old_data
          serialized_diff cached_covers temp_cache temp_cache_end =
        do
          let cache_size = (temp_cache_end - temp_cache) / cache_count cached_covers
          (head, covers) ←
              open_covers packed_covers_size serialized_diff cached_covers cache_size temp_cache
                temp_cache_end
          let rle_head_pos = head.cover_end_pos + head.new_data_diff_size
          check (not (ltb cache_size max_packed_uint_bytes))
          (rle_ctrl_size, rle_head) ←
              clip_unpack_uint_with_tag read
                (clip_init read serialized_diff rle_head_pos stream_size max_packed_uint_bytes) 0
          let rle_pos = read_pos_of_src_stream read rle_head
          check (not (ltb (stream_size - rle_pos) rle_ctrl_size))
          patch_by_clip read write read_old new_data_size old_data_size cache_size (record {
            out_cache = out_init write out_new_data true cache_size;
            old_data = old_data;
            covers = covers;
            code_new_data_diff_clip =
                clip_init read serialized_diff head.cover_end_pos rle_head_pos cache_size;
            rle_loader =
                loader_init read
                  (clip_init read serialized_diff rle_pos (rle_pos + rle_ctrl_size) cache_size)
                  (clip_init read serialized_diff (rle_pos + rle_ctrl_size) stream_size cache_size);
            new_pos_back = 0;
          })
