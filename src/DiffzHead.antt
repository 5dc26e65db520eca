-- ===== src/DiffzHead.antt =====
-- The head of a compressed diff: read_diffz_head of libHDiffPatch/HPatch/patch.c, and the types that
-- _outType of libHDiffPatch/HDiff/diff.cpp writes in front of it.
pub mod Reading
mod Tests
use hdiff_patch.Prelude.{
  ℕ, zero, suc, ◌+◌, ◌%◌, ◌^◌, Bool, true, false, ◌&&◌, Option, none, some, List, [], ◌∷◌, ◌++◌,
  ltb, ◌==◌, if◌then◌else◌, ◌>>=◌, ◌>>◌, check, leb, not, length,
}
use hdiff_patch.Clip.{
  Clip, clip_init, read_pos_of_src_stream, clip_unpack_uint_with_tag, read_str_end,
}
use hdiff_patch.PatchStream.Open.{stream_cache_size}

-- kHDiffVersionType: "HDIFF13"
abbrev pub hdiff_version_type : List ℕ
hdiff_version_type = 72 ∷ 68 ∷ 73 ∷ 70 ∷ 70 ∷ 49 ∷ 51 ∷ []

-- hpatch_kMaxPluginTypeLength
abbrev pub max_plugin_type_length : ℕ
max_plugin_type_length = 259

-- What _outType pushes: the version, "&", the type of the compression and the end of a C string.
abbrev pub pushed_type : (compress_type : List ℕ) → List ℕ
pushed_type compress_type = hdiff_version_type ++ (38 ∷ (compress_type ++ (0 ∷ [])))

-- `strchr(text,tag)` on a text without its end, as a test
unfoldable pub has_char : (text : List ℕ) (tag : ℕ) → Bool
has_char [] tag = false
has_char (t ∷ text) tag = let rest = has_char text tag in if t == tag then true else rest

-- _outType; `none` is a check that throws. The type is a C string without its end.
unfoldable pub out_type : (compress_type : List ℕ) → Option (List ℕ)
unfolding has_char
out_type compress_type = do
  check (leb (length compress_type) max_plugin_type_length)
  check (not (has_char compress_type 38))
  some (pushed_type compress_type)

-- hpatch_compressedDiffInfo
pub record CompressedDiffInfo : Type 0 where
  pub new_data_size : ℕ
  pub old_data_size : ℕ
  pub compressed_count : ℕ
  pub compress_type : List ℕ

-- _THDiffzHead
pub record Head : Type 0 where
  pub cover_count : ℕ
  pub cover_buf_size : ℕ
  pub compress_cover_buf_size : ℕ
  pub rle_ctrl_buf_size : ℕ
  pub compress_rle_ctrl_buf_size : ℕ
  pub rle_code_buf_size : ℕ
  pub compress_rle_code_buf_size : ℕ
  pub new_data_diff_size : ℕ
  pub compress_new_data_diff_size : ℕ
  pub types_end_pos : ℕ
  pub compress_size_begin_pos : ℕ
  pub head_end_pos : ℕ
  pub cover_end_pos : ℕ

-- `strcmp`: the bytes of two strings up to their ends are the same.
unfoldable pub same_string : (text version : List ℕ) → Bool
same_string [] [] = true
same_string [] (v ∷ version) = false
same_string (t ∷ text) [] = t == 0
same_string (t ∷ text) (v ∷ version) =
    let rest = same_string text version in if t == v then rest else false

-- `(size)?1:0`
abbrev pub is_compressed : ℕ → ℕ
is_compressed zero = 0
is_compressed (suc size) = 1

module _ {H : Type 0} (read : H → (read_from_pos size : ℕ) → Option (List ℕ × H))
    (stream_size : ℕ) where
  -- _TStreamCacheClip_readType_end
  abbrev pub read_type_end : Clip H → (end_tag : ℕ) → Option (List ℕ × Clip H)
  read_type_end clip end_tag = read_str_end read clip end_tag (max_plugin_type_length + 1)

  -- `coverEndPos`: behind the covers, compressed or not
  abbrev pub cover_end : (head_end_pos cover_buf_size compress_cover_buf_size : ℕ) → ℕ
  cover_end head_end_pos cover_buf_size compress_cover_buf_size =
      if ltb 0 compress_cover_buf_size
      then (head_end_pos + compress_cover_buf_size) % 2 ^ 64
      else (head_end_pos + cover_buf_size) % 2 ^ 64

  -- read_diffz_head
  unfoldable pub read_diffz_head : (compressed_diff : H) → Option (CompressedDiffInfo × Head)
  unfolding read_str_end same_string clip_unpack_uint_with_tag
  read_diffz_head compressed_diff = do
    (version, clip) ←
        read_type_end (clip_init read compressed_diff 0 stream_size stream_cache_size) 38
    check (same_string version hdiff_version_type)
    (compress_type, types) ← read_type_end clip 0
    (new_data_size, clip) ← clip_unpack_uint_with_tag read types 0
    (old_data_size, clip) ← clip_unpack_uint_with_tag read clip 0
    (cover_count, counted) ← clip_unpack_uint_with_tag read clip 0
    (cover_buf_size, clip) ← clip_unpack_uint_with_tag read counted 0
    (compress_cover_buf_size, clip) ← clip_unpack_uint_with_tag read clip 0
    (rle_ctrl_buf_size, clip) ← clip_unpack_uint_with_tag read clip 0
    (compress_rle_ctrl_buf_size, clip) ← clip_unpack_uint_with_tag read clip 0
    (rle_code_buf_size, clip) ← clip_unpack_uint_with_tag read clip 0
    (compress_rle_code_buf_size, clip) ← clip_unpack_uint_with_tag read clip 0
    (new_data_diff_size, clip) ← clip_unpack_uint_with_tag read clip 0
    (compress_new_data_diff_size, clip) ← clip_unpack_uint_with_tag read clip 0
    some (
      record {
        new_data_size = new_data_size;
        old_data_size = old_data_size;
        compressed_count =
            is_compressed compress_cover_buf_size
            + is_compressed compress_rle_ctrl_buf_size
            + is_compressed compress_rle_code_buf_size
            + is_compressed compress_new_data_diff_size;
        compress_type = compress_type;
      },
      record {
        cover_count = cover_count;
        cover_buf_size = cover_buf_size;
        compress_cover_buf_size = compress_cover_buf_size;
        rle_ctrl_buf_size = rle_ctrl_buf_size;
        compress_rle_ctrl_buf_size = compress_rle_ctrl_buf_size;
        rle_code_buf_size = rle_code_buf_size;
        compress_rle_code_buf_size = compress_rle_code_buf_size;
        new_data_diff_size = new_data_diff_size;
        compress_new_data_diff_size = compress_new_data_diff_size;
        types_end_pos = read_pos_of_src_stream read types;
        compress_size_begin_pos = read_pos_of_src_stream read counted;
        head_end_pos = read_pos_of_src_stream read clip;
        cover_end_pos =
            cover_end (read_pos_of_src_stream read clip) cover_buf_size compress_cover_buf_size;
      },
    )
