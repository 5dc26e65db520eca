-- ===== src/Clip.antt =====
-- Reading a part of a stream through a cache: TStreamCacheClip of libHDiffPatch/HPatch/patch.c and
-- libHDiffPatch/HPatch/patch_private.h.
-- `read` is hpatch_TStreamInput.read, with what streamImport points to as a state `H`: it is given a
-- position and the number of bytes asked for, and `none` is hpatch_FALSE.
pub mod Reads
pub mod Skips
mod Tests
use hdiff_patch.Prelude.{
  ℕ, zero, suc, ◌+◌, ◌-◌, ◌/◌, ◌%◌, ◌^◌, Bool, true, false, not, Option, none, some, List, [], ◌∷◌,
  ◌++◌, ltb, leb, ◌==◌, if◌then◌else◌, length, take, drop, ◌>>=◌, ◌>>◌, check,
}
use hdiff_patch.Varint.{unpack_uint_with_tag, max_packed_uint_bytes}
use hdiff_patch.MemPatch.{add_data}

-- TStreamCacheClip: `cached` is cacheBuf from cacheBegin to cacheEnd, so that cacheBegin is
-- `cache_end - length cached`.
pub record Clip (H : Type 0) : Type 0 where
  pub stream_pos : ℕ
  pub stream_pos_end : ℕ
  pub src_stream : H
  pub cached : List ℕ
  pub cache_end : ℕ

abbrev pub at_most : (size bound : ℕ) → ℕ
at_most size bound = if ltb bound size then bound else size

-- `for (i=0; i<readLen; ++i) …`: the bytes before the tag.
unfoldable pub find_end : (end_tag : ℕ) → List ℕ → Option (List ℕ)
find_end end_tag [] = none
find_end end_tag (b ∷ bytes) =
    if b == end_tag then some [] else (find_end end_tag bytes >>= λ front. some (b ∷ front))

module _ {H : Type 0} (read : H → (read_from_pos size : ℕ) → Option (List ℕ × H)) where
  -- _TStreamCacheClip_init
  abbrev pub clip_init : (stream : H) (stream_pos stream_pos_end cache_size : ℕ) → Clip H
  clip_init stream stream_pos stream_pos_end cache_size = record {
    stream_pos = stream_pos;
    stream_pos_end = stream_pos_end;
    src_stream = stream;
    cached = [];
    cache_end = cache_size;
  }

  -- `streamPos_end-streamPos`
  abbrev pub left_in_stream : Clip H → ℕ
  left_in_stream c = (c.stream_pos_end + 2 ^ 64 - c.stream_pos) % 2 ^ 64

  -- _TStreamCacheClip_leaveSize
  abbrev pub leave_size : Clip H → ℕ
  leave_size c = (left_in_stream c + length c.cached) % 2 ^ 64

  -- _TStreamCacheClip_isFinish
  abbrev pub is_finish : Clip H → Bool
  is_finish c = leave_size c == 0

  -- _TStreamCacheClip_readPosOfSrcStream
  abbrev pub read_pos_of_src_stream : Clip H → ℕ
  read_pos_of_src_stream c = c.stream_pos - length c.cached

  -- the read of _TStreamCacheClip_updateCache, which fills the cache up
  unfoldable pub fill_cache : Clip H → (read_size : ℕ) → Option (Clip H)
  fill_cache c read_size = do
    (bytes, stream) ← read c.src_stream c.stream_pos read_size
    some (record c {
      cached = c.cached ++ bytes;
      stream_pos = c.stream_pos + read_size;
      src_stream = stream;
    })

  -- _TStreamCacheClip_updateCache
  unfoldable pub update_cache : Clip H → Option (Clip H)
  update_cache c =
      let read_size = at_most (c.cache_end - length c.cached) (left_in_stream c) in
      if read_size == 0 then some c else fill_cache c read_size

  -- _TStreamCacheClip_accessData: the bytes are then at the front of the cache.
  unfoldable pub access_data : Clip H → (read_size : ℕ) → Option (Clip H)
  access_data c read_size =
      if ltb (length c.cached) read_size
      then (update_cache c >>= λ c'. check (not (ltb (length c'.cached) read_size)) >> some c')
      else some c

  -- _TStreamCacheClip_skipData_noCheck
  abbrev pub skip_data_no_check : Clip H → (skip_size : ℕ) → Clip H
  skip_data_no_check c skip_size = record c { cached = drop skip_size c.cached }

  -- _TStreamCacheClip_readData
  unfoldable pub read_data : Clip H → (read_size : ℕ) → Option (List ℕ × Clip H)
  unfolding fill_cache update_cache access_data
  read_data c read_size = do
    c ← access_data c read_size
    some (take read_size c.cached, skip_data_no_check c read_size)

  -- _TStreamCacheClip_skipData: a round skips a byte at least where the cache has room for one, so
  -- `skip_size` rounds are enough.
  unfoldable pub skip_data : (fuel : ℕ) → Clip H → (skip_size : ℕ) → Option (Clip H)
  unfolding fill_cache update_cache access_data
  skip_data fuel c zero = some c
  skip_data zero c (suc skip_size) = none
  skip_data (suc fuel) c (suc skip_size) = do
    let len = at_most c.cache_end (suc skip_size)
    c ← access_data c len
    skip_data fuel (skip_data_no_check c len) (suc skip_size - len)

  -- _TStreamCacheClip_unpackUIntWithTag
  unfoldable pub clip_unpack_uint_with_tag : Clip H → (tag_bit : ℕ) → Option (ℕ × Clip H)
  unfolding fill_cache update_cache access_data
  clip_unpack_uint_with_tag c tag_bit = do
    let read_size = at_most max_packed_uint_bytes (leave_size c)
    c ← access_data c read_size
    (value, rest) ← unpack_uint_with_tag (take read_size c.cached) tag_bit
    some (value, skip_data_no_check c (read_size - length rest))

  -- _TStreamCacheClip_readDataTo. It calls itself once at most: behind the update the cache has all
  -- the bytes.
  unfoldable pub read_data_to : (fuel : ℕ) → Clip H → (out_len : ℕ) → Option (List ℕ × Clip H)
  unfolding fill_cache update_cache
  read_data_to zero c out_len = none
  read_data_to (suc fuel) c out_len =
      let read_len = at_most (length c.cached) out_len in
      let front = take read_len c.cached in
      let c' = skip_data_no_check c read_len in
      let more = out_len - read_len in
      let again = update_cache c' >>= λ c''.
      check (not (ltb (length c''.cached) more))
      >> (read_data_to fuel c'' more >>= λ (bytes, c'''). some (front ++ bytes, c''')) in
      let direct = read c'.src_stream c'.stream_pos more >>= λ (bytes, stream). some (
        front ++ bytes,
        record c' { stream_pos = (c'.stream_pos + more) % 2 ^ 64; src_stream = stream },
      ) in
      if more == 0 then some (front, c') else if ltb more (c.cache_end / 2) then again else direct

  -- _TStreamCacheClip_addDataTo
  unfoldable pub add_data_to : Clip H → (dst : List ℕ) → Option (List ℕ × Clip H)
  add_data_to c dst = do (src, c) ← read_data c (length dst); some (add_data dst src, c)

  -- _TStreamCacheClip_readStr_end: the text before the tag
  unfoldable pub read_str_end : Clip H → (end_tag type_buf_len : ℕ) → Option (List ℕ × Clip H)
  unfolding fill_cache update_cache access_data find_end
  read_str_end c end_tag type_buf_len = do
    let read_len = at_most type_buf_len (leave_size c)
    c ← access_data c read_len
    text ← find_end end_tag (take read_len c.cached)
    some (text, skip_data_no_check c (length text + 1))
