-- ===== src/OutCache.antt =====
-- Writing a stream through a cache: _TOutStreamCache of libHDiffPatch/HPatch/patch.c and
-- libHDiffPatch/HPatch/patch_private.h.
-- `W` is the state of what the streams stand on, so that a stream that is read may be the one that
-- is written; `write` is hpatch_TStreamOutput.write, and `none` is hpatch_FALSE.
pub mod Writes
pub mod Copies
pub mod FromStream
pub mod SelfCopy
mod Tests
use hdiff_patch.Prelude.{
  ℕ, zero, suc, ◌+◌, ◌-◌, ◌^◌, ◌%◌, Bool, true, false, not, ◌&&◌, Option, none, some, List, [], ◌∷◌,
  ◌++◌, ltb, leb, ◌==◌, if◌then◌else◌, length, take, drop, replicate, ◌>>=◌, ◌>>◌, check,
}
use hdiff_patch.Clip.{Clip, at_most, read_data}

-- _TOutStreamCache: `cached` is cacheBuf up to cacheCur, and `has_cache_buf` that cacheBuf is not 0.
pub record OutCache (W : Type 0) : Type 0 where
  pub write_to_pos : ℕ
  pub dst_stream : W
  pub cached : List ℕ
  pub has_cache_buf : Bool
  pub cache_end : ℕ

module _ {W : Type 0} (write : W → (write_to_pos : ℕ) → (data_ : List ℕ) → Option W) where
  -- _TOutStreamCache_init
  abbrev pub out_init : (dst_stream : W) (has_cache_buf : Bool) (cache_size : ℕ) → OutCache W
  out_init dst_stream has_cache_buf cache_size = record {
    write_to_pos = 0;
    dst_stream = dst_stream;
    cached = [];
    has_cache_buf = has_cache_buf;
    cache_end = cache_size;
  }

  -- _TOutStreamCache_leaveSize; `stream_size` is dstStream->streamSize.
  abbrev pub out_leave_size : (stream_size : ℕ) → OutCache W → ℕ
  out_leave_size stream_size c = (stream_size + 2 ^ 64 - c.write_to_pos) % 2 ^ 64

  -- _TOutStreamCache_isFinish
  abbrev pub out_is_finish : (stream_size : ℕ) → OutCache W → Bool
  out_is_finish stream_size c = c.write_to_pos == stream_size

  -- __TOutStreamCache_writeStream
  unfoldable pub write_stream : OutCache W → List ℕ → Option (OutCache W)
  write_stream c bytes = do
    stream ← write c.dst_stream c.write_to_pos bytes
    some (record c { write_to_pos = (c.write_to_pos + length bytes) % 2 ^ 64; dst_stream = stream })

  -- _TOutStreamCache_flush
  unfoldable pub flush : OutCache W → Option (OutCache W)
  unfolding write_stream
  flush c =
      if ltb 0 (length c.cached)
      then (write_stream c c.cached >>= λ c'. some (record c' { cached = [] }))
      else some c

  -- Behind a copy into the cache: `if (self->cacheCur==self->cacheEnd) …flush…`
  unfoldable pub flush_full : OutCache W → Option (OutCache W)
  unfolding flush
  flush_full c = if length c.cached == c.cache_end then flush c else some c

  -- `bytes` behind the cached ones, and the flush that follows.
  abbrev pub put : OutCache W → List ℕ → Option (OutCache W)
  put c bytes = flush_full (record c { cached = c.cached ++ bytes })

  -- The room of the cache, at most what is left to write.
  abbrev pub run_step : OutCache W → (left : ℕ) → ℕ
  run_step c left = at_most (c.cache_end - length c.cached) left

  -- _TOutStreamCache_write. A round writes a byte at least where the cache has room for one.
  unfoldable pub out_write : (fuel : ℕ) → OutCache W → (bytes : List ℕ) → Option (OutCache W)
  unfolding write_stream flush_full
  out_write fuel c [] = some c
  out_write zero c (b ∷ bytes) = none
  out_write (suc fuel) c (b ∷ bytes) =
      let copy_len = run_step c (length (b ∷ bytes)) in
      let cached_first =
        put c (take copy_len (b ∷ bytes)) >>= λ c'. out_write fuel c' (drop copy_len (b ∷ bytes)) in
      if leb c.cache_end (length (b ∷ bytes)) && (length c.cached == 0)
      then write_stream c (b ∷ bytes)
      else cached_first

  -- The loop of _TOutStreamCache_fill.
  unfoldable pub fill_loop :
      (fuel : ℕ) → OutCache W → (fill_value fill_length : ℕ) → Option (OutCache W)
  unfolding flush_full
  fill_loop fuel c fill_value zero = some c
  fill_loop zero c fill_value (suc fill_length) = none
  fill_loop (suc fuel) c fill_value (suc fill_length) = do
    let run = run_step c (suc fill_length)
    c ← put c (replicate run fill_value)
    fill_loop fuel c fill_value (suc fill_length - run)

  -- _TOutStreamCache_fill
  unfoldable pub fill : (fuel : ℕ) → OutCache W → (fill_value fill_length : ℕ) → Option (OutCache W)
  unfolding fill_loop
  fill fuel c fill_value fill_length = do
    check c.has_cache_buf
    fill_loop fuel c fill_value fill_length

  -- The loop of _TOutStreamCache_copyFromStream; `read` is that of `src`.
  unfoldable pub copy_stream_loop :
      (read : W → (read_from_pos size : ℕ) → Option (List ℕ × W)) (fuel : ℕ)
      → OutCache W
      → (src_pos copy_length : ℕ) → Option (OutCache W)
  unfolding flush_full
  copy_stream_loop read fuel c src_pos zero = some c
  copy_stream_loop read zero c src_pos (suc copy_length) = none
  copy_stream_loop read (suc fuel) c src_pos (suc copy_length) = do
    let run = run_step c (suc copy_length)
    (bytes, stream) ← read c.dst_stream src_pos run
    c ← put (record c { dst_stream = stream }) bytes
    copy_stream_loop read fuel c ((src_pos + run) % 2 ^ 64) (suc copy_length - run)

  -- _TOutStreamCache_copyFromStream
  unfoldable pub copy_from_stream :
      (read : W → (read_from_pos size : ℕ) → Option (List ℕ × W)) (fuel : ℕ)
      → OutCache W
      → (src_pos copy_length : ℕ) → Option (OutCache W)
  unfolding copy_stream_loop
  copy_from_stream read fuel c src_pos copy_length = do
    check c.has_cache_buf
    copy_stream_loop read fuel c src_pos copy_length

  -- _TOutStreamCache_copyFromClip
  unfoldable pub copy_from_clip :
      {H : Type 0}
      → (read : H → (read_from_pos size : ℕ) → Option (List ℕ × H)) (fuel : ℕ) → OutCache W
      → Clip H
      → (copy_length : ℕ) → Option (OutCache W × Clip H)
  unfolding read_data out_write
  copy_from_clip read fuel c src zero = some (c, src)
  copy_from_clip read zero c src (suc copy_length) = none
  copy_from_clip read (suc fuel) c src (suc copy_length) = do
    let run = at_most src.cache_end (suc copy_length)
    (bytes, src) ← read_data read src run
    c ← out_write (length bytes) c bytes
    copy_from_clip read fuel c src (suc copy_length - run)
