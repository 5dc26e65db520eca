-- ===== src/OutCache/SelfCopy.antt =====
-- Copying what was written: _TOutStreamCache_copyFromSelf of libHDiffPatch/HPatch/patch.c.
use hdiff_patch.Prelude.{
  ℕ, zero, suc, ◌+◌, ◌-◌, ◌%◌, ◌^◌, not, Option, none, some, List, ◌++◌, ltb, leb, ◌==◌,
  if◌then◌else◌, length, take, drop, ◌>>=◌, ◌>>◌, check,
}
use hdiff_patch.Clip.{at_most}
use hdiff_patch.OutCache.{OutCache, flush, copy_from_stream}

-- `for (i=0;i<runLen;i++) dstBuf[i]=srcBuf[i];`, where srcBuf is `ahead_length` bytes in front of
-- dstBuf: a byte that is copied may be one that was just written.
unfoldable pub copy_ahead : (run_len ahead_length : ℕ) (cached : List ℕ) → List ℕ
copy_ahead zero ahead_length cached = cached
copy_ahead (suc run_len) ahead_length cached =
    copy_ahead run_len ahead_length (cached ++ take 1 (drop (length cached - ahead_length) cached))

module _ {W : Type 0} (write : W → (write_to_pos : ℕ) → (bytes : List ℕ) → Option W)
    (read : W → (read_from_pos size : ℕ) → Option (List ℕ × W)) where
  -- The flush of a full cache and the memmove behind it, which keeps the bytes that are copied next.
  unfoldable pub flush_kept : (ahead_length copy_length : ℕ) → OutCache W → Option (OutCache W)
  unfolding flush
  flush_kept ahead_length copy_length c = do
    c' ← flush write c
    some (record c' {
      cached = take (at_most ahead_length copy_length) (drop (c.cache_end - ahead_length) c.cached);
    })

  -- `while (copyLength>0)` of __copy_in_mem. A round fills the cache or ends the copy.
  unfoldable pub copy_in_mem :
      (fuel : ℕ) (ahead_length copy_length : ℕ) → OutCache W → Option (OutCache W)
  unfolding flush_kept copy_ahead
  copy_in_mem fuel ahead_length zero c = some c
  copy_in_mem zero ahead_length (suc copy_length) c = none
  copy_in_mem (suc fuel) ahead_length (suc copy_length) c =
      let run_len = at_most (c.cache_end - length c.cached) (suc copy_length) in
      let left = suc copy_length - run_len in
      let c' = record c { cached = copy_ahead run_len ahead_length c.cached } in
      let next = flush_kept ahead_length left c' >>= λ c''.
      copy_in_mem fuel ahead_length (left - at_most ahead_length left) c'' in
      if length c'.cached == c.cache_end then next else some c'

  -- `while (hpatch_TRUE)`: the cache, full of a period of bytes, is written again and again. What is
  -- left in the cache at the end are its first bytes.
  unfoldable pub copy_period :
      (fuel : ℕ) (copy_length : ℕ) (period : List ℕ) → OutCache W → Option (OutCache W)
  unfolding flush
  copy_period zero copy_length period c = none
  copy_period (suc fuel) copy_length period c =
      let run_len = at_most c.cache_end copy_length in
      let go = λ (d : OutCache W).
        copy_period fuel (copy_length - run_len) period
          (record d { cached = take run_len period }) in
      let next = (if length c.cached == c.cache_end then flush write c else some c) >>= λ d.
      if ltb 0 copy_length then go d else some d in
      next

  -- The third branch: the bytes that are written already are read behind those in the cache.
  unfoldable pub copy_small :
      (fuel : ℕ) (ahead_length copy_length src_pos : ℕ) → OutCache W → Option (OutCache W)
  unfolding copy_in_mem copy_period
  copy_small fuel ahead_length copy_length src_pos c = do
    let run_len = c.write_to_pos - src_pos
    (bytes, stream) ← read c.dst_stream src_pos run_len
    let c' = record c { cached = c.cached ++ bytes; dst_stream = stream }
    let period = copy_period fuel (copy_length - run_len) c'.cached c'
    let in_mem = copy_in_mem fuel ahead_length (copy_length - run_len) c'
    (if length c'.cached == c.cache_end then period else in_mem)

  -- _TOutStreamCache_copyFromSelf, where the stream can be read; src_pos is used behind the checks
  -- only, which keep its difference from falling below 0.
  unfoldable pub copy_from_self :
      (fuel : ℕ) → OutCache W → (ahead_length copy_length : ℕ) → Option (OutCache W)
  unfolding copy_from_stream copy_in_mem copy_small
  copy_from_self fuel c ahead_length copy_length = do
    let src_pos = c.write_to_pos + length c.cached - ahead_length
    let from_stream = copy_from_stream write read fuel c src_pos copy_length
    let in_mem = copy_in_mem fuel ahead_length copy_length c
    let small = copy_small fuel ahead_length copy_length src_pos c
    check (not (ltb ahead_length 1))
    check (not (ltb (c.write_to_pos + length c.cached) ahead_length))
    (if leb ((src_pos + copy_length) % 2 ^ 64) c.write_to_pos
        then from_stream
        else if leb c.write_to_pos src_pos
        then in_mem
        else if leb (c.write_to_pos + length c.cached) (src_pos + c.cache_end)
        then small
        else from_stream)
