-- ===== src/MemStream.antt =====
-- Streams on memory and on a part of a stream: mem_as_hStreamInput, mem_as_hStreamOutput,
-- TStreamInputClip and TStreamOutputClip of libHDiffPatch/HPatch/patch.c.
pub mod Access
mod Tests
use hdiff_patch.Prelude.{
  ℕ, ◌+◌, ◌-◌, ◌%◌, ◌^◌, Bool, not, Option, none, some, List, ◌++◌, ltb, length, take, drop, ◌>>=◌,
  ◌>>◌, check,
}

-- _read_mem_stream; streamSize is the length of the memory.
unfoldable pub read_mem_stream : (src : List ℕ) (read_from_pos size : ℕ) → Option (List ℕ × List ℕ)
read_mem_stream src read_from_pos size = do
  check (not (ltb (length src) read_from_pos))
  check (not (ltb (length src - read_from_pos) size))
  some (take size (drop read_from_pos src), src)

-- _write_mem_stream: `memcpy(out_dst+writeToPos,data,writeLen)` behind its two checks.
unfoldable pub write_mem_stream :
    (dst : List ℕ) (write_to_pos : ℕ) (bytes : List ℕ) → Option (List ℕ)
write_mem_stream dst write_to_pos bytes = do
  check (not (ltb (length dst) write_to_pos))
  check (not (ltb (length dst - write_to_pos) (length bytes)))
  some (take write_to_pos dst ++ (bytes ++ drop (write_to_pos + length bytes) dst))

-- TStreamInputClip and TStreamOutputClip: the part of a stream from clipBeginPos on.
pub record StreamClip (S : Type 0) : Type 0 where
  pub src_stream : S
  pub clip_begin_pos : ℕ
  pub stream_size : ℕ

-- TStreamInputClip_init and TStreamOutputClip_init
abbrev pub stream_clip_init :
    {S : Type 0} → (src_stream : S) (clip_begin_pos clip_end_pos : ℕ) → StreamClip S
stream_clip_init src_stream clip_begin_pos clip_end_pos = record {
  src_stream = src_stream;
  clip_begin_pos = clip_begin_pos;
  stream_size = clip_end_pos - clip_begin_pos;
}

-- _TStreamInputClip_read
unfoldable pub read_stream_clip :
    {S : Type 0}
    → (read : S → (read_from_pos size : ℕ) → Option (List ℕ × S)) → StreamClip S
    → (read_from_pos size : ℕ) → Option (List ℕ × StreamClip S)
read_stream_clip read s read_from_pos size = do
  check (not (ltb s.stream_size ((read_from_pos + size) % 2 ^ 64)))
  (bytes, src) ← read s.src_stream ((read_from_pos + s.clip_begin_pos) % 2 ^ 64) size
  some (bytes, record s { src_stream = src })

-- _TStreamOutputClip_write
unfoldable pub write_stream_clip :
    {S : Type 0}
    → (write : S → (write_to_pos : ℕ) → (bytes : List ℕ) → Option S) → StreamClip S
    → (write_to_pos : ℕ) → (bytes : List ℕ) → Option (StreamClip S)
write_stream_clip write s write_to_pos bytes = do
  check (not (ltb s.stream_size ((write_to_pos + length bytes) % 2 ^ 64)))
  src ← write s.src_stream ((write_to_pos + s.clip_begin_pos) % 2 ^ 64) bytes
  some (record s { src_stream = src })
