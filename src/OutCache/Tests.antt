-- ===== src/OutCache/Tests.antt =====
-- The theorems on the output cache, with memory behind it.
use hdiff_patch.Prelude.{
  ℕ, ◌≡◌, refl, true, Option, some, ◌>>=◌, bind_some, List, [], ◌∷◌, arith, replicate,
}
use hdiff_patch.Prelude.Related.{Related}
use hdiff_patch.MemPatch.{cut}
use hdiff_patch.Clip.{Clip, clip_init}
use hdiff_patch.Clip.Reads.{Serves, IsClip}
use hdiff_patch.OutCache.{OutCache, out_init, out_write, fill, copy_from_clip, copy_from_stream}
use hdiff_patch.OutCache.SelfCopy.{copy_from_self}
use hdiff_patch.OutCache.Writes.{IsOut, out_write-IsOut, fill-IsOut}
use hdiff_patch.OutCache.FromStream.{Supplies, copy_from_stream-IsOut}
use hdiff_patch.OutCache.Copies.{Copied, copy_from_clip-cut}
use hdiff_patch.MemStream.{read_mem_stream, write_mem_stream}
use hdiff_patch.MemStream.Access.{
  Window, Filled, Random-Serves, read_mem_stream-Random, write_mem_stream-Accepts,
}
use hdiff_patch.PatchStream.Heads.{clip_init-IsClip}

abbrev memory : List ℕ
memory = replicate 10 0

-- a cache of three bytes
abbrev start : OutCache (List ℕ)
start = out_init write_mem_stream memory true 3

start-IsOut : IsOut (Filled 10) 3 start []
start-IsOut = record {
  done = [];
  written = (refl, refl);
  pos = refl;
  whole = refl;
  not_full = omega arith;
  cache_size = refl;
  has_buf = refl;
}

abbrev behind_five : OutCache (List ℕ)
behind_five = record {
  write_to_pos = 3;
  dst_stream = 1 ∷ 2 ∷ 3 ∷ replicate 7 0;
  cached = 4 ∷ 5 ∷ [];
  has_cache_buf = true;
  cache_end = 3;
}

writes :
    out_write write_mem_stream 5 (record start { cached = 1 ∷ [] }) (2 ∷ 3 ∷ 4 ∷ 5 ∷ [])
    ≡ some behind_five
unfolding out_write write_mem_stream
writes = refl

-- The stream is read that is written.
copies_written :
    copy_from_stream write_mem_stream read_mem_stream 2 behind_five 1 2
    ≡ some (record {
      write_to_pos = 6;
      dst_stream = 1 ∷ 2 ∷ 3 ∷ 4 ∷ 5 ∷ 2 ∷ 0 ∷ 0 ∷ 0 ∷ 0 ∷ [];
      cached = 3 ∷ [];
      has_cache_buf = true;
      cache_end = 3;
    })
unfolding copy_from_stream read_mem_stream write_mem_stream
copies_written = refl

-- Two bytes that are repeated, over two flushes of the cache.
repeats_in_mem :
    copy_from_self write_mem_stream read_mem_stream 9 behind_five 2 5
    ≡ some (record {
      write_to_pos = 9;
      dst_stream = 1 ∷ 2 ∷ 3 ∷ 4 ∷ 5 ∷ 4 ∷ 5 ∷ 4 ∷ 5 ∷ 0 ∷ [];
      cached = 4 ∷ [];
      has_cache_buf = true;
      cache_end = 3;
    })
unfolding copy_from_self write_mem_stream
repeats_in_mem = refl

out_write-IsOut_example :
    (c' : OutCache (List ℕ)) × (out_write write_mem_stream 5 start (1 ∷ 2 ∷ 3 ∷ 4 ∷ 5 ∷ [])
      ≡ some c')
    × IsOut (Filled 10) 3 c' (1 ∷ 2 ∷ 3 ∷ 4 ∷ 5 ∷ [])
out_write-IsOut_example =
    out_write-IsOut write_mem_stream (Filled 10) 10 (write_mem_stream-Accepts 10) (omega arith) 5
      (1 ∷ 2 ∷ 3 ∷ 4 ∷ 5 ∷ []) start-IsOut (omega arith) (omega arith)

fill-IsOut_example :
    (c' : OutCache (List ℕ)) × (fill write_mem_stream 7 start 255 7 ≡ some c')
    × IsOut (Filled 10) 3 c' (replicate 7 255)
fill-IsOut_example =
    fill-IsOut write_mem_stream (Filled 10) 10 (write_mem_stream-Accepts 10) (omega arith) 7 255 7
      start-IsOut (omega arith) (omega arith)

abbrev source : List ℕ
source = 21 ∷ 22 ∷ 23 ∷ 24 ∷ 25 ∷ 26 ∷ []

-- Another stream than the one that is written.
abbrev read_source : List ℕ → (read_from_pos size : ℕ) → Option (List ℕ × List ℕ)
read_source dst read_from_pos size =
    read_mem_stream source read_from_pos size >>= λ (bytes, src). some (bytes, dst)

read_source-Supplies : Supplies read_source (Filled 10) source
read_source-Supplies dst done pos n written inside =
    let (src, e, same) = read_mem_stream-Random source source pos n refl inside in
    (dst, bind_some _ _ e refl, written)

copy_from_stream-IsOut_example :
    (c' : OutCache (List ℕ)) × (copy_from_stream write_mem_stream read_source 5 start 1 5 ≡ some c')
    × IsOut (Filled 10) 3 c' (22 ∷ 23 ∷ 24 ∷ 25 ∷ 26 ∷ [])
copy_from_stream-IsOut_example =
    copy_from_stream-IsOut write_mem_stream (Filled 10) 10 (write_mem_stream-Accepts 10)
      (omega arith) read_source source read_source-Supplies (omega arith) 5 1 5 start-IsOut
      (omega arith) (omega arith) (omega arith)

abbrev bytes : List ℕ
bytes = 6 ∷ 7 ∷ 8 ∷ 9 ∷ []

abbrev OnBytes : List ℕ → ℕ → List ℕ → Type 0
OnBytes = Window (λ src whole. src ≡ whole) bytes

serves_bytes : Serves read_mem_stream OnBytes
serves_bytes = Random-Serves read_mem_stream (λ src whole. src ≡ whole) bytes read_mem_stream-Random

abbrev clip : Clip (List ℕ)
clip = clip_init read_mem_stream bytes 0 4 2

clip-IsClip : IsClip OnBytes 2 clip bytes
clip-IsClip =
    clip_init-IsClip read_mem_stream OnBytes bytes 0 4 2 bytes (refl, refl, omega arith) refl
      (omega arith)

copy_from_clip-cut_example :
    Related
      (Copied write_mem_stream
        (Filled 10)
        10
        (write_mem_stream-Accepts 10)
        (omega arith)
        read_mem_stream
        OnBytes
        serves_bytes
        3
        2
        [])
      (copy_from_clip write_mem_stream read_mem_stream 4 start clip 4)
      (cut 4 bytes)
copy_from_clip-cut_example =
    copy_from_clip-cut write_mem_stream (Filled 10) 10 (write_mem_stream-Accepts 10) (omega arith)
      read_mem_stream OnBytes serves_bytes 4 4 start-IsOut clip-IsClip (omega arith) (omega arith)
      (omega arith)
