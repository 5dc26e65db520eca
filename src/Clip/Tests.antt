-- ===== src/Clip/Tests.antt =====
-- The theorems on clips, at a clip on memory.
use hdiff_patch.Prelude.{ℕ, ◌≡◌, refl, some, List, [], ◌∷◌, arith, length, min}
use hdiff_patch.Prelude.Related.{Related}
use hdiff_patch.Varint.{unpack_within, unpack_uint_with_tag}
use hdiff_patch.MemPatch.{cut, add_data}
use hdiff_patch.Clip.{
  Clip, clip_init, update_cache, read_data, skip_data, clip_unpack_uint_with_tag, read_data_to,
  read_str_end, add_data_to,
}
use hdiff_patch.Clip.Reads.{
  Serves, IsClip, SameBytes, update_cache-IsClip, read_data-cut, clip_unpack-unpack_within,
}
use hdiff_patch.Clip.Skips.{Skipped, skip_data-cut}
use hdiff_patch.MemStream.{read_mem_stream}
use hdiff_patch.MemStream.Access.{Window, Random-Serves, read_mem_stream-Random}
use hdiff_patch.PatchStream.Heads.{clip_init-IsClip}

abbrev bytes : List ℕ
bytes = 0x81 ∷ 0x05 ∷ 7 ∷ 8 ∷ 9 ∷ []

abbrev OnBytes : List ℕ → ℕ → List ℕ → Type 0
OnBytes = Window (λ src whole. src ≡ whole) bytes

serves_bytes : Serves read_mem_stream OnBytes
serves_bytes = Random-Serves read_mem_stream (λ src whole. src ≡ whole) bytes read_mem_stream-Random

abbrev clip : Clip (List ℕ)
clip = clip_init read_mem_stream bytes 0 5 16

clip-IsClip : IsClip OnBytes 16 clip bytes
clip-IsClip =
    clip_init-IsClip read_mem_stream OnBytes bytes 0 5 16 bytes (refl, refl, omega arith) refl
      (omega arith)

abbrev small_clip : Clip (List ℕ)
small_clip = clip_init read_mem_stream bytes 0 5 2

small_clip-IsClip : IsClip OnBytes 2 small_clip bytes
small_clip-IsClip =
    clip_init-IsClip read_mem_stream OnBytes bytes 0 5 2 bytes (refl, refl, omega arith) refl
      (omega arith)

abbrev behind_number : Clip (List ℕ)
behind_number = record {
  stream_pos = 5;
  stream_pos_end = 5;
  src_stream = bytes;
  cached = 7 ∷ 8 ∷ 9 ∷ [];
  cache_end = 16;
}

unpacks : clip_unpack_uint_with_tag read_mem_stream clip 0 ≡ some (133, behind_number)
unfolding clip_unpack_uint_with_tag unpack_uint_with_tag read_mem_stream
unpacks = refl

update_cache-IsClip_example :
    (c' : Clip (List ℕ)) × (update_cache read_mem_stream clip ≡ some c')
    × IsClip OnBytes 16 c' bytes
    × (length c'.cached ≡ min 16 5)
update_cache-IsClip_example = update_cache-IsClip read_mem_stream OnBytes serves_bytes clip-IsClip

read_data-cut_example :
    Related
      (SameBytes read_mem_stream OnBytes serves_bytes 16)
      (read_data read_mem_stream clip 3)
      (cut 3 bytes)
read_data-cut_example =
    read_data-cut read_mem_stream OnBytes serves_bytes 3 clip-IsClip (omega arith)

clip_unpack-unpack_within_example :
    Related
      (SameBytes read_mem_stream OnBytes serves_bytes 16)
      (clip_unpack_uint_with_tag read_mem_stream clip 0)
      (unpack_within 11 bytes 0)
clip_unpack-unpack_within_example =
    clip_unpack-unpack_within read_mem_stream OnBytes serves_bytes 0 clip-IsClip (omega arith)

skip_data-cut_example :
    Related
      (Skipped read_mem_stream OnBytes serves_bytes 2)
      (skip_data read_mem_stream 5 small_clip 5)
      (cut 5 bytes)
skip_data-cut_example =
    skip_data-cut read_mem_stream OnBytes serves_bytes 5 5 small_clip-IsClip (omega arith)
      (omega arith)

-- A part is copied from the cache, and the rest is read past it.
reads_to :
    (read_data_to read_mem_stream 2 behind_number 2)
    ≡ some (7 ∷ 8 ∷ [], record behind_number { cached = 9 ∷ [] })
unfolding read_data_to
reads_to = refl

-- Where the cache is empty and small, bytes behind the end of the clip are read too.
past_the_end :
    (c : Clip (List ℕ)) × (read_data_to read_mem_stream 2 (clip_init read_mem_stream bytes 0 1 2) 3
      ≡ some (0x81 ∷ 5 ∷ 7 ∷ [], c))
unfolding read_data_to read_mem_stream
past_the_end = (
  record { stream_pos = 3; stream_pos_end = 1; src_stream = bytes; cached = []; cache_end = 2 },
  refl,
)

reads_text :
    read_str_end read_mem_stream clip 8 5
    ≡ some (0x81 ∷ 5 ∷ 7 ∷ [], record behind_number { cached = 9 ∷ [] })
unfolding read_str_end read_mem_stream
reads_text = refl

adds :
    add_data_to read_mem_stream behind_number (255 ∷ 1 ∷ [])
    ≡ some (6 ∷ 9 ∷ [], record behind_number { cached = 9 ∷ [] })
unfolding add_data_to read_data add_data
adds = refl
