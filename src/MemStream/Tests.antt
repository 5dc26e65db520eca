-- ===== src/MemStream/Tests.antt =====
-- Runs of the streams on memory.
use hdiff_patch.Prelude.{ℕ, ◌≡◌, refl, some, none, List, [], ◌∷◌}
use hdiff_patch.MemStream.{
  StreamClip, stream_clip_init, read_mem_stream, write_mem_stream, read_stream_clip,
  write_stream_clip,
}

abbrev bytes : List ℕ
bytes = 5 ∷ 6 ∷ 7 ∷ 8 ∷ []

abbrev middle : StreamClip (List ℕ)
middle = stream_clip_init bytes 1 3

reads_middle : read_stream_clip read_mem_stream middle 0 2 ≡ some (6 ∷ 7 ∷ [], middle)
unfolding read_stream_clip read_mem_stream
reads_middle = refl

reads_no_further : read_stream_clip read_mem_stream middle 1 2 ≡ none
unfolding read_stream_clip read_mem_stream
reads_no_further = refl

writes_middle :
    write_stream_clip write_mem_stream middle 1 (9 ∷ [])
    ≡ some (record middle { src_stream = 5 ∷ 6 ∷ 9 ∷ 8 ∷ [] })
unfolding write_stream_clip write_mem_stream
writes_middle = refl
