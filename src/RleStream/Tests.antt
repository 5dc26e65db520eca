-- ===== src/RleStream/Tests.antt =====
-- The theorems on the loader, at clips on memory.
use hdiff_patch.Prelude.{ℕ, ◌≡◌, refl, true, false, List, [], ◌∷◌, arith}
use hdiff_patch.Prelude.Related.{Related}
use hdiff_patch.Varint.{unpack_uint_with_tag, unpack_within}
use hdiff_patch.Rle.{byte_rle_type}
use hdiff_patch.MemPatch.{cut}
use hdiff_patch.Clip.{clip_init}
use hdiff_patch.Clip.Reads.{Serves}
use hdiff_patch.RleStream.{Loader, loader_init, decode_add, loader_is_finish}
use hdiff_patch.RleStream.Spec.{Bytes, bytes_left, read_run}
use hdiff_patch.RleStream.Steps.{IsLoader, pending}
use hdiff_patch.RleStream.Decode.{Added, decode_add-cut}
use hdiff_patch.RleStream.Finish.{loader_is_finish-over}
use hdiff_patch.MemStream.{read_mem_stream}
use hdiff_patch.MemStream.Access.{Window, Random-Serves, read_mem_stream-Random}
use hdiff_patch.PatchStream.Heads.{clip_init-IsClip}

-- two copied bytes, three bytes 5
abbrev stream : List ℕ
stream = 0xc1 ∷ 0x82 ∷ 7 ∷ 1 ∷ 5 ∷ []

abbrev OnStream : List ℕ → ℕ → List ℕ → Type 0
OnStream = Window (λ src whole. src ≡ whole) stream

serves_stream : Serves read_mem_stream OnStream
serves_stream =
    Random-Serves read_mem_stream (λ src whole. src ≡ whole) stream read_mem_stream-Random

abbrev loader : Loader (List ℕ)
loader =
    loader_init read_mem_stream (clip_init read_mem_stream stream 0 2 16)
      (clip_init read_mem_stream stream 2 5 16)

abbrev left : Bytes
left = (7 ∷ 1 ∷ 5 ∷ 5 ∷ 5 ∷ [], true)

left_of_loader : bytes_left 2 (pending loader (0xc1 ∷ 0x82 ∷ []) (7 ∷ 1 ∷ 5 ∷ [])) ≡ left
unfolding bytes_left unpack_uint_with_tag read_run unpack_within byte_rle_type
left_of_loader = refl

loader-IsLoader : IsLoader OnStream 16 loader left
loader-IsLoader = record {
  ctrl = 0xc1 ∷ 0x82 ∷ [];
  code = 7 ∷ 1 ∷ 5 ∷ [];
  fuel = 2;
  ctrl_holds =
      clip_init-IsClip read_mem_stream OnStream stream 0 2 16 (0xc1 ∷ 0x82 ∷ [])
        (refl, refl, omega arith) refl (omega arith);
  code_holds =
      clip_init-IsClip read_mem_stream OnStream stream 2 5 16 (7 ∷ 1 ∷ 5 ∷ [])
        (refl, refl, omega arith) refl (omega arith);
  enough = omega arith;
  bytes_are = left_of_loader;
}

decode_add-cut_example :
    Related
      (Added read_mem_stream OnStream serves_stream 16 (250 ∷ 1 ∷ 2 ∷ []) true)
      (decode_add read_mem_stream loader (250 ∷ 1 ∷ 2 ∷ []) 3)
      (cut 3 (7 ∷ 1 ∷ 5 ∷ 5 ∷ 5 ∷ []))
decode_add-cut_example =
    decode_add-cut read_mem_stream OnStream serves_stream 16 loader (250 ∷ 1 ∷ 2 ∷ []) 3
      (7 ∷ 1 ∷ 5 ∷ 5 ∷ 5 ∷ []) true loader-IsLoader (omega arith) (omega arith) (omega arith)

loader_is_finish-over_example : loader_is_finish read_mem_stream loader ≡ false
loader_is_finish-over_example =
    loader_is_finish-over read_mem_stream OnStream serves_stream 16 loader left loader-IsLoader
