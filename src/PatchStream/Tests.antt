-- ===== src/PatchStream/Tests.antt =====
-- The theorems on patching by streams, at streams on memory.
use hdiff_patch.Prelude.{
  ℕ, ◌<◌, ◌^◌, ◌≡◌, refl, true, some, none, List, [], ◌∷◌, arith, length, replicate,
}
use hdiff_patch.Prelude.Related.{Related}
use hdiff_patch.Varint.RoundTrip.{packed}
use hdiff_patch.Rle.Encoder.{bytes_rle_save}
use hdiff_patch.MemPatch.Serialize.{Cover, serialize_diff}
use hdiff_patch.Clip.{clip_init}
use hdiff_patch.Clip.Reads.{Serves}
use hdiff_patch.PatchStream.{Covers, Machine, covers_init, read_cover}
use hdiff_patch.PatchStream.Spec.{Lists, list_cover}
use hdiff_patch.PatchStream.NextCover.{IsCovers, Covered, read_cover-list_cover}
use hdiff_patch.PatchStream.Open.{patch_stream_with_cache}
use hdiff_patch.PatchStream.Heads.{clip_init-IsClip}
use hdiff_patch.PatchStream.RoundTrip.{patch_stream_with_cache-serialize_diff}
use hdiff_patch.MemStream.{read_mem_stream, write_mem_stream}
use hdiff_patch.MemStream.Access.{
  Window, Filled, Random-Serves, read_mem_stream-Random, write_mem_stream-Accepts,
}

abbrev Is : List ℕ → List ℕ → Type 0
Is src whole = src ≡ whole

abbrev old_data : List ℕ
old_data = 9 ∷ 200 ∷ 3 ∷ 8 ∷ []

abbrev new_data : List ℕ
new_data = 1 ∷ 200 ∷ 3 ∷ 9 ∷ 5 ∷ 9 ∷ 100 ∷ []

abbrev covers : List Cover
covers =
    record { old_pos = 1; new_pos = 1; len = 3 } ∷ record { old_pos = 0; new_pos = 5; len = 2 } ∷ []

abbrev diff : List ℕ
diff = serialize_diff new_data old_data covers

diff_size : length diff < 2 ^ 64
unfolding serialize_diff packed bytes_rle_save
diff_size = omega arith

patch_stream_with_cache-serialize_diff_example :
    (m : Machine (List ℕ) (List ℕ) (List ℕ)) × (patch_stream_with_cache read_mem_stream
        (length diff)
        write_mem_stream
        read_mem_stream
        200
        7
        4
        (replicate 7 0)
        old_data
        diff
        none
        64
        1088
      ≡ some m)
    × Filled 7 m.out_cache.dst_stream new_data
patch_stream_with_cache-serialize_diff_example =
    patch_stream_with_cache-serialize_diff read_mem_stream Is read_mem_stream-Random
      write_mem_stream (Filled 7) read_mem_stream Is read_mem_stream-Random new_data old_data covers
      200 (replicate 7 0) old_data diff 64 1088 (write_mem_stream-Accepts 7) refl refl (refl, refl)
      (omega arith) (omega arith) (omega arith) (omega arith) (omega arith) (omega arith) diff_size
      (omega arith)

-- One cover, as its three streams stand one behind the other.
abbrev codes : List ℕ
codes = 3 ∷ 1 ∷ 0x81 ∷ []

abbrev OnCodes : List ℕ → ℕ → List ℕ → Type 0
OnCodes = Window Is codes

serves_codes : Serves read_mem_stream OnCodes
serves_codes = Random-Serves read_mem_stream Is codes read_mem_stream-Random

abbrev one_cover : Covers (List ℕ)
one_cover =
    record (covers_init read_mem_stream 1 (clip_init read_mem_stream codes 2 3 16)
      (clip_init read_mem_stream codes 1 2 16) (clip_init read_mem_stream codes 0 1 16) true) {
        old_pos_back = 9;
        new_pos_back = 4;
      }

abbrev one_lists : Lists
one_lists = record {
  lengths = 3 ∷ [];
  inc_new = 1 ∷ [];
  inc_old = 0x81 ∷ [];
  news = [];
  deltas = [];
  ends = true;
  old_pos_back = 9;
  new_pos_back = 4;
}

one_cover-IsCovers : IsCovers read_mem_stream OnCodes serves_codes 16 true 1 one_cover one_lists
one_cover-IsCovers = record {
  count_is = refl;
  old_pos_is = refl;
  new_pos_is = refl;
  adds_is = refl;
  old_has =
      clip_init-IsClip read_mem_stream OnCodes codes 2 3 16 (0x81 ∷ []) (refl, refl, omega arith)
        refl (omega arith);
  new_has =
      clip_init-IsClip read_mem_stream OnCodes codes 1 2 16 (1 ∷ []) (refl, refl, omega arith) refl
        (omega arith);
  lengths_has =
      clip_init-IsClip read_mem_stream OnCodes codes 0 1 16 (3 ∷ []) (refl, refl, omega arith) refl
        (omega arith);
}

read_cover-list_cover_example :
    Related
      (Covered read_mem_stream OnCodes serves_codes 16 true 0)
      (read_cover read_mem_stream one_cover)
      (list_cover one_lists)
read_cover-list_cover_example =
    read_cover-list_cover read_mem_stream OnCodes serves_codes 16 true 0 one_cover one_lists
      one_cover-IsCovers (omega arith)
