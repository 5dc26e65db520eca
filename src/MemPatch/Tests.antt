-- ===== src/MemPatch/Tests.antt =====
-- Runs of patch, and its theorems at concrete data.
use hdiff_patch.Prelude.{◌≡◌, refl, some, none, [], ◌∷◌, List, ℕ, arith, length}
use hdiff_patch.MemPatch.{patch}
use hdiff_patch.MemPatch.Serialize.{Cover, serialize_diff}
use hdiff_patch.MemPatch.Restore.{patch-serialize_diff}
use hdiff_patch.Varint.{unpack_uint_with_tag}
use hdiff_patch.Rle.{bytes_rle_load}
use hdiff_patch.Rle.Encoder.{bytes_rle_save}
use hdiff_patch.Varint.RoundTrip.{packed}

abbrev old_data : List ℕ
old_data = 9 ∷ 200 ∷ 3 ∷ 8 ∷ []

abbrev new_data : List ℕ
new_data = 1 ∷ 200 ∷ 3 ∷ 9 ∷ 5 ∷ 9 ∷ 100 ∷ []

abbrev covers : List Cover
covers =
    record { old_pos = 1; new_pos = 1; len = 3 } ∷ record { old_pos = 0; new_pos = 5; len = 2 } ∷ []

diff_size : length (serialize_diff new_data old_data covers) ≡ 20
unfolding serialize_diff packed bytes_rle_save
diff_size = refl

patch_no_room : patch 6 old_data (serialize_diff new_data old_data covers) ≡ none
unfolding patch serialize_diff packed unpack_uint_with_tag bytes_rle_load bytes_rle_save
patch_no_room = refl

patch-serialize_diff_example :
    patch (length new_data) old_data (serialize_diff new_data old_data covers) ≡ some new_data
patch-serialize_diff_example =
    patch-serialize_diff new_data old_data covers (omega arith) (omega arith) (omega arith)
      (omega arith) (omega arith) (omega arith)
