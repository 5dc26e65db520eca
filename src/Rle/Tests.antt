-- ===== src/Rle/Tests.antt =====
-- Runs of the run-length code, and its theorems at concrete bytes.
use hdiff_patch.Prelude.{◌≡◌, refl, some, none, [], ◌∷◌, List, ℕ, arith, length}
use mathlib.Core.Logic.{◌↔◌}
use hdiff_patch.Rle.{bytes_rle_load}
use hdiff_patch.Rle.Load.{length-bytes_rle_load}
use hdiff_patch.Rle.Relation.{Stands, bytes_rle_load-Stands}
use hdiff_patch.Rle.Runs.{Run, zeros, same, copied, encode, ctrl_of, bytes_rle_load-encode}
use hdiff_patch.Rle.Encoder.{bytes_rle_save}
use hdiff_patch.Rle.Encoder.Restore.{bytes_rle_load-save}
use hdiff_patch.Varint.RoundTrip.{packed}
use hdiff_patch.Varint.{unpack_uint_with_tag}

abbrev plain : List ℕ
plain = 7 ∷ 1 ∷ 0 ∷ 0 ∷ 0 ∷ 0 ∷ 5 ∷ 5 ∷ 5 ∷ 5 ∷ 5 ∷ 9 ∷ []

-- two copied bytes, four zeros, five bytes 5 and one byte 9
abbrev plain_code : List ℕ
plain_code = 4 ∷ 0xc1 ∷ 0x03 ∷ 0x84 ∷ 0x80 ∷ 7 ∷ 1 ∷ 5 ∷ 9 ∷ []

save_plain : bytes_rle_save 1 plain ≡ plain_code
unfolding bytes_rle_save packed
save_plain = refl

load_plain : bytes_rle_load 12 plain_code ≡ some plain
unfolding bytes_rle_load unpack_uint_with_tag
load_plain = refl

load_no_room : bytes_rle_load 11 plain_code ≡ none
unfolding bytes_rle_load unpack_uint_with_tag
load_no_room = refl

bytes_rle_load-save_example : bytes_rle_load (length plain) (bytes_rle_save 1 plain) ≡ some plain
bytes_rle_load-save_example = bytes_rle_load-save 1 plain (omega arith)

length-bytes_rle_load_example : length plain ≡ 12
length-bytes_rle_load_example = length-bytes_rle_load 12 plain_code {out = plain} load_plain

bytes_rle_load-Stands_example :
    (bytes_rle_load 12 plain_code ≡ some plain) ↔ Stands 12 plain_code plain
bytes_rle_load-Stands_example = bytes_rle_load-Stands 12 plain_code plain

abbrev runs : List Run
runs = zeros 2 ∷ copied (8 ∷ 9 ∷ []) ∷ same 4 1 ∷ []

length_ctrl : length (ctrl_of runs) ≡ 3
unfolding packed
length_ctrl = refl

bytes_rle_load-encode_example : bytes_rle_load 5 (encode runs) ≡ some (0 ∷ 0 ∷ 8 ∷ 9 ∷ 4 ∷ [])
bytes_rle_load-encode_example =
    bytes_rle_load-encode runs (omega arith) (omega (arith, length_ctrl))
