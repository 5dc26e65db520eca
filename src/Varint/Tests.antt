-- ===== src/Varint/Tests.antt =====
-- Runs of the number code of patch.c, and its theorems at concrete numbers.
use hdiff_patch.Prelude.{
  ◌^◌, ◌≤◌, ◌≡◌, refl, some, none, [], ◌∷◌, ◌++◌, arith, length, ltb, if◌then◌else◌,
}
use hdiff_patch.Varint.{
  max_packed_uint_bytes, pack_uint_with_tag, pack_uint_with_tag_size, unpack_uint_with_tag,
}
use hdiff_patch.Varint.RoundTrip.{packed, unpack-pack}
use hdiff_patch.Varint.Exact.{read_exact, within_64, unpack-read_exact}
use hdiff_patch.Varint.Decode.{unpack-append, pack_fails, length-packed}

pack_300 : pack_uint_with_tag 11 300 0 0 ≡ some (0x82 ∷ 0x2c ∷ [])
unfolding pack_uint_with_tag
pack_300 = refl

pack_300_tag : pack_uint_with_tag 11 300 2 2 ≡ some (0xa2 ∷ 0x2c ∷ [])
unfolding pack_uint_with_tag
pack_300_tag = refl

pack_no_room : pack_uint_with_tag 1 300 0 0 ≡ none
unfolding pack_uint_with_tag
pack_no_room = refl

unpack_300 : unpack_uint_with_tag (0x82 ∷ 0x2c ∷ 7 ∷ []) 0 ≡ some (300, 7 ∷ [])
unfolding unpack_uint_with_tag
unpack_300 = refl

unpack_cut_off : unpack_uint_with_tag (0x82 ∷ 0xac ∷ []) 0 ≡ none
unfolding unpack_uint_with_tag
unpack_cut_off = refl

unpack-pack_example : unpack_uint_with_tag (0xa2 ∷ 0x2c ∷ 7 ∷ []) 2 ≡ some (300, 7 ∷ [])
unpack-pack_example =
    unpack-pack 11 300 2 2 (7 ∷ []) {code = 0xa2 ∷ 0x2c ∷ []} (omega arith) (omega arith)
      (omega arith) pack_300_tag

unpack-read_exact_example :
    unpack_uint_with_tag (0x82 ∷ 0x2c ∷ 7 ∷ []) 0 ≡ within_64 (read_exact (0x82 ∷ 0x2c ∷ 7 ∷ []) 0)
unpack-read_exact_example = unpack-read_exact (0x82 ∷ 0x2c ∷ 7 ∷ []) 0

-- Ten digits stand for 2 ^ 64.
exact_too_large :
    read_exact (0x82 ∷ 0x80 ∷ 0x80 ∷ 0x80 ∷ 0x80 ∷ 0x80 ∷ 0x80 ∷ 0x80 ∷ 0x80 ∷ 0 ∷ []) 0
    ≡ some (2 ^ 64, [])
unfolding read_exact
exact_too_large = refl

unpack_too_large :
    unpack_uint_with_tag (0x82 ∷ 0x80 ∷ 0x80 ∷ 0x80 ∷ 0x80 ∷ 0x80 ∷ 0x80 ∷ 0x80 ∷ 0x80 ∷ 0 ∷ []) 0
    ≡ none
unfolding unpack_uint_with_tag
unpack_too_large = refl

unpack-append_example :
    unpack_uint_with_tag ((0x82 ∷ 0x2c ∷ 7 ∷ []) ++ 8 ∷ []) 0 ≡ some (300, 7 ∷ 8 ∷ [])
unpack-append_example = unpack-append (0x82 ∷ 0x2c ∷ 7 ∷ []) (8 ∷ []) 0 300 (7 ∷ []) unpack_300

pack_fails_example :
    pack_uint_with_tag 1 300 0 0
    ≡ (if ltb 1 (pack_uint_with_tag_size 300 0) then none else some (packed 300 0 0))
pack_fails_example = pack_fails 1 300 0 0

length-packed_example : length (packed 300 0 0) ≤ max_packed_uint_bytes
length-packed_example = length-packed 300 0 0 (omega arith)
