-- ===== src/Varint/RoundTrip.antt =====
-- hpatch_unpackUIntWithTag reads back what hpatch_packUIntWithTag wrote.
use hdiff_patch.Prelude.{
  dec_lt, ℕ, suc, ◌+◌, ◌-◌, ◌*◌, ◌/◌, ◌^◌, ◌≤◌, ◌<◌, ◌≡◌, refl, ap, ◌∙◌, List, [], ◌∷◌, ◌++◌, arith,
  length, All, none, some, ltb, if◌then◌else◌,
}
use hdiff_patch.Prelude.Bits.{bit_and-mask, bit_and-bit, bit_or-shl, bit_or_shl}
use hdiff_patch.Prelude.Wf.{lt_wf}
use hdiff_patch.Varint.{
  IsU64, max_value_with_tag, pack_groups, has_more, emit_groups, first_byte, pack_uint_with_tag,
  unpack_loop, unpack_uint_with_tag,
}
use hdiff_patch.Varint.Head.{first_byte_lem, head_fields, has_more-lt}
use native.Mathlib.Nat.{one-le-pow}
use hdiff_patch.Varint.Groups.{spell, IsGroup, le-spell, pack_groups_lem}

-- The loop of the reader on the bytes of a stack of groups.
unpack_loop-emit_groups :
    (v c : ℕ) (cs rest : List ℕ)
    → All IsGroup (c ∷ cs)
    → IsU64 (spell v (c ∷ cs))
    → unpack_loop (emit_groups (c ∷ cs) ++ rest) v ≡ some (spell v (c ∷ cs), rest)
unfolding unpack_loop emit_groups
unpack_loop-emit_groups v c [] rest (hc, hcs) fits =
    ground (arith, bit_or_shl 7 0 c, bit_and-mask 7 c, bit_and-bit 7 c, bit_or-shl 7 v c)
unpack_loop-emit_groups v c (d ∷ cs) rest (hc, hcs) fits = ground (
  arith,
  bit_or_shl 7 1 c,
  bit_and-mask 7 (c + 128),
  bit_and-bit 7 (c + 128),
  bit_or-shl 7 v c,
  le-spell (v * 128 + c) (d ∷ cs),
  unpack_loop-emit_groups (v * 128 + c) d cs rest hcs fits,
)

-- The bytes that the packer writes where they fit.
unfoldable pub packed : (value high_tag tag_bit : ℕ) → List ℕ
unfolding pack_groups emit_groups lt_wf dec_lt
packed value high_tag tag_bit =
    let (v, buf) = pack_groups (max_value_with_tag tag_bit) value (lt_wf.apply value) [] in
    first_byte v high_tag tag_bit buf ∷ emit_groups buf

pub length-emit_groups : (cs : List ℕ) → length (emit_groups cs) ≡ length cs
unfolding emit_groups
length-emit_groups [] = refl
length-emit_groups (c ∷ cs) = ap suc (length-emit_groups cs)

-- The packer writes these bytes exactly when the room is enough.
pub pack_uint_with_tag_lem :
    (room value high_tag tag_bit : ℕ)
    → pack_uint_with_tag room value high_tag tag_bit ≡ (
        if ltb room (length (packed value high_tag tag_bit))
        then none
        else some (packed value high_tag tag_bit))
unfolding pack_uint_with_tag packed
pack_uint_with_tag_lem room value high_tag tag_bit =
    let (v, buf) = pack_groups (max_value_with_tag tag_bit) value (lt_wf.apply value) [] in
    rw (length-emit_groups buf) (ground arith)

-- What is read behind the first byte.
unpack_head :
    (v high_tag tag_bit : ℕ) (buf rest : List ℕ)
    → tag_bit ≤ 7
    → v < 2 ^ (7 - tag_bit)
    → high_tag < 2 ^ tag_bit
    → All IsGroup buf
    → IsU64 (spell v buf)
    → unpack_uint_with_tag (first_byte v high_tag tag_bit buf ∷ (emit_groups buf ++ rest)) tag_bit
      ≡ some (spell v buf, rest)
unfolding unpack_uint_with_tag
unpack_head v high_tag tag_bit [] rest ht hv hh g fits =
    let (low, flag, _) = head_fields (7 - tag_bit) high_tag 0 v (omega arith) hv in
    rw (first_byte_lem tag_bit v high_tag [] ht hv hh)
      (rw (low, flag) (unfold emit_groups in ground arith))
unpack_head v high_tag tag_bit (c ∷ cs) rest ht hv hh g fits =
    let (low, flag, _) = head_fields (7 - tag_bit) high_tag 1 v (omega arith) hv in
    rw (first_byte_lem tag_bit v high_tag (c ∷ cs) ht hv hh) (
      rw (low, flag)
        (ground (arith, one-le-pow (7 - tag_bit) 2, unpack_loop-emit_groups v c cs rest g fits)))

-- The reader on what the packer writes, with any bytes behind it.
pub unpack-packed :
    (value high_tag tag_bit : ℕ) (rest : List ℕ)
    → IsU64 value
    → tag_bit ≤ 7
    → high_tag < 2 ^ tag_bit
    → unpack_uint_with_tag (packed value high_tag tag_bit ++ rest) tag_bit ≡ some (value, rest)
unfolding packed
unpack-packed value high_tag tag_bit rest hv ht hh =
    let (v, buf) = pack_groups (max_value_with_tag tag_bit) value (lt_wf.apply value) [] in
    let (le, eq, g) =
      pack_groups_lem (max_value_with_tag tag_bit) value (lt_wf.apply value) [] tt in
    unpack_head v high_tag tag_bit buf rest ht (omega (arith, one-le-pow (7 - tag_bit) 2)) hh g
      (rw eq hv)
    ∙ ap (λ t. some (t, rest)) eq

-- The tag stands in the top bits of the first byte.
pub packed_tag :
    (value high_tag tag_bit : ℕ)
    → tag_bit ≤ 7
    → high_tag < 2 ^ tag_bit
    → (code : ℕ) × (cs : List ℕ) × (packed value high_tag tag_bit ≡ code ∷ cs)
      × (code / 2 ^ (8 - tag_bit) ≡ high_tag)
unfolding packed
packed_tag value high_tag tag_bit ht hh =
    let (v, buf) = pack_groups (max_value_with_tag tag_bit) value (lt_wf.apply value) [] in
    let (le, eq, g) =
      pack_groups_lem (max_value_with_tag tag_bit) value (lt_wf.apply value) [] tt in
    let hv : v < 2 ^ (7 - tag_bit) = omega (arith, one-le-pow (7 - tag_bit) 2) in
    let (_, _, top) = head_fields (7 - tag_bit) high_tag (has_more buf) v (has_more-lt buf) hv in
    let e8 : 8 - tag_bit ≡ suc (7 - tag_bit) = omega arith in
    (
      first_byte v high_tag tag_bit buf,
      emit_groups buf,
      refl,
      ap (λ c. c / 2 ^ (8 - tag_bit)) (first_byte_lem tag_bit v high_tag buf ht hv hh) ∙ rw e8 top,
    )

-- hpatch_unpackUIntWithTag reads back the value that hpatch_packUIntWithTag wrote and leaves the
-- bytes behind it, for a value of 64 bits, at most seven tag bits and a tag that fits them.
pub unpack-pack :
    (room value high_tag tag_bit : ℕ) (rest : List ℕ) {code : List ℕ}
    → IsU64 value
    → tag_bit ≤ 7
    → high_tag < 2 ^ tag_bit
    → pack_uint_with_tag room value high_tag tag_bit ≡ some code
    → unpack_uint_with_tag (code ++ rest) tag_bit ≡ some (value, rest)
unpack-pack room value high_tag tag_bit rest hv ht hh e = ground (
  arith,
  pack_uint_with_tag_lem room value high_tag tag_bit,
  unpack-packed value high_tag tag_bit rest hv ht hh,
)
