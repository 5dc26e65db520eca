-- ===== src/Varint/Decode.antt =====
-- hpatch_unpackUIntWithTag on any input, and the bounds of hpatch_packUIntWithTag.
use hdiff_patch.Prelude.{
  suc, ◌/◌, not, ◌==◌, drop, Bool-cases, inl, inr, ℕ, ◌+◌, ◌-◌, ◌*◌, ◌%◌, ◌^◌, ◌≤◌, ◌<◌, ◌≡◌, List,
  [], ◌∷◌, ◌++◌, arith, length, bit_and, bit_or, none, some, ltb, if◌then◌else◌,
}
use hdiff_patch.Prelude.Bits.{bit_and-mask, bit_or-shl}
use native.Mathlib.Nat.{mod-lt, one-le-pow, pow-le-pow_right}
use hdiff_patch.Prelude.Wf.{lt_wf}
use hdiff_patch.Varint.{
  IsU64, max_packed_uint_bytes, max_value_with_tag, pack_groups, unpack_loop, unpack_uint_with_tag,
  pack_uint_with_tag, pack_uint_with_tag_size,
}
use hdiff_patch.Varint.Groups.{size_loop_lem, length-pack_groups}
use hdiff_patch.Varint.RoundTrip.{packed, length-emit_groups, pack_uint_with_tag_lem}

-- One round of the loop stays in 64 bits: seven bits are pushed below a value of at most 57 bits.
pub push_group :
    (value code : ℕ)
    → value < 2 ^ 57
    → bit_or (value * 2 ^ 7 % 2 ^ 64) (bit_and code (2 ^ 7 - 1)) ≡ value * 128 + code % 128
push_group value code h =
    let e : value * 2 ^ 7 % 2 ^ 64 ≡ value * 2 ^ 7 = omega arith in
    rw (e, bit_and-mask 7 code) (bit_or-shl 7 value (code % 128) (omega arith))

unpack_loop_takes :
    (src : List ℕ) (value v : ℕ) (rest : List ℕ)
    → unpack_loop src value ≡ some (v, rest)
    → IsU64 v × (length rest < length src)
unfolding unpack_loop
unpack_loop_takes [] value v rest e = ground arith
unpack_loop_takes (code ∷ src) value v rest e = ground (
  arith,
  push_group value code,
  unpack_loop_takes src (bit_or (value * 2 ^ 7 % 2 ^ 64) (bit_and code (2 ^ 7 - 1))) v rest,
)

pub head_small : (code tag_bit : ℕ) → bit_and code (2 ^ (7 - tag_bit) - 1) < 2 ^ 64
head_small code tag_bit = omega (
  arith,
  bit_and-mask (7 - tag_bit) code,
  mod-lt code (one-le-pow (7 - tag_bit) 2 (omega arith)),
  pow-le-pow_right {n = 2} (omega arith) {i = 7 - tag_bit} {j = 7} (omega arith),
)

-- Whatever the bytes, a value that is read is below 2 ^ 64 and the reader
-- leaves fewer bytes.
pub unpack_takes :
    (src : List ℕ) (tag_bit v : ℕ) (rest : List ℕ)
    → unpack_uint_with_tag src tag_bit ≡ some (v, rest)
    → IsU64 v × (length rest < length src)
unfolding unpack_uint_with_tag
unpack_takes [] tag_bit v rest e = ground arith
unpack_takes (code ∷ src) tag_bit v rest e = ground (
  arith,
  head_small code tag_bit,
  unpack_loop_takes src (bit_and code (2 ^ (7 - tag_bit) - 1)) v rest,
)

unpack_loop-append :
    (src more : List ℕ) (value v : ℕ) (rest : List ℕ)
    → unpack_loop src value ≡ some (v, rest)
    → unpack_loop (src ++ more) value ≡ some (v, rest ++ more)
unfolding unpack_loop
unpack_loop-append [] more value v rest e = ground arith
unpack_loop-append (code ∷ src) more value v rest e = ground (
  arith,
  unpack_loop-append src more (bit_or (value * 2 ^ 7 % 2 ^ 64) (bit_and code (2 ^ 7 - 1))) v rest,
)

-- What is left is a tail of the bytes.
unpack_loop_leaves :
    (src : List ℕ) (value v : ℕ) (rest : List ℕ)
    → unpack_loop src value ≡ some (v, rest)
    → (used : ℕ) × (rest ≡ drop used src) × (used + length rest ≡ length src)
unfolding unpack_loop
unpack_loop_leaves [] value v rest e = absurd (ground (arith, e))
unpack_loop_leaves (code ∷ src) value v rest e =
    elim (Bool-cases (not (value / 2 ^ (8 * 8 - 7) == 0))) [
      | inl full ↦ absurd (ground (arith, e, full))
      | inr fits ↦ elim (Bool-cases (not (bit_and code (2 ^ 7) == 0))) [
        | inl more ↦
            let (used, k, sizes) =
              unpack_loop_leaves src (bit_or (value * 2 ^ 7 % 2 ^ 64) (bit_and code (2 ^ 7 - 1))) v
                rest (rw (fits, more) at e) in
            (suc used, k, omega arith)
        | inr last ↦ (1, ground (arith, e, fits, last), ground (arith, e, fits, last))
      ]
    ]

pub unpack_leaves :
    (src : List ℕ) (tag_bit v : ℕ) (rest : List ℕ)
    → unpack_uint_with_tag src tag_bit ≡ some (v, rest)
    → (used : ℕ) × (rest ≡ drop used src) × (used + length rest ≡ length src)
unfolding unpack_uint_with_tag
unpack_leaves [] tag_bit v rest e = absurd (ground (arith, e))
unpack_leaves (code ∷ src) tag_bit v rest e =
    elim (Bool-cases (not (bit_and code (2 ^ (7 - tag_bit)) == 0))) [
      | inl more ↦
          let (used, k, sizes) =
            unpack_loop_leaves src (bit_and code (2 ^ (7 - tag_bit) - 1)) v rest (rw more at e) in
          (suc used, k, omega arith)
      | inr last ↦ (1, ground (arith, e, last), ground (arith, e, last))
    ]

-- The reader does not look past the number: bytes behind it do not change what is read.
pub unpack-append :
    (src more : List ℕ) (tag_bit v : ℕ) (rest : List ℕ)
    → unpack_uint_with_tag src tag_bit ≡ some (v, rest)
    → unpack_uint_with_tag (src ++ more) tag_bit ≡ some (v, rest ++ more)
unfolding unpack_uint_with_tag
unpack-append [] more tag_bit v rest e = ground arith
unpack-append (code ∷ src) more tag_bit v rest e =
    ground (arith, unpack_loop-append src more (bit_and code (2 ^ (7 - tag_bit) - 1)) v rest)

-- hpatch_packUIntWithTag_size is the number of bytes that the packer writes.
pub pack_uint_with_tag_size-length :
    (value high_tag tag_bit : ℕ)
    → pack_uint_with_tag_size value tag_bit ≡ length (packed value high_tag tag_bit)
unfolding pack_uint_with_tag_size packed
pack_uint_with_tag_size-length value high_tag tag_bit = omega (
  arith,
  size_loop_lem (max_value_with_tag tag_bit) value (lt_wf.apply value) [] 0,
  length-emit_groups (pack_groups (max_value_with_tag tag_bit) value (lt_wf.apply value) []).1,
)

-- A value of 64 bits takes at most eleven bytes, hpatch_kMaxPackedUIntBytes.
pub length-packed :
    (value high_tag tag_bit : ℕ)
    → IsU64 value
    → length (packed value high_tag tag_bit) ≤ max_packed_uint_bytes
unfolding packed
length-packed value high_tag tag_bit h = omega (
  arith,
  length-pack_groups 10 (max_value_with_tag tag_bit) value (lt_wf.apply value) [] (omega arith),
  length-emit_groups (pack_groups (max_value_with_tag tag_bit) value (lt_wf.apply value) []).1,
)

-- The packer fails exactly where the room is less than the size that the size function gives.
pub pack_fails :
    (room value high_tag tag_bit : ℕ)
    → pack_uint_with_tag room value high_tag tag_bit ≡ (
        if ltb room (pack_uint_with_tag_size value tag_bit)
        then none
        else some (packed value high_tag tag_bit))
pack_fails room value high_tag tag_bit =
    rw (pack_uint_with_tag_size-length value high_tag tag_bit)
      (pack_uint_with_tag_lem room value high_tag tag_bit)
