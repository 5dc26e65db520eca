-- ===== src/Varint/Exact.antt =====
-- hpatch_unpackUIntWithTag against a reader of numbers of any size.
use hdiff_patch.Prelude.{
  ℕ, ◌+◌, ◌*◌, ◌/◌, ◌%◌, ◌-◌, ◌^◌, ◌≤◌, ◌<◌, ◌≡◌, refl, inl, inr, Option, none, some, List, [], ◌∷◌,
  arith, ltb, ◌==◌, not, if◌then◌else◌, bit_and, Bool-cases, lt→ltb, sym,
}
use hdiff_patch.Prelude.Bits.{bit_and-mask}
use hdiff_patch.Varint.{IsU64, unpack_loop, unpack_uint_with_tag}
use hdiff_patch.Varint.Decode.{push_group, head_small}

-- The digits in base 128 behind `value`: the last is below 128, the ones in front of it are not.
unfoldable pub read_digits : (digits : List ℕ) (value : ℕ) → Option (ℕ × List ℕ)
read_digits [] value = none
read_digits (d ∷ digits) value =
    let rest = read_digits digits (value * 128 + d % 128) in
    if bit_and d 128 == 0 then some (value * 128 + d % 128, digits) else rest

-- The number that the first byte begins with the bits below its tag and its flag.
unfoldable pub read_exact : List ℕ → (tag_bit : ℕ) → Option (ℕ × List ℕ)
unfolding read_digits
read_exact [] tag_bit = none
read_exact (d ∷ digits) tag_bit =
    let first = d % 2 ^ (7 - tag_bit) in
    let rest = read_digits digits first in
    if bit_and d (2 ^ (7 - tag_bit)) == 0 then some (first, digits) else rest

-- A number of more than 64 bits is none.
unfoldable pub within_64 : Option (ℕ × List ℕ) → Option (ℕ × List ℕ)
within_64 none = none
within_64 (some (value, rest)) = if ltb value (2 ^ 64) then some (value, rest) else none

-- More digits make a number larger.
read_digits_grows :
    (digits : List ℕ) (value bound : ℕ)
    → bound ≤ value * 128
    → 2 ^ 64 ≤ bound
    → within_64 (read_digits digits value) ≡ none
unfolding read_digits within_64
read_digits_grows [] value bound h large = refl
read_digits_grows (d ∷ digits) value bound h large = elim (Bool-cases (bit_and d 128 == 0)) [
  | inl last ↦ rw last (ground arith)
  | inr more ↦ rw more (read_digits_grows digits (value * 128 + d % 128) bound (omega arith) large)
]

unpack_loop-read_digits :
    (src : List ℕ) (value : ℕ)
    → IsU64 value
    → unpack_loop src value ≡ within_64 (read_digits src value)
unfolding unpack_loop read_digits within_64
unpack_loop-read_digits [] value h = refl
unpack_loop-read_digits (code ∷ src) value h =
    elim (Bool-cases (not (value / 2 ^ (8 * 8 - 7) == 0))) [
      | inl full ↦
          let large : 2 ^ 57 ≤ value = ground (arith, full) in
          rw full
            (sym (read_digits_grows (code ∷ src) value (value * 128) (omega arith) (omega arith)))
      | inr fits ↦
          let small : value < 2 ^ 57 = ground (arith, fits) in
          let same = push_group value code small in
          elim (Bool-cases (bit_and code 128 == 0)) [
            | inl last ↦
                rw (fits, same, last, lt→ltb (value * 128 + code % 128) (2 ^ 64) (omega arith)) refl
            | inr more ↦
                rw (fits, same, more)
                  (unpack_loop-read_digits src (value * 128 + code % 128) (omega arith))
          ]
    ]

-- hpatch_unpackUIntWithTag reads the number that the digits stand for, taken without bound, and fails
-- where the digits do not end or where the number does not fit 64 bits.
pub unpack-read_exact :
    (src : List ℕ) (tag_bit : ℕ)
    → unpack_uint_with_tag src tag_bit ≡ within_64 (read_exact src tag_bit)
unfolding unpack_uint_with_tag read_exact within_64
unpack-read_exact [] tag_bit = refl
unpack-read_exact (code ∷ src) tag_bit =
    let small = head_small code tag_bit in
    let masked = bit_and-mask (7 - tag_bit) code in
    elim (Bool-cases (bit_and code (2 ^ (7 - tag_bit)) == 0)) [
      | inl last ↦
          rw (last, masked, lt→ltb (code % 2 ^ (7 - tag_bit)) (2 ^ 64) (rw masked at small)) refl
      | inr more ↦
          rw (more, masked)
            (unpack_loop-read_digits src (code % 2 ^ (7 - tag_bit)) (rw masked at small))
    ]
