-- ===== src/Varint/Head.antt =====
-- The first byte of a packed integer: tag, flag and highest group side by side.
use hdiff_patch.Prelude.{
  ℕ, zero, suc, ◌+◌, ◌-◌, ◌*◌, ◌/◌, ◌%◌, ◌^◌, ◌≤◌, ◌<◌, ◌≡◌, refl, ap, sym, ◌∙◌, List, [], ◌∷◌,
  arith, bit_and, bit_or,
}
use hdiff_patch.Prelude.Bits.{
  bit_and-mask, bit_and-bit, bit_or-shl, bit_or_shl, bit_or_fields, mul_two_pow_suc, bit_or-zero,
}
use hdiff_patch.Varint.{has_more, first_byte}
use native.Mathlib.Nat.{
  div-div-eq-div-mul, pow-suc, one-le-pow, mul-le-mul_right, mul-add-mod_self_right,
  mul-add-div_right, div-eq_of_lt, mod-eq_of_lt,
}

-- A tag of `t` bits leaves `7 - t` bits under the flag.
pub room_of_tag : (t : ℕ) → t ≤ 7 → 2 ^ t * (2 * 2 ^ (7 - t)) ≡ 2 ^ 8
room_of_tag zero h = refl
room_of_tag (suc zero) h = refl
room_of_tag (suc (suc zero)) h = refl
room_of_tag (suc (suc (suc zero))) h = refl
room_of_tag (suc (suc (suc (suc zero)))) h = refl
room_of_tag (suc (suc (suc (suc (suc zero))))) h = refl
room_of_tag (suc (suc (suc (suc (suc (suc zero)))))) h = refl
room_of_tag (suc (suc (suc (suc (suc (suc (suc zero))))))) h = refl
room_of_tag (suc (suc (suc (suc (suc (suc (suc (suc t)))))))) h = absurd (omega arith)

pub has_more-lt : (cs : List ℕ) → has_more cs < 2
has_more-lt [] = omega arith
has_more-lt (c ∷ cs) = omega arith

-- Three fields that fit a byte.
fields_fit :
    (p q tag m v : ℕ) → q * (2 * p) ≡ 256 → tag < q → m < 2 → v < p → (tag * 2 + m) * p + v < 256
fields_fit p q tag m v e ht hm hv = omega (
  arith,
  mul-le-mul_right (2 * p) (let le : tag + 1 ≤ q = omega arith in le),
  mul-le-mul_right p (let le : m ≤ 1 = omega arith in le),
  e,
)

pub first_byte_lem :
    (t v high_tag : ℕ) (cs : List ℕ)
    → t ≤ 7
    → v < 2 ^ (7 - t)
    → high_tag < 2 ^ t
    → first_byte v high_tag t cs ≡ (high_tag * 2 + has_more cs) * 2 ^ (7 - t) + v
first_byte_lem t v high_tag cs hk hv ht =
    let k : ℕ = 7 - t in
    let m : ℕ = has_more cs in
    let m_lt : m < 2 = has_more-lt cs in
    let in_byte : (high_tag * 2 + m) * 2 ^ k + v < 256 =
      fields_fit (2 ^ k) (2 ^ t) high_tag m v (room_of_tag t hk) ht m_lt hv in
    let e8 : 8 - t ≡ suc (7 - t) = omega arith in
    let small : v % 2 ^ 8 ≡ v = mod-eq_of_lt (omega arith) in
    let wide : v < 2 ^ suc k = omega (arith, pow-suc 2 k) in
    let tagged : bit_or v (high_tag * 2 ^ suc k) ≡ high_tag * 2 * 2 ^ k + v =
      omega (arith, bit_or_shl (suc k) high_tag v wide, mul_two_pow_suc high_tag k) in
    let flagged : bit_or (high_tag * 2 * 2 ^ k + v) (m * 2 ^ k) ≡ (high_tag * 2 + m) * 2 ^ k + v =
      ground (
        arith,
        bit_or_fields k (high_tag * 2) v m 0 hv (one-le-pow k 2 (omega arith)),
        bit_or-shl 1 high_tag m m_lt,
        bit_or-zero v,
      ) in
    rw (e8, small, tagged, flagged) (mod-eq_of_lt in_byte)

-- What the reader sees of such a byte.
pub head_fields :
    (k tag m v : ℕ)
    → m < 2
    → v < 2 ^ k
    → let code = (tag * 2 + m) * 2 ^ k + v in
      (bit_and code (2 ^ k - 1) ≡ v) × (bit_and code (2 ^ k) ≡ m * 2 ^ k) × (code / 2 ^ suc k ≡ tag)
head_fields k tag m v hm hv =
    let code : ℕ = (tag * 2 + m) * 2 ^ k + v in
    let low : code % 2 ^ k ≡ v = mul-add-mod_self_right (tag * 2 + m) (2 ^ k) v ∙ mod-eq_of_lt hv in
    let high : code / 2 ^ k ≡ tag * 2 + m =
      omega (
        arith,
        mul-add-div_right (one-le-pow k 2 (omega arith)) (tag * 2 + m) v,
        div-eq_of_lt hv,
      ) in
    let flag : code / 2 ^ k % 2 ≡ m = omega arith in
    let top : code / 2 ^ suc k ≡ code / 2 ^ k / 2 =
      ap (λ d. code / d) (pow-suc 2 k) ∙ sym (div-div-eq-div-mul code (2 ^ k) 2) in
    (bit_and-mask k code ∙ low, bit_and-bit k code ∙ ap (λ f. f * 2 ^ k) flag, omega arith)
