-- ===== src/Prelude/Bits.antt =====
-- `|` of disjoint fields and `&` with a mask, as arithmetic, at every width.
use Prim.Native.Nat.{
  ℕ, zero, suc, ◌+◌, ◌-◌, ◌*◌, ◌/◌, ◌%◌, ◌^◌, ◌≤◌, ◌<◌, min, max, bit_and, bit_or, digits,
  bit_and-bitwise, bit_or-bitwise,
}
use mathlib.Core.Path.{◌≡◌, refl, sym, ap, ◌∙◌}
use mathlib.Core.WellFounded
use hdiff_patch.Prelude.Wf.{lt_wf}
use native.Mathlib.Omega.{arith}
use native.Mathlib.Nat.{pow-suc, pow-succ', one-le-pow, div-div-eq-div-mul}

-- Fuel from the first number on does not change the digits.
module _ (rest : ℕ → ℕ) (digit : ℕ → ℕ → ℕ) where
  digits_fuel :
      (x y more less : ℕ)
      → x ≤ less
      → less ≤ more
      → digits rest digit more x y ≡ digits rest digit less x y
  digits_fuel zero y zero zero lo up = refl
  digits_fuel zero y (suc more) zero lo up = refl
  digits_fuel zero y (suc more) (suc less) lo up = refl
  digits_fuel zero y zero (suc less) lo up = refl
  digits_fuel (suc x) y more zero lo up = absurd (omega arith)
  digits_fuel (suc x) y zero (suc less) lo up = absurd (omega arith)
  digits_fuel (suc x) y (suc more) (suc less) lo up =
      ap (λ (t : ℕ). t * 2 + digit (suc x % 2) (y % 2))
        (digits_fuel (suc x / 2) (y / 2) more less (omega arith) (omega arith))

zero-bit_and : (b : ℕ) → bit_and 0 b ≡ 0
zero-bit_and b = bit_and-bitwise 0 b

pub zero-bit_or : (b : ℕ) → bit_or 0 b ≡ b
zero-bit_or b = bit_or-bitwise 0 b

bit_and_step : (x y : ℕ) → bit_and x y ≡ min (x % 2) (y % 2) + 2 * bit_and (x / 2) (y / 2)
bit_and_step zero y = omega (arith, zero-bit_and (y / 2), zero-bit_and y)
bit_and_step (suc x) y = omega (
  arith,
  digits_fuel (λ _. zero) min (suc x / 2) (y / 2) x (suc x / 2) (omega arith) (omega arith),
  bit_and-bitwise (suc x / 2) (y / 2),
  bit_and-bitwise (suc x) y,
)

bit_or_step : (x y : ℕ) → bit_or x y ≡ max (x % 2) (y % 2) + 2 * bit_or (x / 2) (y / 2)
bit_or_step zero y = omega (arith, zero-bit_or (y / 2), zero-bit_or y)
bit_or_step (suc x) y = omega (
  arith,
  digits_fuel (λ d. d) max (suc x / 2) (y / 2) x (suc x / 2) (omega arith) (omega arith),
  bit_or-bitwise (suc x / 2) (y / 2),
  bit_or-bitwise (suc x) y,
)

-- Both operations with 0 on the right.
right_zero : (x : ℕ) → (bit_or x 0 ≡ x) × (bit_and x 0 ≡ 0)
right_zero x = WellFounded.induction lt_wf {C = λ v. (bit_or v 0 ≡ v) × (bit_and v 0 ≡ 0)} x halve
  where
    halve :
        (x : ℕ)
        → ((y : ℕ) → y < x → (bit_or y 0 ≡ y) × (bit_and y 0 ≡ 0))
        → (bit_or x 0 ≡ x) × (bit_and x 0 ≡ 0)
    halve zero smaller = (refl, refl)
    halve (suc x) smaller =
        let (either, both) = smaller (suc x / 2) (omega arith) in
        (omega (arith, bit_or_step (suc x) 0), omega (arith, bit_and_step (suc x) 0))

pub bit_or-zero : (x : ℕ) → bit_or x 0 ≡ x
bit_or-zero x = (right_zero x).0

bit_and-zero : (x : ℕ) → bit_and x 0 ≡ 0
bit_and-zero x = (right_zero x).1

pub mul_two_pow_suc : (q k : ℕ) → q * 2 ^ suc k ≡ 2 * (q * 2 ^ k)
mul_two_pow_suc q k = omega (arith, ap (λ (t : ℕ). q * t) (pow-suc 2 k))

bit_or-one_pow : (b d : ℕ) → bit_or (b * 2 ^ 0 + 0) (d * 2 ^ 0 + 0) ≡ bit_or b d
bit_or-one_pow b d =
    let eb : b * 2 ^ 0 + 0 ≡ b = omega arith in
    let ed : d * 2 ^ 0 + 0 ≡ d = omega arith in rw (eb, ed)

-- Bits below `k` and bits from `k` on are joined apart.
pub bit_or_fields :
    (k b a d c : ℕ)
    → a < 2 ^ k
    → c < 2 ^ k
    → bit_or (b * 2 ^ k + a) (d * 2 ^ k + c) ≡ bit_or b d * 2 ^ k + bit_or a c
bit_or_fields zero b zero d zero ha hc = ground (arith, zero-bit_or 0, bit_or-one_pow b d)
bit_or_fields zero b zero d (suc c) ha hc = absurd (omega arith)
bit_or_fields zero b (suc a) d c ha hc = absurd (omega arith)
bit_or_fields (suc k) b a d c ha hc = ground (
  arith,
  bit_or_step (b * 2 ^ suc k + a) (d * 2 ^ suc k + c),
  bit_or_step a c,
  mul_two_pow_suc b k,
  mul_two_pow_suc d k,
  mul_two_pow_suc (bit_or b d) k,
  pow-suc 2 k,
  bit_or_fields k b (a / 2) d (c / 2) (omega (arith, pow-suc 2 k)) (omega (arith, pow-suc 2 k)),
)

-- `(q << k) | r` is a sum when `r` fits `k` bits.
pub bit_or-shl : (k q r : ℕ) → r < 2 ^ k → bit_or (q * 2 ^ k) r ≡ q * 2 ^ k + r
bit_or-shl k q r h =
    ground (
      arith,
      bit_or_fields k q 0 0 r (one-le-pow k 2 (omega arith)) h,
      bit_or-zero q,
      zero-bit_or r,
    )

-- `r | (q << k)` is a sum when `r` fits `k` bits.
pub bit_or_shl : (k q r : ℕ) → r < 2 ^ k → bit_or r (q * 2 ^ k) ≡ q * 2 ^ k + r
bit_or_shl k q r h =
    ground (
      arith,
      bit_or_fields k 0 r q 0 h (one-le-pow k 2 (omega arith)),
      bit_or-zero r,
      zero-bit_or q,
    )

bit_and_fields : (k q r : ℕ) → r < 2 ^ k → bit_and (q * 2 ^ k + r) (2 ^ k - 1) ≡ r
bit_and_fields zero q zero h = rw (bit_and-zero (q * 2 ^ 0 + 0))
bit_and_fields zero q (suc r) h = absurd (omega arith)
bit_and_fields (suc k) q r h = ground (
  arith,
  bit_and_step (q * 2 ^ suc k + r) (2 ^ suc k - 1),
  mul_two_pow_suc q k,
  pow-suc 2 k,
  one-le-pow k 2,
  bit_and_fields k q (r / 2) (omega (arith, pow-suc 2 k)),
)

-- A mask of `k` low bits is the remainder by `2 ^ k`.
pub bit_and-mask : (k a : ℕ) → bit_and a (2 ^ k - 1) ≡ a % 2 ^ k
bit_and-mask k a = ground (arith, one-le-pow k 2, bit_and_fields k (a / 2 ^ k) (a % 2 ^ k))

div-div : (a k : ℕ) → a / 2 ^ suc k ≡ a / 2 / 2 ^ k
div-div a k = ap (λ m. a / m) (pow-succ' 2 k) ∙ sym (div-div-eq-div-mul a 2 (2 ^ k))

-- A mask of one bit reads that bit.
pub bit_and-bit : (k a : ℕ) → bit_and a (2 ^ k) ≡ a / 2 ^ k % 2 * 2 ^ k
bit_and-bit zero a = omega (arith, bit_and_step a 1, bit_and-zero (a / 2))
bit_and-bit (suc k) a = ground (
  arith,
  bit_and_step a (2 ^ suc k),
  pow-suc 2 k,
  div-div a k,
  mul_two_pow_suc (a / 2 ^ suc k % 2) k,
  bit_and-bit k (a / 2),
)
