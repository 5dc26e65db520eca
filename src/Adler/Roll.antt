-- ===== src/Adler/Roll.antt =====
-- Rolling the checksum over a window is computing it anew.
use hdiff_patch.Prelude.{
  ℕ, suc, ◌+◌, ◌-◌, ◌*◌, ◌/◌, ◌%◌, ◌^◌, ◌<◌, ◌≡◌, ap, ◌∙◌, List, [], ◌∷◌, ◌++◌, arith, ltb, length,
  bit_and, bit_or, Bool-cases, inl, inr, length-append,
}
use hdiff_patch.Prelude.Bits.{bit_and-mask, bit_or_shl}
use native.Mathlib.Nat.{add-mul, mul_assoc}
use hdiff_patch.Varint.{IsByte}
use hdiff_patch.Adler.{border2, best_block_size, block_factor, roll_adler, roll_sum, adler32_roll}

-- The sum of the bytes.
abbrev pub total : List ℕ → ℕ
total [] = 0
total (d ∷ ds) = d + total ds

-- The sum of the bytes, each taken as often as there are bytes from it on.
abbrev pub weight : List ℕ → ℕ
weight [] = 0
weight (d ∷ ds) = suc (length ds) * d + weight ds

-- Adler-32 as it is defined: both sums modulo 65521, the second one in the high half.
abbrev pub low_sum : List ℕ → ℕ
low_sum ds = (1 + total ds) % 65521

abbrev pub high_sum : List ℕ → ℕ
high_sum ds = (length ds + weight ds) % 65521

unfoldable pub adler32 : List ℕ → ℕ
adler32 ds = high_sum ds * 2 ^ 16 + low_sum ds

total-snoc : (ds : List ℕ) (y : ℕ) → total (ds ++ y ∷ []) ≡ total ds + y
total-snoc [] y = omega arith
total-snoc (d ∷ ds) y = omega (arith, total-snoc ds y)

pub suc_mul : (n d : ℕ) → suc n * d ≡ n * d + d
suc_mul n d = omega arith

weight-snoc : (ds : List ℕ) (y : ℕ) → weight (ds ++ y ∷ []) ≡ weight ds + total ds + y
weight-snoc [] y = omega arith
weight-snoc (d ∷ ds) y =
    let size : suc (length (ds ++ y ∷ [])) ≡ suc (suc (length ds)) =
      omega (arith, length-append ds (y ∷ [])) in
    rw size (omega (arith, weight-snoc ds y, suc_mul (suc (length ds)) d))

roll_adler_lem :
    (t x y : ℕ) → x < 256 → y < 256 → roll_adler ((1 + (x + t)) % 65521) x y ≡ (1 + (t + y)) % 65521
unfolding roll_adler border2
roll_adler_lem t x y hx hy = ground arith

pub mul_parts : (n q r x : ℕ) → n ≡ 65521 * q + r → n * x ≡ 65521 * (q * x) + r * x
mul_parts n q r x e =
    ap (λ k. k * x) e ∙ add-mul (65521 * q) r x ∙ ap (λ k. k + r * x) (mul_assoc 65521 q x)

-- The factor of the byte that leaves, modulo the base.
factor_lem : (n x : ℕ) → n < 2 ^ 64 → x < 256 → block_factor n * x % 2 ^ 64 % 65521 ≡ n * x % 65521
unfolding block_factor
factor_lem n x hn hx = elim (Bool-cases (ltb best_block_size n)) [
  | inl big ↦
      let small : n % 65521 * x < 2 ^ 64 = grind arith in
      let parts : n * x ≡ 65521 * (n / 65521 * x) + n % 65521 * x =
        mul_parts n (n / 65521) (n % 65521) x (omega arith) in
      rw big (omega (arith, small, parts))
  | inr few ↦ let small : n * x < 2 ^ 64 = grind arith in rw few (omega (arith, small))
]

roll_sum_lem :
    (n s s' a p x : ℕ)
    → s' + p + 1 ≡ s + a
    → block_factor n * x % 2 ^ 64 % 65521 ≡ p % 65521
    → roll_sum (s % 65521) (a % 65521) n x ≡ s' % 65521
unfolding roll_sum border2
roll_sum_lem n s s' a p x e f = rw f (ground arith)

pub join : (a s : ℕ) → a < 2 ^ 16 → s < 2 ^ 16 → bit_or a (s * 2 ^ 16 % 2 ^ 32) ≡ s * 2 ^ 16 + a
join a s ha hs =
    let fits : s * 2 ^ 16 % 2 ^ 32 ≡ s * 2 ^ 16 = omega arith in rw fits (bit_or_shl 16 s a ha)

-- adler32_roll turns the checksum of a window into that of the window moved by one byte, for a
-- window of fewer than 2 ^ 64 bytes.
pub adler32_roll-adler32 :
    (x : ℕ) (ds : List ℕ) (y : ℕ)
    → IsByte x
    → IsByte y
    → suc (length ds) < 2 ^ 64
    → adler32_roll (adler32 (x ∷ ds)) (suc (length ds)) x y ≡ adler32 (ds ++ y ∷ [])
unfolding adler32_roll adler32
adler32_roll-adler32 x ds y hx hy fits =
    let n : ℕ = suc (length ds) in
    let s : ℕ = length (x ∷ ds) + weight (x ∷ ds) in
    let s' : ℕ = n + (weight ds + total ds + y) in
    let a : ℕ = 1 + (total ds + y) in
    let low : bit_and (high_sum (x ∷ ds) * 2 ^ 16 + low_sum (x ∷ ds)) (2 ^ 16 - 1)
        ≡ low_sum (x ∷ ds) =
      omega (arith, bit_and-mask 16 (high_sum (x ∷ ds) * 2 ^ 16 + low_sum (x ∷ ds))) in
    let high : (high_sum (x ∷ ds) * 2 ^ 16 + low_sum (x ∷ ds)) / 2 ^ 16 ≡ high_sum (x ∷ ds) =
      omega arith in
    let after_low = roll_adler_lem (total ds) x y hx hy in
    let after_high = roll_sum_lem n s s' a (n * x) x (omega arith) (factor_lem n x fits hx) in
    let size : length (ds ++ y ∷ []) ≡ n = omega (arith, length-append ds (y ∷ [])) in
    rw (low, high, after_low, after_high, size, weight-snoc ds y, total-snoc ds y)
      (join (a % 65521) (s' % 65521) (omega arith) (omega arith))
