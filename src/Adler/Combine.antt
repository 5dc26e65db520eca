-- ===== src/Adler/Combine.antt =====
-- Combining the checksums of two parts is computing that of the whole.
use hdiff_patch.Prelude.{
  ℕ, suc, ◌+◌, ◌-◌, ◌*◌, ◌/◌, ◌%◌, ◌^◌, ◌<◌, ◌≡◌, List, [], ◌∷◌, ◌++◌, arith, length, bit_and,
  length-append,
}
use hdiff_patch.Prelude.Bits.{bit_and-mask}
use native.Mathlib.Nat.{mul-le-mul, mul_comm}
use hdiff_patch.Adler.{border2, border3, combined_sum, combined_adler, adler32_by_combine}
use hdiff_patch.Adler.Roll.{total, weight, low_sum, high_sum, adler32, mul_parts, join}

total-append : (l r : List ℕ) → total (l ++ r) ≡ total l + total r
total-append [] r = omega arith
total-append (d ∷ l) r = omega (arith, total-append l r)

weight-append : (l r : List ℕ) → weight (l ++ r) ≡ weight l + length r * total l + weight r
weight-append [] r = omega arith
weight-append (d ∷ l) r =
    let size : suc (length (l ++ r)) ≡ suc (length l) + length r =
      omega (arith, length-append l r) in
    rw size (grind (arith, weight-append l r))

-- A product modulo the base, from its factors modulo the base.
mul_mod : (m a : ℕ) → (m % 65521) * (a % 65521) % 2 ^ 32 % 65521 ≡ m * a % 65521
mul_mod m a =
    let by_m = mul_parts m (m / 65521) (m % 65521) a (omega arith) in
    let by_a = mul_parts a (a / 65521) (a % 65521) (m % 65521) (omega arith) in
    let flip = mul_comm (m % 65521) a in
    let flip' = mul_comm (m % 65521) (a % 65521) in
    let bound =
      mul-le-mul {n₁ = m % 65521} {m₁ = a % 65521} {n₂ = 65520} {m₂ = 65520} (omega arith)
        (omega arith) in
    omega (arith, by_m, by_a, flip, flip', bound)

combined_adler_lem :
    (t u : ℕ) → combined_adler ((1 + t) % 65521) ((1 + u) % 65521) ≡ (1 + (t + u)) % 65521
unfolding combined_adler border2
combined_adler_lem t u = ground arith

combined_sum_lem :
    (m a s s' w : ℕ)
    → w + m ≡ m * a + s + s'
    → combined_sum (m % 65521) (a % 65521) (s % 65521) (s' % 65521) ≡ w % 65521
unfolding combined_sum border3
combined_sum_lem m a s s' w e = rw (mul_mod m a) (ground arith)

-- adler32_by_combine of the checksums of two parts, with the length of the right one, is the
-- checksum of the whole.
pub adler32_by_combine-adler32 :
    (l r : List ℕ) → adler32_by_combine (adler32 l) (adler32 r) (length r) ≡ adler32 (l ++ r)
unfolding adler32_by_combine adler32
adler32_by_combine-adler32 l r =
    let s : ℕ = length l + weight l in
    let s' : ℕ = length r + weight r in
    let w : ℕ = length l + length r + (weight l + length r * total l + weight r) in
    let low = λ (ds : List ℕ). low_half (high_sum ds) (low_sum ds) (omega arith) in
    let high = λ (ds : List ℕ). high_half (high_sum ds) (low_sum ds) (omega arith) in
    let low_part = combined_adler_lem (total l) (total r) in
    let sums : w + length r ≡ length r * (1 + total l) + s + s' = grind arith in
    let high_part = combined_sum_lem (length r) (1 + total l) s s' w sums in
    rw
      (
        low l,
        low r,
        high l,
        high r,
        low_part,
        high_part,
        length-append l r,
        weight-append l r,
        total-append l r,
      )
      (join ((1 + (total l + total r)) % 65521) (w % 65521) (omega arith) (omega arith))
  where
    low_half : (s a : ℕ) → a < 2 ^ 16 → bit_and (s * 2 ^ 16 + a) (2 ^ 16 - 1) ≡ a
    low_half s a h = omega (arith, bit_and-mask 16 (s * 2 ^ 16 + a))

    high_half : (s a : ℕ) → a < 2 ^ 16 → (s * 2 ^ 16 + a) / 2 ^ 16 ≡ s
    high_half s a h = omega arith
