-- ===== src/Varint/Groups.antt =====
-- What the stack of groups stands for.
use hdiff_patch.Prelude.{
  ℕ, zero, suc, ◌+◌, ◌-◌, ◌*◌, ◌/◌, ◌^◌, ◌≤◌, ◌<◌, ◌≡◌, refl, ap, ◌∙◌, List, [], ◌∷◌, arith, length,
  dec_lt, All, bit_and,
}
use hdiff_patch.Prelude.Bits.{bit_and-mask}
use hdiff_patch.Varint.{pack_groups, size_loop, shift_shrinks}
use native.Mathlib.Bridge.{le_prop}
use native.Mathlib.Nat.{pow-suc}
use mathlib.Core.Logic.{dif_pos, dif_neg}
use mathlib.Core.WellFounded.{Acc}

-- The number that a highest group and the groups under it spell.
abbrev pub spell : ℕ → List ℕ → ℕ
spell v [] = v
spell v (c ∷ cs) = spell (v * 128 + c) cs

abbrev pub IsGroup : ℕ → Type 0
IsGroup c = c < 128

pub le-spell : (v : ℕ) (cs : List ℕ) → v ≤ spell v cs
le-spell v [] = omega arith
le-spell v (c ∷ cs) = omega (arith, le-spell (v * 128 + c) cs)

-- The loop keeps the number, leaves at most the highest value, and pushes groups of seven bits.
pub pack_groups_lem :
    (max_value v : ℕ) (w : Acc ◌<◌ v) (buf : List ℕ)
    → All IsGroup buf
    → let (v', buf') = pack_groups max_value v w buf in
      (v' ≤ max_value) × (spell v' buf' ≡ spell v buf) × All IsGroup buf'
unfolding pack_groups
pack_groups_lem max_value v (Acc.intro _ smaller) buf g = elim (dec_lt max_value v) [
  | yes h ↦
      let (p, q, r) =
        pack_groups_lem max_value (v / 128) (smaller (v / 128) (shift_shrinks max_value v h))
          (bit_and v (2 ^ 7 - 1) ∷ buf) (omega (arith, bit_and-mask 7 v), g) in
      let e : v / 128 * 128 + bit_and v (2 ^ 7 - 1) ≡ v = omega (arith, bit_and-mask 7 v) in
      rw (dif_pos _ le_prop h _ _) (p, q ∙ ap (λ t. spell t buf) e, r)
  | no h ↦ rw (dif_neg _ h _ _) (omega arith, refl, g)
]

-- The loop that only counts makes as many rounds.
pub size_loop_lem :
    (max_value v : ℕ) (w : Acc ◌<◌ v) (buf : List ℕ) (size : ℕ)
    → size_loop max_value v w size + length buf ≡ size + length (pack_groups max_value v w buf).1
unfolding pack_groups size_loop
size_loop_lem max_value v (Acc.intro _ smaller) buf size = elim (dec_lt max_value v) [
  | yes h ↦
      let ih =
        size_loop_lem max_value (v / 128) (smaller (v / 128) (shift_shrinks max_value v h))
          (bit_and v (2 ^ 7 - 1) ∷ buf) (size + 1) in
      rw (dif_pos _ le_prop h _ _) (rw (dif_pos _ le_prop h _ _) (omega (arith, ih)))
  | no h ↦ rw (dif_neg _ h _ _) (rw (dif_neg _ h _ _) refl)
]

-- A value below 128 ^ k takes at most k groups below the highest.
pub length-pack_groups :
    (k max_value v : ℕ) (w : Acc ◌<◌ v) (buf : List ℕ)
    → v < 128 ^ k
    → length (pack_groups max_value v w buf).1 ≤ length buf + k
unfolding pack_groups
length-pack_groups zero max_value v (Acc.intro _ smaller) buf h =
    rw (dif_neg _ (λ (q : max_value < v). omega arith) _ _) (omega arith)
length-pack_groups (suc k) max_value v (Acc.intro _ smaller) buf h = elim (dec_lt max_value v) [
  | yes q ↦
      let ih =
        length-pack_groups k max_value (v / 128) (smaller (v / 128) (shift_shrinks max_value v q))
          (bit_and v (2 ^ 7 - 1) ∷ buf) (omega (arith, pow-suc 128 k)) in
      rw (dif_pos _ le_prop q _ _) (omega (arith, ih))
  | no q ↦ rw (dif_neg _ q _ _) (omega arith)
]
