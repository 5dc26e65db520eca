-- ===== src/Lite/Head/RoundTrip.antt =====
-- hpatch_lite_open reads the head that serialize_lite_diff wrote.
use hdiff_patch.Prelude.{
  ℕ, zero, suc, ◌+◌, ◌*◌, ◌/◌, ◌%◌, ◌^◌, ◌≤◌, ◌<◌, ◌≡◌, refl, ap, ◌∙◌, Option, some, List, [], ◌∷◌,
  ◌++◌, arith, length, take, drop, bit_and, bit_or, dec_lt, take-append_of, drop-append_of,
  append_assoc, le→ltb,
}
use hdiff_patch.Prelude.Bits.{bit_or_fields, bit_or-zero, bit_or-shl, bit_and-mask}
use hdiff_patch.Prelude.Wf.{lt_wf}
use hdiff_patch.Lite.Head.{
  read_size, save_size_loop, save_size, saved_size_loop, saved_size_bytes, byte_shrinks, lite_head,
  type_and_sizes, hpatch_lite_open,
}
use mathlib.Core.WellFounded.{Acc}
use native.Mathlib.Bridge.{le_prop}
use mathlib.Core.Logic.{dif_pos, dif_neg}
use native.Mathlib.Nat.{pow-suc}

read_size-save_size_loop :
    (size : ℕ) (w : Acc ◌<◌ size) → size < 2 ^ 32 → read_size (save_size_loop size w) ≡ size
unfolding read_size save_size_loop
read_size-save_size_loop size (Acc.intro _ smaller) h = elim (dec_lt 0 size) [
  | yes more ↦ rw (dif_pos _ le_prop more _ _) (
      rw
        (read_size-save_size_loop (size / 2 ^ 8) (smaller (size / 2 ^ 8) (byte_shrinks size more))
          (omega arith))
        (let wrap : size / 2 ^ 8 * 2 ^ 8 % 2 ^ 32 ≡ size / 2 ^ 8 * 2 ^ 8 = omega arith in
          rw wrap (omega (arith, bit_or-shl 8 (size / 2 ^ 8) (size % 2 ^ 8) (omega arith)))))
  | no none_left ↦ rw (dif_neg _ none_left _ _) (omega arith)
]

length-save_size_loop :
    (k size : ℕ) (w : Acc ◌<◌ size) → size < 256 ^ k → length (save_size_loop size w) ≤ k
unfolding save_size_loop
length-save_size_loop zero size (Acc.intro _ smaller) h = elim (dec_lt 0 size) [
  | yes more ↦ absurd (omega arith)
  | no none_left ↦ rw (dif_neg _ none_left _ _) (omega arith)
]
length-save_size_loop (suc k) size (Acc.intro _ smaller) h = elim (dec_lt 0 size) [
  | yes more ↦ rw (dif_pos _ le_prop more _ _) (
      omega (
        arith,
        length-save_size_loop k (size / 2 ^ 8) (smaller (size / 2 ^ 8) (byte_shrinks size more))
            (omega (arith, pow-suc 256 k)),
      ))
  | no none_left ↦ rw (dif_neg _ none_left _ _) (omega arith)
]

saved_size_loop-length :
    (size : ℕ) (w : Acc ◌<◌ size) (bytes : ℕ)
    → saved_size_loop size w bytes ≡ bytes + length (save_size_loop size w)
unfolding saved_size_loop save_size_loop
saved_size_loop-length size (Acc.intro _ smaller) bytes = elim (dec_lt 0 size) [
  | yes more ↦
      rw (dif_pos _ le_prop more _ _, dif_pos _ le_prop more _ _)
        (omega (
          arith,
          saved_size_loop-length (size / 2 ^ 8) (smaller (size / 2 ^ 8) (byte_shrinks size more))
              (bytes + 1),
        ))
  | no none_left ↦ rw (dif_neg _ none_left _ _, dif_neg _ none_left _ _) (omega arith)
]

saved_size_bytes-length : (size : ℕ) → saved_size_bytes size ≡ length (save_size size)
unfolding saved_size_bytes save_size
saved_size_bytes-length size = omega (arith, saved_size_loop-length size (lt_wf.apply size) 0)

length-save_size : (size : ℕ) → size < 2 ^ 32 → length (save_size size) ≤ 4
unfolding save_size
length-save_size size h = length-save_size_loop 4 size (lt_wf.apply size) (omega arith)

read_size-save_size : (size : ℕ) → size < 2 ^ 32 → read_size (save_size size) ≡ size
unfolding save_size
read_size-save_size size h = read_size-save_size_loop size (lt_wf.apply size) h

-- The byte of the sizes: the version, and the two counts of three bits.
size_byte :
    (n u : ℕ) → n < 2 ^ 3 → u < 2 ^ 3 → bit_or (bit_or (1 * 2 ^ 6) n) (u * 2 ^ 3) ≡ 64 + n + 8 * u
size_byte n u hn hu =
    let front : bit_or (1 * 2 ^ 6) n ≡ 8 * 2 ^ 3 + n =
      omega (arith, bit_or-shl 6 1 n (omega arith)) in
    rw front
      (ground (arith, bit_or_fields 3 8 n u 0 hn (omega arith), bit_or-shl 3 1 u hu, bit_or-zero n))

-- A handle whose reads deliver all the bytes asked for, or those that are left.
abbrev pub DeliversAll : {H : Type 0} → (H → ℕ → Option (List ℕ) × H) → (H → List ℕ) → Type 0
DeliversAll {H} read_diff contents =
    (stream : H) (n : ℕ)
    → (stream' : H) × (read_diff stream n ≡ (some (take n (contents stream)), stream'))
      × (contents stream' ≡ drop n (contents stream))

type_and_sizes_lem :
    (t c : ℕ) → c / 2 ^ 6 ≡ 1 → type_and_sizes 1 (104 ∷ 73 ∷ t ∷ c ∷ []) ≡ some (t, c)
unfolding type_and_sizes
type_and_sizes_lem t c e = ground arith

-- The three reads of hpatch_lite_open.
open_of_reads :
    {H : Type 0} (read_diff : H → ℕ → Option (List ℕ) × H) (t c : ℕ) (bn bu : List ℕ)
    (s0 s1 s2 s3 : H)
    → length bn ≤ 4
    → length bu ≤ 4
    → c / 2 ^ 6 ≡ 1
    → bit_and c 7 ≡ length bn
    → bit_and (c / 2 ^ 3) 7 ≡ length bu
    → read_diff s0 4 ≡ (some (104 ∷ 73 ∷ t ∷ c ∷ []), s1)
    → read_diff s1 (length bn) ≡ (some bn, s2)
    → read_diff s2 (length bu) ≡ (some bu, s3)
    → hpatch_lite_open read_diff s0 ≡ some (t, read_size bn, read_size bu, s3)
unfolding hpatch_lite_open
open_of_reads read_diff t c bn bu s0 s1 s2 s3 len_n len_u version low mid r1 r2 r3 =
    rw
      (
        r1,
        type_and_sizes_lem t c version,
        low,
        mid,
        le→ltb 4 (length bn) len_n,
        le→ltb 4 (length bu) len_u,
        r2,
        r3,
      )
      refl

-- hpatch_lite_open reads back the compress type and the two sizes that serialize_lite_diff wrote
-- into the head, and leaves the bytes behind the head, for sizes below 2 ^ 32 and a handle whose
-- reads deliver all the bytes asked for.
pub hpatch_lite_open-lite_head :
    {H : Type 0} (read_diff : H → ℕ → Option (List ℕ) × H) (contents : H → List ℕ)
    (compress_type new_size uncompress_size : ℕ) (rest : List ℕ) (diff_data : H)
    → DeliversAll read_diff contents
    → new_size < 2 ^ 32
    → uncompress_size < 2 ^ 32
    → contents diff_data ≡ lite_head compress_type new_size uncompress_size ++ rest
    → (diff_data' : H) × (hpatch_lite_open read_diff diff_data
        ≡ some (compress_type, new_size, uncompress_size, diff_data'))
      × (contents diff_data' ≡ rest)
unfolding hpatch_lite_open lite_head
hpatch_lite_open-lite_head read_diff contents t n u rest s0 all hn hu e =
    let bn : List ℕ = save_size n in
    let bu : List ℕ = save_size u in
    let len_n = length-save_size n hn in
    let len_u = length-save_size u hu in
    let c : ℕ = bit_or (bit_or (1 * 2 ^ 6) (saved_size_bytes n)) (saved_size_bytes u * 2 ^ 3) in
    let ec : c ≡ 64 + length bn + 8 * length bu =
      rw (saved_size_bytes-length n, saved_size_bytes-length u)
        (size_byte (length bn) (length bu) (omega arith) (omega arith)) in
    let low : bit_and c 7 ≡ length bn = omega (arith, bit_and-mask 3 c, ec) in
    let mid : bit_and (c / 2 ^ 3) 7 ≡ length bu = omega (arith, bit_and-mask 3 (c / 2 ^ 3), ec) in
    let version : c / 2 ^ 6 ≡ 1 = omega (arith, ec) in
    let (s1, r1, k1) = all s0 4 in
    let (s2, r2, k2) = all s1 (length bn) in
    let (s3, r3, k3) = all s2 (length bu) in
    let f1 : contents s1 ≡ bn ++ (bu ++ rest) =
      k1 ∙ ap (λ l. drop 4 l) e ∙ append_assoc bn bu rest in
    let f2 : contents s2 ≡ bu ++ rest =
      k2 ∙ ap (λ l. drop (length bn) l) f1 ∙ drop-append_of (length bn) bn (bu ++ rest) refl in
    let f3 : contents s3 ≡ rest =
      k3 ∙ ap (λ l. drop (length bu) l) f2 ∙ drop-append_of (length bu) bu rest refl in
    let g1 = r1 ∙ ap (λ l. (some (take 4 l), s1)) e in
    let g2 =
      r2
      ∙ ap (λ l. (some l, s2))
          (ap (λ l. take (length bn) l) f1 ∙ take-append_of (length bn) bn (bu ++ rest) refl) in
    let g3 =
      r3
      ∙ ap (λ l. (some l, s3))
          (ap (λ l. take (length bu) l) f2 ∙ take-append_of (length bu) bu rest refl) in
    (
      s3,
      open_of_reads read_diff t c bn bu s0 s1 s2 s3 len_n len_u version low mid g1 g2 g3
          ∙ rw (read_size-save_size n hn, read_size-save_size u hu) refl,
      f3,
    )
