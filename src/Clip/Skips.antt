-- ===== src/Clip/Skips.antt =====
-- Reading, skipping and adding more bytes than the cache holds at once.
use hdiff_patch.Prelude.{
  ℕ, zero, suc, ◌+◌, ◌-◌, ◌≤◌, ◌<◌, ◌≡◌, refl, ap, ◌∙◌, inl, inr, Option, none, some, List, ◌++◌,
  arith, ltb, length, take, drop, ◌>>=◌, min, Bool-cases, length-append, length-drop,
  take-append_of, drop-append_of, take_add, drop-drop, lt→ltb, le→ltb, ltb→lt, ltb→le,
}
use hdiff_patch.Prelude.Related.{Related, Related-right}
use hdiff_patch.MemPatch.{cut}
use hdiff_patch.Clip.{Clip, at_most, skip_data_no_check, read_data, skip_data}
use hdiff_patch.Clip.Reads.{
  Serves, IsClip, at_most_lem, access_data-some, access_data-none, skip-IsClip,
}

-- Cutting in two steps.
pub cut-cut :
    (m n : ℕ) (xs : List ℕ)
    → m ≤ length xs
    → cut (m + n) xs ≡ (cut n (drop m xs) >>= λ (bytes, rest). some (take m xs ++ bytes, rest))
unfolding cut
cut-cut m n xs h = elim (Bool-cases (ltb (length (drop m xs)) n)) [
  | inl short ↦
      rw
        (
          short,
          lt→ltb (length xs) (m + n)
              (omega (arith, length-drop m xs, ltb→lt (length (drop m xs)) n short)),
        )
        refl
  | inr enough ↦
      rw
        (
          enough,
          le→ltb (length xs) (m + n)
              (omega (arith, length-drop m xs, ltb→le (length (drop m xs)) n enough)),
          take_add m n xs,
          drop-drop m n xs,
        )
        refl
]

pub cut-some : (n : ℕ) (xs : List ℕ) → n ≤ length xs → cut n xs ≡ some (take n xs, drop n xs)
unfolding cut
cut-some n xs h = rw (le→ltb (length xs) n h) refl

pub cut-none : (n : ℕ) (xs : List ℕ) → length xs < n → cut n xs ≡ none
unfolding cut
cut-none n xs h = rw (lt→ltb (length xs) n h) refl

-- Cutting off just the front part.
pub cut-append_of : (n : ℕ) (xs ys : List ℕ) → length xs ≡ n → cut n (xs ++ ys) ≡ some (xs, ys)
unfolding cut
cut-append_of n xs ys e =
    rw
      (
        le→ltb (length (xs ++ ys)) n (omega (arith, length-append xs ys)),
        take-append_of n xs ys e,
        drop-append_of n xs ys e,
      )
      refl

module _ {H : Type 0} (read : H → ℕ → ℕ → Option (List ℕ × H)) (Left : H → ℕ → List ℕ → Type 0)
    (serves : Serves read Left) where
  pub read_data-some :
      {size : ℕ} {c : Clip H} {rest : List ℕ} (n : ℕ)
      → IsClip Left size c rest
      → n ≤ size
      → n ≤ length rest
      → (c' : Clip H) × (read_data read c n ≡ some (take n rest, c'))
        × IsClip Left size c' (drop n rest)
  unfolding read_data
  read_data-some {size} {c} {rest} n h fits enough =
      let (c', e, h', there) = access_data-some read Left serves n h fits enough in
      let (h'', bytes) = skip-IsClip read Left serves n h' there in
      (skip_data_no_check read c' n, rw (e, bytes) refl, h'')

  pub read_data-none :
      {size : ℕ} {c : Clip H} {rest : List ℕ} (n : ℕ)
      → IsClip Left size c rest
      → length rest < n
      → read_data read c n ≡ none
  unfolding read_data
  read_data-none n h short = rw (access_data-none read Left serves n h short) refl

  abbrev pub Skipped : ℕ → Clip H → List ℕ × List ℕ → Type 0
  Skipped size c (bytes, rest) = IsClip Left size c rest

  -- _TStreamCacheClip_skipData drops `n` bytes or fails where there are fewer, when the cache has
  -- room for a byte at least.
  pub skip_data-cut :
      (fuel : ℕ) {size : ℕ} {c : Clip H} {rest : List ℕ} (n : ℕ)
      → IsClip Left size c rest
      → 0 < size
      → n ≤ fuel
      → Related (Skipped size) (skip_data read fuel c n) (cut n rest)
  unfolding skip_data
  skip_data-cut fuel {size} {c} {rest} zero h room enough = rw (cut-some zero rest (omega arith)) h
  skip_data-cut zero (suc n) h room enough = absurd (omega arith)
  skip_data-cut (suc fuel) {size} {c} {rest} (suc n) h room enough =
      let len : ℕ = at_most c.cache_end (suc n) in
      let len_is : len ≡ min (suc n) c.cache_end = omega (arith, at_most_lem c.cache_end (suc n)) in
      let size_is = h.cache_size in
      elim (Bool-cases (ltb (length rest) len)) [
        | inl short ↦
            let few = ltb→lt (length rest) len short in
            rw (access_data-none read Left serves len h few, cut-none (suc n) rest (omega arith)) tt
        | inr there ↦
            let (c', e, h', cached) =
              access_data-some read Left serves len h (omega arith)
                (ltb→le (length rest) len there) in
            let (h'', _) = skip-IsClip read Left serves len h' cached in
            let parts : suc n ≡ len + (suc n - len) = omega arith in
            let split : cut (suc n) rest ≡ (
                cut (suc n - len) (drop len rest) >>= λ (bytes, rest').
                some (take len rest ++ bytes, rest')) =
              ap (λ k. cut k rest) parts
              ∙ cut-cut len (suc n - len) rest (ltb→le (length rest) len there) in
            rw (e, split)
              (Related-right (Skipped size) (Skipped size)
                (skip_data read fuel (skip_data_no_check read c' len) (suc n - len))
                (cut (suc n - len) (drop len rest)) _
                (skip_data-cut fuel (suc n - len) h'' room (omega arith))
                (λ c'' (bytes, rest') k. k))
      ]
