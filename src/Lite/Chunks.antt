-- ===== src/Lite/Chunks.antt =====
-- Taking bytes of a source in two steps is taking them at once.
use hdiff_patch.Prelude.{
  ℕ, zero, suc, ◌+◌, ◌-◌, ◌%◌, ◌^◌, ◌≤◌, ◌<◌, ◌≡◌, refl, sym, ap, ◌∙◌, Bool, true, false, not, inl,
  inr, Bool-cases, Option, none, some, List, [], ◌∷◌, ◌++◌, arith, ltb, length, take, drop, ◌>>=◌,
  length-take, length-drop, take_add, drop-drop, lt→ltb, le→ltb, ltb→lt, ltb→le,
}
use hdiff_patch.MemPatch.{add_data}
use hdiff_patch.Lite.Spec.{Source, take_bytes, old_bytes, cover_bytes}

cut_take :
    {A : Type 0} (k n : ℕ) (xs : List A) → k ≤ n → take n xs ≡ take k xs ++ take (n - k) (drop k xs)
cut_take k n xs h = ap (λ m. take m xs) whole ∙ take_add k (n - k) xs
  where
    whole : n ≡ k + (n - k)
    whole = omega arith

cut_drop : {A : Type 0} (k n : ℕ) (xs : List A) → k ≤ n → drop n xs ≡ drop (n - k) (drop k xs)
cut_drop k n xs h = ap (λ m. drop m xs) whole ∙ sym (drop-drop k (n - k) xs)
  where
    whole : n ≡ k + (n - k)
    whole = omega arith

-- The source behind its first `k` bytes.
abbrev pub skip : (k : ℕ) → Source → Source
skip k s = record s { bytes = drop k s.bytes }

pub take_bytes-split :
    (k n : ℕ) (s : Source)
    → k ≤ n
    → k ≤ length s.bytes
    → take_bytes n s
      ≡ (take_bytes (n - k) (skip k s) >>= λ (bytes, s'). some (take k s.bytes ++ bytes, s'))
unfolding take_bytes
take_bytes-split k n s h fits = elim (Bool-cases (ltb (length s.bytes) n)) [
  | inl short ↦
      let e : ltb (length (drop k s.bytes)) (n - k) ≡ true =
        lt→ltb _ _ (omega (arith, length-drop k s.bytes, ltb→lt (length s.bytes) n short)) in
      rw (short, e) refl
  | inr enough ↦
      let e : ltb (length (drop k s.bytes)) (n - k) ≡ false =
        le→ltb _ _ (omega (arith, length-drop k s.bytes, ltb→le (length s.bytes) n enough)) in
      rw (enough, e, cut_take k n s.bytes h, cut_drop k n s.bytes h) refl
]

pub take_bytes_zero : (s : Source) → take_bytes 0 s ≡ some ([], s)
unfolding take_bytes
take_bytes_zero s = rw (le→ltb (length s.bytes) 0 (omega arith)) refl

pub take_bytes_over : (n : ℕ) (s : Source) → s.bytes ≡ [] → take_bytes (suc n) s ≡ none
unfolding take_bytes
take_bytes_over n s e =
    rw (lt→ltb (length s.bytes) (suc n) (omega (arith, ap (λ l. length l) e))) refl

pub old_bytes-split :
    (old : List ℕ) (pos k n : ℕ)
    → k ≤ n
    → old_bytes old pos n ≡ (
        old_bytes old pos k >>= λ front.
        old_bytes old (pos + k) (n - k) >>= λ bytes. some (front ++ bytes))
old_bytes-split old pos k n h = elim (Bool-cases (ltb (length old) (pos + n))) [
  | inl short ↦ elim (Bool-cases (ltb (length old) (pos + k))) [
    | inl early ↦ rw (short, early) refl
    | inr late ↦
        let e : ltb (length old) (pos + k + (n - k)) ≡ true =
          lt→ltb _ _ (omega (arith, ltb→lt (length old) (pos + n) short)) in
        rw (short, late, e) refl
  ]
  | inr enough ↦
      let e : ltb (length old) (pos + k) ≡ false =
        le→ltb _ _ (omega (arith, ltb→le (length old) (pos + n) enough)) in
      let e' : ltb (length old) (pos + k + (n - k)) ≡ false =
        le→ltb _ _ (omega (arith, ltb→le (length old) (pos + n) enough)) in
      rw (enough, e, e', sym (drop-drop pos k old)) (ap some (cut_take k n (drop pos old) h))
]

add_data-append :
    (a a' b b' : List ℕ)
    → length a ≡ length b
    → add_data (a ++ a') (b ++ b') ≡ add_data a b ++ add_data a' b'
unfolding add_data
add_data-append [] a' [] b' e = refl
add_data-append [] a' (y ∷ b) b' e = absurd (omega arith)
add_data-append (x ∷ a) a' [] b' e = absurd (omega arith)
add_data-append (x ∷ a) a' (y ∷ b) b' e =
    ap (λ t. (x + y) % 2 ^ 8 ∷ t) (add_data-append a a' b b' (omega arith))

old_bytes_zero : (old : List ℕ) (pos : ℕ) → pos ≤ length old → old_bytes old pos 0 ≡ some []
old_bytes_zero old pos h = rw (le→ltb (length old) (pos + 0) (omega arith)) refl

-- The bytes of a cover without the case of an empty one.
cover_bytes_same :
    (old : List ℕ) (pos n : ℕ) (s : Source)
    → pos ≤ length old
    → s.is_over ≡ false
    → cover_bytes old true pos n s ≡ (old_bytes old pos n >>= λ bytes. some (bytes, s))
unfolding cover_bytes
cover_bytes_same old pos zero s h open_end = rw (old_bytes_zero old pos h) refl
cover_bytes_same old pos (suc n) s h open_end = rw open_end refl

cover_bytes_added :
    (old : List ℕ) (pos n : ℕ) (s : Source)
    → pos ≤ length old
    → cover_bytes old false pos n s ≡ (
        take_bytes n s >>= λ (added, s').
        old_bytes old pos n >>= λ bytes. some (add_data bytes added, s'))
unfolding cover_bytes
cover_bytes_added old pos zero s h =
    unfold take_bytes add_data in
    rw (le→ltb (length s.bytes) 0 (omega arith)) (rw (old_bytes_zero old pos h) refl)
cover_bytes_added old pos (suc n) s h = refl

old_bytes-inside :
    (old : List ℕ) (pos k : ℕ) (front : List ℕ)
    → old_bytes old pos k ≡ some front
    → (pos + k ≤ length old) × (length front ≡ k)
old_bytes-inside old pos k front e =
    ground (arith, length-take k (drop pos old), length-drop pos old)

-- What the first `k` bytes of a cover become, and the source behind them.
abbrev pub front_bytes : Bool → (k : ℕ) → List ℕ → Source → List ℕ
front_bytes true k front s = front
front_bytes false k front s = add_data front (take k s.bytes)

abbrev pub behind : Bool → (k : ℕ) → Source → Source
behind true k s = s
behind false k s = skip k s

-- There are the bytes for `k` bytes of a cover.
abbrev pub HasFront : Bool → (k : ℕ) → Source → Type 0
HasFront true k s = s.is_over ≡ false
HasFront false k s = k ≤ length s.bytes

abbrev const_none {ℓ κ} : {A : Type ℓ} {B : Type κ} → A → Option B
const_none a = none

>>=-none {ℓ κ} :
    {A : Type ℓ} {B : Type κ} (m : Option A) → (m >>= const_none {A = A} {B = B}) ≡ none
>>=-none none = refl
>>=-none (some a) = refl

-- Adding the front and the rest apart.
abbrev prepend : List ℕ → List ℕ × Source → Option (List ℕ × Source)
prepend front (bytes, s) = some (front ++ bytes, s)

abbrev add_to : Option (List ℕ) → List ℕ × Source → Option (List ℕ × Source)
add_to old_part (added, s) = old_part >>= λ bytes. some (add_data bytes added, s)

add_in_two :
    (taken : Option (List ℕ × Source)) (more : Option (List ℕ)) (front added : List ℕ)
    → length front ≡ length added
    → ((taken >>= prepend added) >>= add_to (more >>= λ bytes. some (front ++ bytes)))
      ≡ ((taken >>= add_to more) >>= prepend (add_data front added))
add_in_two none more front added e = refl
add_in_two (some (bytes, s')) none front added e = refl
add_in_two (some (bytes, s')) (some old_rest) front added e =
    ap (λ t. some (t, s')) (add_data-append front old_rest added bytes e)

pub cover_bytes-none :
    (old : List ℕ) (same : Bool) (pos k n : ℕ) (s : Source)
    → k ≤ n
    → old_bytes old pos k ≡ none
    → 1 ≤ n
    → cover_bytes old same pos n s ≡ none
unfolding cover_bytes
cover_bytes-none old same pos k zero s h e some_n = absurd (omega arith)
cover_bytes-none old true pos k (suc n) s h e some_n =
    let none_old : old_bytes old pos (suc n) ≡ none =
      rw (old_bytes-split old pos k (suc n) h, e) refl in
    rw none_old (elim (Bool-cases (not s.is_over)) [ inl y ↦ rw y refl | inr y ↦ rw y refl ])
cover_bytes-none old false pos k (suc n) s h e some_n =
    let none_old : old_bytes old pos (suc n) ≡ none =
      rw (old_bytes-split old pos k (suc n) h, e) refl in
    rw none_old (>>=-none (take_bytes (suc n) s))

pub cover_bytes-split :
    (old : List ℕ) (same : Bool) (pos k n : ℕ) (s : Source) (front : List ℕ)
    → k ≤ n
    → length old < 2 ^ 32
    → old_bytes old pos k ≡ some front
    → HasFront same k s
    → cover_bytes old same pos n s ≡ (
        cover_bytes old same ((pos + k) % 2 ^ 32) (n - k) (behind same k s) >>= λ (bytes, s').
        some (front_bytes same k front s ++ bytes, s'))
cover_bytes-split old true pos k n s front h small e open_end =
    let (inside, _) = old_bytes-inside old pos k front e in
    let wrap : (pos + k) % 2 ^ 32 ≡ pos + k = omega arith in
    rw
      (
        wrap,
        cover_bytes_same old pos n s (omega arith) open_end,
        cover_bytes_same old (pos + k) (n - k) s inside open_end,
        old_bytes-split old pos k n h,
        e,
      )
      (ground arith)
cover_bytes-split old false pos k n s front h small e fits =
    let (inside, size) = old_bytes-inside old pos k front e in
    let wrap : (pos + k) % 2 ^ 32 ≡ pos + k = omega arith in
    rw
      (
        wrap,
        cover_bytes_added old pos n s (omega arith),
        cover_bytes_added old (pos + k) (n - k) (skip k s) inside,
        old_bytes-split old pos k n h,
        take_bytes-split k n s h fits,
        e,
      )
      (add_in_two (take_bytes (n - k) (skip k s)) (old_bytes old (pos + k) (n - k)) front
        (take k s.bytes) (omega (arith, length-take k s.bytes)))
