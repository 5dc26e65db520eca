-- ===== src/RleStream/Spec.antt =====
-- The bytes that a run-length code has left, as one list.
use hdiff_patch.Prelude.{
  ℕ, zero, suc, ◌+◌, ◌-◌, ◌/◌, ◌%◌, ◌^◌, ◌≤◌, ◌<◌, ◌≡◌, refl, sym, ap, ◌∙◌, inl, inr, Bool, false,
  ◌&&◌, not, Option, none, some, List, [], ◌∷◌, ◌++◌, arith, ltb, ◌==◌, if◌then◌else◌, length, take,
  drop, replicate, ◌>>=◌, Bool-cases, length-append, length-take, length-drop, length-replicate,
  append_assoc, take_add, drop-drop, take-append-drop, lt→ltb, le→ltb, ltb→lt, ltb→le,
  replicate_add, take-append_of, drop-append_of, take-take, drop-take,
}
use hdiff_patch.Varint.{unpack_within, max_packed_uint_bytes}
use hdiff_patch.Rle.{ByteRleType, rle0, rle255, rle, unrle, byte_rle_type, byte_rle_type_bit}
use hdiff_patch.MemPatch.{is_empty, add_data}

-- The numbers of a loader, and the control and data bytes that it has left.
pub record Pending : Type 0 where
  pub copy_length : ℕ
  pub set_length : ℕ
  pub set_value : ℕ
  pub ctrl : List ℕ
  pub code : List ℕ

-- A run of a type, from the data bytes.
unfoldable pub start_run : ByteRleType → (n : ℕ) (ctrl code : List ℕ) → Option Pending
start_run rle0 n ctrl code =
    some (record { copy_length = 0; set_length = n; set_value = 0; ctrl = ctrl; code = code })
start_run rle255 n ctrl code =
    some (record { copy_length = 0; set_length = n; set_value = 255; ctrl = ctrl; code = code })
start_run rle n ctrl [] = none
start_run rle n ctrl (x ∷ code) =
    some (record { copy_length = 0; set_length = n; set_value = x; ctrl = ctrl; code = code })
start_run unrle n ctrl code =
    some (record { copy_length = n; set_length = 0; set_value = 0; ctrl = ctrl; code = code })

-- The run of the first control byte.
unfoldable pub read_run : (byte : ℕ) (ctrl code : List ℕ) → Option Pending
unfolding start_run
read_run byte ctrl code =
    unpack_within max_packed_uint_bytes (byte ∷ ctrl) byte_rle_type_bit >>= λ (len, ctrl').
    start_run (byte_rle_type (byte / 2 ^ (8 - byte_rle_type_bit))) ((len + 1) % 2 ^ 64) ctrl' code

-- Bytes, and whether the code ends where they do.
abbrev pub Bytes : Type 0
Bytes = List ℕ × Bool

abbrev pub before : List ℕ → Bytes → Bytes
before front (bytes, ends) = (front ++ bytes, ends)

-- `n` data bytes are copied, as far as there are some.
abbrev pub with_copy : (n : ℕ) (code : List ℕ) → (List ℕ → Bytes) → Bytes
with_copy n code others =
    if ltb (length code) n then (code, false) else before (take n code) (others (drop n code))

-- Control bytes that stand for nothing leave the code unfinished.
abbrev pub unfinished : Bytes → Bytes
unfinished (bytes, ends) = (bytes, ends && not (is_empty bytes))

abbrev pub cons_cases {ℓ} : {A : Type ℓ} → Option Pending → A → (Pending → A) → A
cons_cases none a f = a
cons_cases (some p) a f = f p

-- The bytes of the runs that the control bytes stand for. A run takes a control byte at least.
unfoldable pub runs_left : (fuel : ℕ) (ctrl code : List ℕ) → Bytes
runs_left fuel [] code = ([], length code == 0)
runs_left zero (byte ∷ ctrl) code = ([], false)
runs_left (suc fuel) (byte ∷ ctrl) code =
    cons_cases (read_run byte ctrl code) ([], false)
      λ p. unfinished (
        before (replicate p.set_length p.set_value)
          (with_copy p.copy_length p.code λ code'. runs_left fuel p.ctrl code'))

-- All the bytes that a loader has left.
unfoldable pub bytes_left : (fuel : ℕ) → Pending → Bytes
unfolding runs_left
bytes_left fuel p =
    before (replicate p.set_length p.set_value)
      (with_copy p.copy_length p.code λ code'. runs_left fuel p.ctrl code')

-- What of a list of bytes is behind the first `n`.
abbrev pub behind : ℕ → Bytes → Bytes
behind n (bytes, ends) = (drop n bytes, ends)

-- The first `n` bytes of a run of one value.
pub behind-set :
    (n k value : ℕ) (bytes : Bytes)
    → n ≤ k
    → (behind n (before (replicate k value) bytes) ≡ before (replicate (k - n) value) bytes)
      × (take n (before (replicate k value) bytes).0 ≡ replicate n value)
behind-set n k value (bytes, ends) h =
    let parts : n + (k - n) ≡ k = omega arith in
    let split : replicate k value ++ bytes
        ≡ replicate n value ++ (replicate (k - n) value ++ bytes) =
      ap (λ j. replicate j value ++ bytes) (sym parts)
      ∙ ap (λ l. l ++ bytes) (sym (replicate_add n (k - n) value))
      ∙ append_assoc (replicate n value) (replicate (k - n) value) bytes in
    let size = length-replicate n value in
    (
      ap (λ l. (l, ends)) (ap (λ l. drop n l) split ∙ drop-append_of n (replicate n value) _ size),
      ap (λ l. take n l) split ∙ take-append_of n (replicate n value) _ size,
    )

-- The first `n` bytes of a copied run.
pub behind-copy :
    (n k : ℕ) (code : List ℕ) (others : List ℕ → Bytes)
    → n ≤ k
    → n ≤ length code
    → (behind n (with_copy k code others) ≡ with_copy (k - n) (drop n code) others)
      × (take n (with_copy k code others).0 ≡ take n code)
      × (n ≤ length (with_copy k code others).0)
behind-copy n k code others h there = elim (Bool-cases (ltb (length code) k)) [
  | inl short ↦
      let few = ltb→lt (length code) k short in
      rw (short, lt→ltb (length (drop n code)) (k - n) (omega (arith, length-drop n code)))
        (refl, refl, there)
  | inr enough ↦
      let many = ltb→le (length code) k enough in
      let size = length-take k code in
      let parts : n + (k - n) ≡ k = omega arith in
      let front : take k code ≡ take n code ++ take (k - n) (drop n code) =
        ap (λ j. take j code) (sym parts) ∙ take_add n (k - n) code in
      let first_part : length (take n code) ≡ n = omega (arith, length-take n code) in
      let rest = (others (drop k code)).0 in
      let whole : take k code ++ rest ≡ take n code ++ (take (k - n) (drop n code) ++ rest) =
        ap (λ l. l ++ rest) front ∙ append_assoc (take n code) (take (k - n) (drop n code)) rest in
      let back : drop (k - n) (drop n code) ≡ drop k code =
        drop-drop n (k - n) code ∙ ap (λ j. drop j code) parts in
      rw (enough, le→ltb (length (drop n code)) (k - n) (omega (arith, length-drop n code)), back)
        (
          ap (λ l. (l, (others (drop k code)).1))
              (ap (λ l. drop n l) whole ∙ drop-append_of n (take n code) _ first_part),
          ap (λ l. take n l) whole ∙ take-append_of n (take n code) _ first_part,
          omega (arith, length-append (take k code) rest),
        )
]

-- A copied run that lacks data bytes.
pub copy_short :
    (n k : ℕ) (code : List ℕ) (others : List ℕ → Bytes)
    → n ≤ k
    → length code < n
    → length (with_copy k code others).0 < n
copy_short n k code others h few = rw (lt→ltb (length code) k (omega arith)) few

add_data-nil : (dst : List ℕ) → add_data dst [] ≡ dst
unfolding add_data
add_data-nil [] = refl
add_data-nil (d ∷ dst) = refl

-- Adding in two steps.
pub add_data_add :
    (n : ℕ) (dst src : List ℕ)
    → add_data (take n dst) (take n src) ++ add_data (drop n dst) (drop n src) ≡ add_data dst src
unfolding add_data
add_data_add zero dst src = refl
add_data_add (suc n) [] src = refl
add_data_add (suc n) (d ∷ dst) [] =
    ap (◌∷◌ d) (ap (λ l. take n dst ++ l) (add_data-nil (drop n dst)) ∙ take-append-drop n dst)
add_data_add (suc n) (d ∷ dst) (s ∷ src) = ap (◌∷◌ ((d + s) % 2 ^ 8)) (add_data_add n dst src)

-- Adding the first `m + n` bytes in two steps.
pub both_parts :
    (m n : ℕ) (dst src : List ℕ)
    → add_data (take m dst) (take m src) ++ add_data (take n (drop m dst)) (take n (drop m src))
      ≡ add_data (take (m + n) dst) (take (m + n) src)
both_parts m n dst src =
    rw (← take-take m n dst, ← take-take m n src, ← drop-take m n dst, ← drop-take m n src)
      (add_data_add m (take (m + n) dst) (take (m + n) src))
