-- ===== src/Lite/Cache.antt =====
-- The cache of hpatch_lite_patch is transparent: reading through it is reading the whole diff.
use hdiff_patch.Prelude.{
  subst, ℕ, zero, suc, ◌/◌, ◌≤◌, ◌≡◌, refl, sym, ap, ◌∙◌, ◌⊎◌, inl, inr, Bool, true, false, not,
  some, List, [], ◌∷◌, ◌++◌, arith, ◌==◌, if◌then◌else◌, length, bit_and, bit_or, length-append,
}
use hdiff_patch.Prelude.Related.{Related}
use hdiff_patch.Lite.{
  Listener, InputCache, fill, cache_update, next_byte, read_or_update, cache_read_1byte,
  cache_unpack_uint,
}
use hdiff_patch.Lite.Spec.{Source, read_byte, read_uint, old_bytes}

-- What hpatch_lite_patch relies on: `contents` is what the diff handle has left, and `written` what
-- the new data has so far. A read that asks for bytes where some are left gets one at least.
pub record IsServed {H W : Type 0} (listener : Listener H W) (contents : H → List ℕ)
    (written : W → List ℕ) (old : List ℕ) : Type 0 where
  pub reads :
      (stream : H) (n : ℕ)
      → (bytes : List ℕ) × (stream' : H) × (listener.read_diff stream n ≡ (some bytes, stream'))
        × (contents stream ≡ bytes ++ contents stream')
        × (length bytes ≤ n)
        × (1 ≤ n → 1 ≤ length (contents stream) → 1 ≤ length bytes)
  pub reads_old : (pos n : ℕ) → listener.read_old pos n ≡ old_bytes old pos n
  pub writes :
      (out : W) (bytes : List ℕ)
      → (out' : W) × (listener.write_new out bytes ≡ some out')
        × (written out' ≡ written out ++ bytes)

le→not== : (n : ℕ) → 1 ≤ n → not (n == 0) ≡ true
le→not== n h = ground arith

list_cases : (xs : List ℕ) → (xs ≡ []) ⊎ ((x : ℕ) × (ys : List ℕ) × (xs ≡ x ∷ ys))
list_cases [] = inl refl
list_cases (x ∷ xs) = inr (x, xs, refl)

module _ {H W : Type 0} (listener : Listener H W) (contents : H → List ℕ) (written : W → List ℕ)
    (old : List ℕ) (served : IsServed listener contents written old) where
  -- cache_end is 0 exactly when a byte was asked for behind the end.
  abbrev pub EndFits : (cache_end : ℕ) → Bool → List ℕ → Type 0
  EndFits cache_end is_over bytes =
      ((cache_end ≡ 0) × (is_over ≡ true) × (bytes ≡ [])) ⊎ ((1 ≤ cache_end) × (is_over ≡ false))

  -- A cache with the bytes of a source before it.
  abbrev pub Reads : InputCache H → Source → Type 0
  Reads c s =
      (c.unread ++ contents c.input_stream ≡ s.bytes) × EndFits c.cache_end s.is_over s.bytes

  abbrev pub over : Source
  over = record { bytes = []; is_over = true }

  -- An update of an empty cache: there are bytes in it, or the source has none.
  abbrev pub Updated : Source → Bool × InputCache H → Type 0
  Updated s (ok, c) =
      ((ok ≡ true) × Reads c s × (1 ≤ length c.unread) × (s.is_over ≡ false))
      ⊎ ((ok ≡ false) × Reads c over × (s.bytes ≡ []) × (c.unread ≡ []))

  fill-Updated :
      (s : Source) (bytes : List ℕ) (stream : H)
      → bytes ++ contents stream ≡ s.bytes
      → (1 ≤ length s.bytes → 1 ≤ length bytes)
      → (1 ≤ length s.bytes → s.is_over ≡ false)
      → Updated s (fill listener (some bytes, stream))
  unfolding fill
  fill-Updated s [] stream e some_left open_end = elim (list_cases s.bytes) [
    | inl empty ↦ inr (refl, (e ∙ empty, inl (refl, refl, refl)), empty, refl)
    | inr (x, xs, e') ↦ absurd (omega (arith, some_left (omega (arith, ap (λ l. length l) e'))))
  ]
  fill-Updated s (b ∷ bytes) stream e some_left open_end =
      let is_open =
        open_end
          (omega (arith, ap (λ l. length l) e, length-append (b ∷ bytes) (contents stream))) in
      inl (
        le→not== (length (b ∷ bytes)) (omega arith),
        (e, inr (omega arith, is_open)),
        omega arith,
        is_open,
      )

  pub cache_update-Updated :
      (c : InputCache H) (s : Source)
      → Reads c s
      → c.unread ≡ []
      → Updated s (cache_update listener c)
  unfolding cache_update
  cache_update-Updated c s (e, fits) empty =
      let (bytes, stream, e1, e2, e3, e4) = served.reads c.input_stream c.cache_end in
      let whole : contents c.input_stream ≡ s.bytes = rw empty at e in
      rw e1 (
        fill-Updated s bytes stream (sym e2 ∙ whole) (λ k. (left bytes e4 whole fits k).0)
          (λ k. (left bytes e4 whole fits k).1))
    where
      left :
          (bytes : List ℕ)
          → (1 ≤ c.cache_end → 1 ≤ length (contents c.input_stream) → 1 ≤ length bytes)
          → contents c.input_stream ≡ s.bytes
          → EndFits c.cache_end s.is_over s.bytes
          → 1 ≤ length s.bytes
          → (1 ≤ length bytes) × (s.is_over ≡ false)
      left bytes k whole (inl (_, _, none_left)) some_left =
          absurd (omega (arith, ap (λ l. length l) none_left))
      left bytes k whole (inr (open_end, not_over)) some_left =
          (k open_end (rw whole some_left), not_over)

  -- A source with bytes left is not over.
  pub open_of :
      (n : ℕ) (is_over : Bool) (bytes : List ℕ)
      → EndFits n is_over bytes
      → 1 ≤ length bytes
      → (1 ≤ n) × (is_over ≡ false)
  open_of n is_over bytes (inl (_, _, empty)) h = absurd (omega (arith, ap (λ l. length l) empty))
  open_of n is_over bytes (inr open_end) h = open_end

  -- A byte of the cache is the first byte of the source.
  pub first_byte-Reads :
      (c : InputCache H) (s : Source) (b : ℕ) (bytes : List ℕ)
      → Reads c s
      → c.unread ≡ b ∷ bytes
      → (b ≡ (read_byte s).0) × Reads (record c { unread = bytes }) (read_byte s).1
  unfolding read_byte
  first_byte-Reads c s b bytes (e, fits) eb =
      let whole : b ∷ (bytes ++ contents c.input_stream) ≡ s.bytes = rw eb at e in
      let is_open =
        open_of c.cache_end s.is_over s.bytes fits (omega (arith, ap (λ l. length l) whole)) in
      rw (sym whole) (refl, (refl, inr is_open))

  after_update :
      (c : InputCache H) (s : Source) (ok : Bool)
      → Updated s (ok, c)
      → let r = if ok then next_byte listener c c.unread else (0, c) in
        (r.0 ≡ (read_byte s).0) × Reads r.1 (read_byte s).1
  unfolding next_byte
  after_update c s ok (inl (e, r, some_read, _)) = elim (list_cases c.unread) [
    | inl empty ↦ absurd (omega (arith, ap (λ l. length l) empty))
    | inr (b, bytes, eb) ↦ rw (e, eb) (first_byte-Reads c s b bytes r eb)
  ]
  after_update c s ok (inr (e, r, empty, _)) = unfold read_byte in rw (e, empty) (refl, r)

  read_or_update-Reads :
      (c : InputCache H) (s : Source) (unread : List ℕ)
      → c.unread ≡ unread
      → Reads c s
      → ((read_or_update listener c unread).0 ≡ (read_byte s).0)
        × Reads (read_or_update listener c unread).1 (read_byte s).1
  unfolding read_or_update
  read_or_update-Reads c s [] empty h =
      let (ok, c') = cache_update listener c in
      after_update c' s ok (cache_update-Updated c s h empty)
  read_or_update-Reads c s (b ∷ bytes) eb h = first_byte-Reads c s b bytes h eb

  -- A byte read through the cache.
  pub cache_read_1byte-Reads :
      (c : InputCache H) (s : Source)
      → Reads c s
      → ((cache_read_1byte listener c).0 ≡ (read_byte s).0)
        × Reads (cache_read_1byte listener c).1 (read_byte s).1
  unfolding cache_read_1byte
  cache_read_1byte-Reads c s h = read_or_update-Reads c s c.unread refl h

  abbrev pub SameNumber : ℕ × InputCache H → ℕ × Source → Type 0
  SameNumber (v, c) (w, s) = (v ≡ w) × Reads c s

  same_numbers :
      (fuel : ℕ) (v w b b' : ℕ) (c : InputCache H) (s : Source)
      → b ≡ b'
      → ((v n : ℕ)
          → Related SameNumber (cache_unpack_uint listener fuel c v n) (read_uint fuel s v n))
      → Related SameNumber
          (cache_unpack_uint listener fuel c (bit_or v (bit_and b 127)) (b / w))
          (read_uint fuel s (bit_or v (bit_and b' 127)) (b' / w))
  same_numbers fuel v w b b' c s e h =
      subst
        (λ x.
          Related SameNumber (cache_unpack_uint listener fuel c (bit_or v (bit_and b 127)) (b / w))
            (read_uint fuel s (bit_or v (bit_and x 127)) (x / w)))
        e (h _ _)

  -- A number read through the cache.
  pub cache_unpack_uint-Reads :
      (fuel : ℕ) (c : InputCache H) (s : Source) (v is_next : ℕ)
      → Reads c s
      → Related SameNumber
          (cache_unpack_uint listener fuel c v is_next)
          (read_uint fuel s v is_next)
  unfolding cache_unpack_uint read_uint
  cache_unpack_uint-Reads fuel c s v zero h = (refl, h)
  cache_unpack_uint-Reads zero c s v (suc is_next) h = tt
  cache_unpack_uint-Reads (suc fuel) c s v (suc is_next) h =
      let (same_byte, h') = cache_read_1byte-Reads c s h in
      same_numbers fuel _ _ _ _ _ _ same_byte λ v n. cache_unpack_uint-Reads fuel _ _ v n h'
