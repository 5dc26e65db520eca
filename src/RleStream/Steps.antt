-- ===== src/RleStream/Steps.antt =====
-- The steps of a decoding take the next bytes of what the loader has left.
use hdiff_patch.Prelude.{
  ℕ, zero, suc, ◌+◌, ◌-◌, ◌%◌, ◌^◌, ◌≤◌, ◌<◌, ◌≡◌, refl, sym, ap, ◌∙◌, subst, ◌⊎◌, inl, inr, Option,
  none, some, List, [], ◌∷◌, ◌++◌, arith, ◌==◌, if◌then◌else◌, length, take, drop, replicate, All,
  Bool-cases, length-take, length-replicate, length-drop, append_assoc, append-nil, drop-drop,
}
use hdiff_patch.MemPatch.{add_data}
use hdiff_patch.Clip.{Clip, at_most}
use hdiff_patch.Clip.Reads.{Serves, IsClip, at_most_lem}
use hdiff_patch.RleStream.{Loader, Decoding, mem_set_add, mem_set_part}
use hdiff_patch.RleStream.Spec.{
  Pending, Bytes, behind, with_copy, runs_left, bytes_left, behind-set, both_parts,
}

abbrev pub pending : {H : Type 0} → Loader H → (ctrl code : List ℕ) → Pending
pending l ctrl code = record {
  copy_length = l.mem_copy_length;
  set_length = l.mem_set_length;
  set_value = l.mem_set_value;
  ctrl = ctrl;
  code = code;
}

-- A loader with caches of `size` bytes that has the bytes `left`.
pub record IsLoader {H : Type 0} (Left : H → ℕ → List ℕ → Type 0) (size : ℕ) (l : Loader H)
    (left : Bytes) : Type 0 where
  pub ctrl : List ℕ
  pub code : List ℕ
  pub fuel : ℕ
  pub ctrl_holds : IsClip Left size l.ctrl_clip ctrl
  pub code_holds : IsClip Left size l.rle_code_clip code
  pub enough : length ctrl ≤ fuel
  pub bytes_are : bytes_left fuel (pending l ctrl code) ≡ left

-- The next `count` bytes are added to the buffer.
pub record Settled {H : Type 0} (Left : H → ℕ → List ℕ → Type 0) (size : ℕ) (s s' : Decoding H)
    (left : Bytes) : Type 0 where
  pub count : ℕ
  pub there : count ≤ length left.0
  pub fits : count ≤ s.decode_size
  pub size_is : s'.decode_size ≡ s.decode_size - count
  pub out_is : s'.out_data ≡ drop count s.out_data
  pub settled_is : s'.settled ≡ s.settled ++ add_data (take count s.out_data) (take count left.0)
  pub loads : IsLoader Left size s'.loader (behind count left)

abbrev pub AreBytes : List ℕ → Type 0
AreBytes bytes = All (λ b. b < 2 ^ 8) bytes

set_some :
    (n : ℕ) (dst : List ℕ) (value : ℕ)
    → mem_set_add (take n dst) value ≡ add_data (take n dst) (replicate n value)
unfolding add_data mem_set_add
set_some zero dst value = refl
set_some (suc n) [] value = refl
set_some (suc n) (d ∷ dst) value = ap (◌∷◌ ((d + value) % 2 ^ 8)) (set_some n dst value)

-- Adding 0 leaves bytes as they are.
set_none :
    (n : ℕ) (dst : List ℕ) → AreBytes dst → take n dst ≡ add_data (take n dst) (replicate n 0)
unfolding add_data
set_none zero dst h = refl
set_none (suc n) [] h = refl
set_none (suc n) (d ∷ dst) (small, h) =
    let same : d ≡ (d + 0) % 2 ^ 8 = omega arith in
    ap (λ b. b ∷ take n dst) same ∙ ap (◌∷◌ ((d + 0) % 2 ^ 8)) (set_none n dst h)

set_bytes :
    (n : ℕ) (dst : List ℕ) (value : ℕ)
    → AreBytes dst
    → (if value == 0 then take n dst else mem_set_add (take n dst) value)
      ≡ add_data (take n dst) (replicate n value)
set_bytes n dst value h = elim (Bool-cases (value == 0)) [
  | inl e ↦ let nil : value ≡ 0 = ground arith in rw (nil) (set_none n dst h)
  | inr e ↦ rw e (set_some n dst value)
]

module _ {H : Type 0} (read : H → ℕ → ℕ → Option (List ℕ × H)) (Left : H → ℕ → List ℕ → Type 0)
    (serves : Serves read Left) (size : ℕ) where
  pub stays :
      (s : Decoding H) (left : Bytes)
      → IsLoader Left size s.loader left
      → Settled Left size s s left
  unfolding add_data
  stays s left h = record {
    count = 0;
    there = omega arith;
    fits = omega arith;
    size_is = omega arith;
    out_is = refl;
    settled_is = sym (append-nil s.settled);
    loads = h;
  }

  pub then-Settled :
      (s s' s'' : Decoding H) (left : Bytes)
      → (a : Settled Left size s s' left) → Settled Left size s' s'' (behind a.count left)
      → Settled Left size s s'' left
  then-Settled s s' s'' (bytes, ends) a b =
      let m : ℕ = a.count in
      let n : ℕ = b.count in
      record {
        count = m + n;
        there = omega (arith, a.there, b.there, length-drop m bytes);
        fits = omega (arith, a.fits, b.fits, a.size_is);
        size_is = omega (arith, a.size_is, b.size_is, b.fits);
        out_is = b.out_is ∙ ap (λ l. drop n l) a.out_is ∙ drop-drop m n s.out_data;
        settled_is =
            b.settled_is
            ∙ ap (λ l. l ++ add_data (take n s'.out_data) (take n (drop m bytes))) a.settled_is
            ∙ append_assoc s.settled (add_data (take m s.out_data) (take m bytes))
                (add_data (take n s'.out_data) (take n (drop m bytes)))
            ∙ ap (λ l. s.settled ++ l)
                (ap
                    (λ o.
                      add_data (take m s.out_data) (take m bytes)
                      ++ add_data (take n o) (take n (drop m bytes)))
                    a.out_is
                  ∙ both_parts m n s.out_data bytes);
        loads = subst (λ l. IsLoader Left size s''.loader (l, ends)) (drop-drop m n bytes) b.loads;
      }

  -- `if (memSetLength!=0)`: behind it nothing is left to do, or nothing of the run.
  pub mem_set_part-Settled :
      (s : Decoding H) (left : Bytes)
      → IsLoader Left size s.loader left
      → AreBytes s.out_data
      → Settled Left size s (mem_set_part read s) left
        × (((mem_set_part read s).decode_size ≡ 0)
            ⊎ ((mem_set_part read s).loader.mem_set_length ≡ 0))
        × ((mem_set_part read s).loader.ctrl_clip ≡ s.loader.ctrl_clip)
  unfolding mem_set_part bytes_left
  mem_set_part-Settled s left h bytes = elim (Bool-cases (s.loader.mem_set_length == 0)) [
    | inl none_set ↦ rw none_set (stays s left h, inr (ground arith), refl)
    | inr some_set ↦
        let n : ℕ = at_most s.loader.mem_set_length s.decode_size in
        let n_is = at_most_lem s.loader.mem_set_length s.decode_size in
        let others =
          with_copy s.loader.mem_copy_length h.code (λ code'. runs_left h.fuel h.ctrl code') in
        let (back, front) =
          behind-set n s.loader.mem_set_length s.loader.mem_set_value others (omega arith) in
        let first : take n left.0 ≡ replicate n s.loader.mem_set_value =
          ap (λ (l : Bytes). take n l.0) (sym h.bytes_are) ∙ front in
        rw some_set (
          record {
            count = n;
            there = omega (
              arith,
              ap (λ l. length l) first,
              length-take n left.0,
              length-replicate n s.loader.mem_set_value,
            );
            fits = omega arith;
            size_is = refl;
            out_is = refl;
            settled_is =
                ap (λ l. s.settled ++ l)
                  (set_bytes n s.out_data s.loader.mem_set_value bytes
                    ∙ ap (λ l. add_data (take n s.out_data) l) (sym first));
            loads = record {
              ctrl = h.ctrl;
              code = h.code;
              fuel = h.fuel;
              ctrl_holds = h.ctrl_holds;
              code_holds = h.code_holds;
              enough = h.enough;
              bytes_are = sym back ∙ ap (λ l. behind n l) h.bytes_are;
            };
          },
          ground (arith, n_is),
          refl,
        )
  ]

  -- A step either fails, where the loader has too few bytes left, or settles bytes and holds `P`.
  abbrev pub Outcome :
      (s : Decoding H) (left : Bytes) → Option (Decoding H) → (Decoding H → Type 0) → Type 0
  Outcome s left result P =
      ((result ≡ none) × (length left.0 < s.decode_size))
      ⊎ ((s' : Decoding H) × (result ≡ some s') × Settled Left size s s' left × P s')

  -- The state behind a call of mem_add: nothing left to decode, or nothing of the run; the control
  -- bytes are those of before.
  abbrev pub RunDone : Clip H → Decoding H → Type 0
  RunDone clip s =
      ((s.decode_size ≡ 0) ⊎ ((s.loader.mem_set_length ≡ 0) × (s.loader.mem_copy_length ≡ 0)))
      × (s.loader.ctrl_clip ≡ clip)

  pub after :
      {P : Decoding H → Type 0} (s s' : Decoding H) (left : Bytes) (result : Option (Decoding H))
      → (a : Settled Left size s s' left) → Outcome s' (behind a.count left) result P
      → Outcome s left result P
  after s s' (bytes, ends) result a (inl (fails, few)) =
      inl (fails, omega (arith, a.size_is, a.fits, a.there, length-drop a.count bytes))
  after s s' left result a (inr (s'', e, b, p)) = inr (s'', e, then-Settled s s' s'' left a b, p)
