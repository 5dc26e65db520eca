-- ===== src/PatchStream/Parts.antt =====
-- What a round on lists consists of, when it succeeds.
use hdiff_patch.Prelude.{
  ℕ, ◌+◌, ◌-◌, ◌≤◌, ◌≡◌, refl, sym, ap, ◌∙◌, subst, inl, inr, Bool, true, false, not, Option, none,
  some, List, [], ◌++◌, arith, ltb, length, take, drop, check, Bool-cases, >>=-eq-some, ltb→le,
}
use hdiff_patch.MemPatch.{cut, add_data}
use hdiff_patch.MemPatch.Serialize.{Cover}
use hdiff_patch.PatchStream.Spec.{Lists, Codes, list_cover, list_round}
use hdiff_patch.PatchStream.Adds.{part}

pub check-true : (b : Bool) (u : Unit {0}) → check b ≡ some u → b ≡ true
check-true true u e = refl
check-true false u e = absurd (ground (arith, e))

pub cut-parts :
    (n : ℕ) (xs bytes rest : List ℕ)
    → cut n xs ≡ some (bytes, rest)
    → (n ≤ length xs) × (bytes ≡ take n xs) × (rest ≡ drop n xs)
unfolding cut
cut-parts n xs bytes rest e = elim (Bool-cases (ltb (length xs) n)) [
  | inl short ↦ absurd (ground (arith, rw short at e))
  | inr there ↦
      (ltb→le (length xs) n there, ground (arith, rw there at e), ground (arith, rw there at e))
]

-- The lists behind a cover.
abbrev pub leaving : Lists → Cover → Codes → (news deltas : List ℕ) → Lists
leaving l c codes news deltas = record {
  lengths = codes.lengths;
  inc_new = codes.inc_new;
  inc_old = codes.inc_old;
  news = news;
  deltas = deltas;
  ends = l.ends;
  old_pos_back = c.old_pos;
  new_pos_back = c.new_pos + c.len;
}

abbrev pub behind_cover : Lists → Cover → Codes → Lists
behind_cover l c codes =
    leaving l c codes (drop (c.new_pos - l.new_pos_back) l.news)
      (drop c.len (drop (c.new_pos - l.new_pos_back) l.deltas))

abbrev bytes_of : Option (List ℕ × Lists) → List ℕ
bytes_of none = []
bytes_of (some (bytes, l)) = bytes

abbrev lists_of : Lists → Option (List ℕ × Lists) → Lists
lists_of l none = l
lists_of l (some (bytes, l')) = l'

-- A round that gives `bytes` and leaves `l'`.
pub record IsRound (new_size : ℕ) (old : List ℕ) (l : Lists) (bytes : List ℕ) (l' : Lists)
    : Type 0 where
  pub cover : Cover
  pub codes : Codes
  pub reads : list_cover l ≡ some (cover, codes)
  pub forward : l.new_pos_back ≤ cover.new_pos
  pub new_inside : cover.new_pos + cover.len ≤ new_size
  pub old_inside : cover.old_pos + cover.len ≤ length old
  pub some_news : cover.new_pos - l.new_pos_back ≤ length l.news
  pub some_deltas : cover.new_pos - l.new_pos_back ≤ length l.deltas
  pub more_deltas : cover.len ≤ length (drop (cover.new_pos - l.new_pos_back) l.deltas)
  pub bytes_are :
      bytes
      ≡ take (cover.new_pos - l.new_pos_back) l.news
        ++ add_data
            (part cover.old_pos cover.len old)
            (take cover.len (drop (cover.new_pos - l.new_pos_back) l.deltas))
  pub leaves : l' ≡ behind_cover l cover codes

joined :
    (old : List ℕ) {copied copied' difference difference' : List ℕ}
    → copied ≡ copied'
    → difference ≡ difference'
    → copied ++ add_data old difference ≡ copied' ++ add_data old difference'
joined old p q = rw (p, q) refl

same_leaving :
    (l : Lists) (c : Cover) (codes : Codes) {news news' deltas deltas' : List ℕ}
    → news ≡ news'
    → deltas ≡ deltas'
    → leaving l c codes news deltas ≡ leaving l c codes news' deltas'
same_leaving l c codes p q = rw (p, q) refl

pub list_round-IsRound :
    (new_size : ℕ) (old : List ℕ) (l : Lists) (bytes : List ℕ) (l' : Lists)
    → list_round new_size old l ≡ some (bytes, l')
    → IsRound new_size old l bytes l'
unfolding list_round
list_round-IsRound new_size old l bytes l' e =
    let ((c, codes), e1, k1) = >>=-eq-some (list_cover l) _ e in
    let n : ℕ = c.new_pos - l.new_pos_back in
    let (u2, e2, k2) = >>=-eq-some (check (not (ltb c.new_pos l.new_pos_back))) _ k1 in
    let (u3, e3, k3) = >>=-eq-some (check (not (ltb new_size (c.new_pos + c.len)))) _ k2 in
    let (u4, e4, k4) = >>=-eq-some (check (not (ltb (length old) (c.old_pos + c.len)))) _ k3 in
    let ((copied, news), e5, k5) = >>=-eq-some (cut n l.news) _ k4 in
    let ((skipped, deltas), e6, k6) = >>=-eq-some (cut n l.deltas) _ k5 in
    let ((difference, deltas'), e7, k7) = >>=-eq-some (cut c.len deltas) _ k6 in
    let (p5, q5, r5) = cut-parts n l.news copied news e5 in
    let (p6, q6, r6) = cut-parts n l.deltas skipped deltas e6 in
    let (p7, q7, r7) = cut-parts c.len deltas difference deltas' e7 in
    let same_difference : difference ≡ take c.len (drop n l.deltas) =
      q7 ∙ ap (λ d. take c.len d) r6 in
    let same_deltas : deltas' ≡ drop c.len (drop n l.deltas) = r7 ∙ ap (λ d. drop c.len d) r6 in
    record {
      cover = c;
      codes = codes;
      reads = e1;
      forward = ground (arith, check-true (not (ltb c.new_pos l.new_pos_back)) u2 e2);
      new_inside = ground (arith, check-true (not (ltb new_size (c.new_pos + c.len))) u3 e3);
      old_inside = ground (arith, check-true (not (ltb (length old) (c.old_pos + c.len))) u4 e4);
      some_news = p5;
      some_deltas = p6;
      more_deltas = subst (λ d. c.len ≤ length d) r6 p7;
      bytes_are =
          ap (λ o. bytes_of o) (sym k7) ∙ joined (part c.old_pos c.len old) q5 same_difference;
      leaves = ap (λ o. lists_of l o) (sym k7) ∙ same_leaving l c codes r5 same_deltas;
    }
