-- ===== src/MemPatch/Rounds.antt =====
-- One round of the cover loop on what serialize_diff wrote.
use hdiff_patch.Prelude.{
  ℕ, zero, suc, ◌+◌, ◌-◌, ◌^◌, ◌≤◌, ◌<◌, ◌≡◌, refl, ap, ◌∙◌, some, List, [], ◌∷◌, ◌++◌, arith, ltb,
  length, take, drop, replicate, All, length-append, length-replicate, length-take, length-drop,
  take-append_of, drop-append_of, All-take, All-drop, lt→ltb, le→ltb, Bool-cases, inl, inr,
}
use hdiff_patch.Varint.{IsByte, IsU64, unpack_uint_with_tag}
use hdiff_patch.Varint.RoundTrip.{unpack-packed, packed_tag}
use hdiff_patch.MemPatch.{
  add_data, PatchState, inc_old_pos_sign, next_old_pos, copy_new, copy_part, add_part, cover_round,
  sign_tag_bit,
}
use hdiff_patch.MemPatch.Serialize.{
  Cover, length_buf, inc_new_pos_buf, inc_old_pos_code, inc_old_pos_buf, new_data_diff, sub_data,
  new_data_sub_diff,
}

-- Adding the old bytes to the differences gives the new bytes.
add-sub_data :
    (new old : List ℕ)
    → All IsByte new
    → All IsByte old
    → length new ≡ length old
    → add_data (sub_data new old) old ≡ new
unfolding add_data sub_data
add-sub_data [] old hn ho e = refl
add-sub_data (n ∷ new) [] hn ho e = absurd (omega arith)
add-sub_data (n ∷ new) (o ∷ old) (bn, hn) (bo, ho) e =
    ground (arith, add-sub_data new old hn ho (omega arith))

pub length-sub_data : (new old : List ℕ) → length (sub_data new old) ≡ length new
unfolding sub_data
length-sub_data [] old = refl
length-sub_data (n ∷ new) [] = refl
length-sub_data (n ∷ new) (o ∷ old) = ap suc (length-sub_data new old)

-- The step of the old position is read back, with its sign.
read_inc_old_pos :
    (old_pos_back old_pos : ℕ) (rest : List ℕ)
    → IsU64 old_pos_back
    → IsU64 old_pos
    → (sign inc : ℕ) × (inc_old_pos_sign (inc_old_pos_code old_pos_back old_pos ++ rest)
        ≡ some sign)
      × (unpack_uint_with_tag (inc_old_pos_code old_pos_back old_pos ++ rest) sign_tag_bit
          ≡ some (inc, rest))
      × (next_old_pos sign old_pos_back inc ≡ old_pos)
unfolding inc_old_pos_sign next_old_pos
read_inc_old_pos back pos rest hb hp = elim (Bool-cases (ltb pos back)) [
  | inl down ↦
      let (code, codes, e, top) = packed_tag (back - pos) 1 1 (omega arith) (omega arith) in
      let read = unpack-packed (back - pos) 1 1 rest (omega arith) (omega arith) (omega arith) in
      (1, back - pos, rw down (rw e (ap some top)), rw down read, ground arith)
  | inr up ↦
      let (code, codes, e, top) = packed_tag (pos - back) 0 1 (omega arith) (omega arith) in
      let read = unpack-packed (pos - back) 0 1 rest (omega arith) (omega arith) (omega arith) in
      (0, pos - back, rw up (rw e (ap some top)), rw up read, ground arith)
]

module _ (lengths inc_new inc_old : List ℕ) where
  copy_part_lem :
      (n back : ℕ) (x y more more' : List ℕ)
      → length x ≡ n
      → length y ≡ n
      → copy_part n (record {
        code_lengths = lengths;
        code_inc_new_pos = inc_new;
        code_inc_old_pos = inc_old;
        code_new_data_diff = x ++ more;
        old_pos_back = back;
        new_rest = y ++ more';
      })
        ≡ some (
          x,
          record {
            code_lengths = lengths;
            code_inc_new_pos = inc_new;
            code_inc_old_pos = inc_old;
            code_new_data_diff = more;
            old_pos_back = back;
            new_rest = more';
          },
        )
  unfolding copy_part copy_new
  copy_part_lem zero back [] [] more more' ex ey = refl
  copy_part_lem n back [] (y ∷ ys) more more' ex ey = absurd (omega arith)
  copy_part_lem n back (x ∷ xs) [] more more' ex ey = absurd (omega arith)
  copy_part_lem zero back (x ∷ xs) (y ∷ ys) more more' ex ey = absurd (omega arith)
  copy_part_lem (suc n) back [] [] more more' ex ey = absurd (omega arith)
  copy_part_lem (suc n) back (x ∷ xs) (y ∷ ys) more more' ex ey =
      rw (lt→ltb 0 (suc n) (omega arith)) (
        rw
          (
            le→ltb (length (y ∷ ys ++ more')) (suc n) (omega (arith, length-append ys more')),
            le→ltb (length (x ∷ xs ++ more)) (suc n) (omega (arith, length-append xs more)),
            take-append_of n xs more (omega arith),
            drop-append_of n xs more (omega arith),
            drop-append_of n ys more' (omega arith),
          )
          refl)

  add_part_lem :
      (n back old_pos : ℕ) (old diff d more : List ℕ)
      → length d ≡ n
      → old_pos + n ≤ length old
      → add_part old old_pos n (record {
        code_lengths = lengths;
        code_inc_new_pos = inc_new;
        code_inc_old_pos = inc_old;
        code_new_data_diff = diff;
        old_pos_back = back;
        new_rest = d ++ more;
      })
        ≡ some (
          add_data d (take n (drop old_pos old)),
          record {
            code_lengths = lengths;
            code_inc_new_pos = inc_new;
            code_inc_old_pos = inc_old;
            code_new_data_diff = diff;
            old_pos_back = old_pos;
            new_rest = more;
          },
        )
  unfolding add_part
  add_part_lem n back old_pos old diff d more e fits =
      rw
        (
          le→ltb (length (d ++ more)) n (omega (arith, length-append d more)),
          le→ltb (length old) old_pos (omega arith),
          le→ltb (length old - old_pos) n (omega arith),
          take-append_of n d more e,
          drop-append_of n d more e,
        )
        refl

-- The state in front of the covers `cs`, with the new data from lastNewEnd on.
abbrev pub state_at :
    (old : List ℕ) (last_new_end old_pos_back : ℕ) → List Cover → List ℕ → PatchState
state_at old last_new_end old_pos_back cs new_rest = record {
  code_lengths = length_buf cs;
  code_inc_new_pos = inc_new_pos_buf last_new_end cs;
  code_inc_old_pos = inc_old_pos_buf old_pos_back cs;
  code_new_data_diff = new_data_diff last_new_end cs new_rest;
  old_pos_back = old_pos_back;
  new_rest = new_data_sub_diff old last_new_end cs new_rest;
}

abbrev pub after : (last_new_end : ℕ) → Cover → List ℕ → List ℕ
after last c new_rest = drop c.len (drop (c.new_pos - last) new_rest)

pub cover_round_lem :
    (old : List ℕ) (last back : ℕ) (c : Cover) (cs : List Cover) (new_rest : List ℕ)
    → IsU64 back
    → All IsByte old
    → All IsByte new_rest
    → length old < 2 ^ 64
    → last + length new_rest < 2 ^ 64
    → last ≤ c.new_pos
    → c.new_pos + c.len ≤ last + length new_rest
    → c.old_pos + c.len ≤ length old
    → cover_round old (state_at old last back (c ∷ cs) new_rest)
      ≡ some (
        take (c.new_pos - last) new_rest ++ take c.len (drop (c.new_pos - last) new_rest),
        state_at old (c.new_pos + c.len) c.old_pos cs (after last c new_rest),
      )
unfolding cover_round
cover_round_lem old last back c cs new_rest hb bo bn so sn h1 h2 h3 =
    let gap : ℕ = c.new_pos - last in
    let covered : List ℕ = take c.len (drop gap new_rest) in
    let length_covered : length covered ≡ c.len =
      omega (arith, length-take c.len (drop gap new_rest), length-drop gap new_rest) in
    let (sign, inc, e1, e2, e3) =
      read_inc_old_pos back c.old_pos (inc_old_pos_buf c.old_pos cs) hb (omega arith) in
    rw
      (
        unpack-packed gap 0 0 (inc_new_pos_buf (c.new_pos + c.len) cs) (omega arith) (omega arith)
            (omega arith),
        unpack-packed c.len 0 0 (length_buf cs) (omega arith) (omega arith) (omega arith),
        e1,
        e2,
        e3,
        copy_part_lem (length_buf cs) (inc_new_pos_buf (c.new_pos + c.len) cs)
            (inc_old_pos_buf c.old_pos cs) gap back (take gap new_rest) (replicate gap 0) _ _
            (omega (arith, length-take gap new_rest)) (length-replicate gap 0),
        add_part_lem (length_buf cs) (inc_new_pos_buf (c.new_pos + c.len) cs)
            (inc_old_pos_buf c.old_pos cs) c.len back c.old_pos old
            (new_data_diff (c.new_pos + c.len) cs (after last c new_rest))
            (sub_data covered (take c.len (drop c.old_pos old)))
            (new_data_sub_diff old (c.new_pos + c.len) cs (after last c new_rest))
            (length-sub_data covered _ ∙ length_covered) h3,
        add-sub_data covered (take c.len (drop c.old_pos old))
            (All-take IsByte c.len (drop gap new_rest) (All-drop IsByte gap new_rest bn))
            (All-take IsByte c.len (drop c.old_pos old) (All-drop IsByte c.old_pos old bo))
            (omega (
              arith,
              length_covered,
              length-take c.len (drop c.old_pos old),
              length-drop c.old_pos old,
            )),
      )
      refl
