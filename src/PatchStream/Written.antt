-- ===== src/PatchStream/Written.antt =====
-- The streams that serialize_diff writes stand for the new data.
use hdiff_patch.Prelude.{
  ℕ, ◌+◌, ◌-◌, ◌%◌, ◌^◌, ◌≤◌, ◌<◌, ◌≡◌, refl, sym, ap, ◌∙◌, inl, inr, true, some, List, [], ◌∷◌,
  ◌++◌, arith, ltb, length, take, drop, replicate, All, Bool-cases, length-replicate, length-take,
  length-drop, take_past, drop_past, take-append-drop, take-length, drop-length, All-take, All-drop,
  le→ltb,
}
use hdiff_patch.Varint.{IsByte, IsU64, unpack_within, max_packed_uint_bytes}
use hdiff_patch.Varint.RoundTrip.{packed, unpack-packed, packed_tag}
use hdiff_patch.Varint.Decode.{length-packed}
use hdiff_patch.MemPatch.{add_data, cut, sign_tag_bit, inc_old_pos_sign, next_old_pos}
use hdiff_patch.MemPatch.Serialize.{
  Cover, length_buf, inc_new_pos_buf, inc_old_pos_code, inc_old_pos_buf, new_data_diff, sub_data,
  new_data_sub_diff, CoversFit,
}
use hdiff_patch.MemPatch.Rounds.{length-sub_data, after}
use hdiff_patch.MemPatch.Sizes.{CoversFit-le}
use hdiff_patch.MemPatch.Restore.{length-after, settled}
use hdiff_patch.Clip.Skips.{cut-append_of, cut-some}
use hdiff_patch.PatchStream.Spec.{Lists, list_cover, list_round, list_tail, list_patch}

-- A number is read back from the next eleven bytes.
pub unpack_within-packed :
    (value high_tag tag_bit : ℕ) (rest : List ℕ)
    → IsU64 value
    → tag_bit ≤ 7
    → high_tag < 2 ^ tag_bit
    → unpack_within max_packed_uint_bytes (packed value high_tag tag_bit ++ rest) tag_bit
      ≡ some (value, rest)
unfolding unpack_within
unpack_within-packed value high_tag tag_bit rest hv ht hh =
    let code : List ℕ = packed value high_tag tag_bit in
    let short : length code ≤ max_packed_uint_bytes = length-packed value high_tag tag_bit hv in
    let k : ℕ = max_packed_uint_bytes - length code in
    rw
      (
        take_past max_packed_uint_bytes code rest short,
        drop_past max_packed_uint_bytes code rest short,
        unpack-packed value high_tag tag_bit (take k rest) hv ht hh,
        take-append-drop k rest,
      )
      refl

-- Adding the differences to the old bytes gives the new bytes.
add_data-sub_data :
    (new old : List ℕ)
    → All IsByte new
    → All IsByte old
    → length new ≡ length old
    → add_data old (sub_data new old) ≡ new
unfolding add_data sub_data
add_data-sub_data [] [] hn ho e = refl
add_data-sub_data [] (o ∷ old) hn ho e = absurd (omega arith)
add_data-sub_data (n ∷ new) [] hn ho e = absurd (omega arith)
add_data-sub_data (n ∷ new) (o ∷ old) (bn, hn) (bo, ho) e =
    ground (arith, add_data-sub_data new old hn ho (omega arith))

-- The step of the old position is read back, with its sign.
inc_old_pos-read :
    (old_pos_back old_pos : ℕ) (rest : List ℕ)
    → IsU64 old_pos_back
    → IsU64 old_pos
    → (sign inc : ℕ) × (inc_old_pos_sign (inc_old_pos_code old_pos_back old_pos ++ rest)
        ≡ some sign)
      × (unpack_within max_packed_uint_bytes
            (inc_old_pos_code old_pos_back old_pos ++ rest)
            sign_tag_bit
          ≡ some (inc, rest))
      × (next_old_pos sign old_pos_back inc ≡ old_pos)
unfolding inc_old_pos_sign next_old_pos
inc_old_pos-read back pos rest hb hp = elim (Bool-cases (ltb pos back)) [
  | inl down ↦
      let (code, codes, e, top) = packed_tag (back - pos) 1 1 (omega arith) (omega arith) in
      let found =
        unpack_within-packed (back - pos) 1 1 rest (omega arith) (omega arith) (omega arith) in
      (1, back - pos, rw down (rw e (ap some top)), rw down found, ground arith)
  | inr up ↦
      let (code, codes, e, top) = packed_tag (pos - back) 0 1 (omega arith) (omega arith) in
      let found =
        unpack_within-packed (pos - back) 0 1 rest (omega arith) (omega arith) (omega arith) in
      (0, pos - back, rw up (rw e (ap some top)), rw up found, ground arith)
]

-- The streams in front of the covers `cs`, with the new data from `last` on.
abbrev pub lists_at : (old : List ℕ) (last back : ℕ) → List Cover → (new_rest : List ℕ) → Lists
lists_at old last back cs new_rest = record {
  lengths = length_buf cs;
  inc_new = inc_new_pos_buf last cs;
  inc_old = inc_old_pos_buf back cs;
  news = new_data_diff last cs new_rest;
  deltas = new_data_sub_diff old last cs new_rest;
  ends = true;
  old_pos_back = back;
  new_pos_back = last;
}

list_round_lem :
    (new_size : ℕ) (old : List ℕ) (last back : ℕ) (c : Cover) (cs : List Cover) (new_rest : List ℕ)
    → IsU64 back
    → All IsByte old
    → All IsByte new_rest
    → length old < 2 ^ 64
    → new_size < 2 ^ 64
    → last + length new_rest ≡ new_size
    → last ≤ c.new_pos
    → c.new_pos + c.len ≤ new_size
    → c.old_pos + c.len ≤ length old
    → list_round new_size old (lists_at old last back (c ∷ cs) new_rest)
      ≡ some (
        take (c.new_pos - last) new_rest ++ take c.len (drop (c.new_pos - last) new_rest),
        lists_at old (c.new_pos + c.len) c.old_pos cs (after last c new_rest),
      )
unfolding list_round list_cover
list_round_lem new_size old last back c cs new_rest hb bo bn so sn whole h1 h2 h3 =
    let gap : ℕ = c.new_pos - last in
    let covered : List ℕ = take c.len (drop gap new_rest) in
    let olds : List ℕ = take c.len (drop c.old_pos old) in
    let length_covered : length covered ≡ c.len =
      omega (arith, length-take c.len (drop gap new_rest), length-drop gap new_rest) in
    let (sign, inc, e1, e2, e3) =
      inc_old_pos-read back c.old_pos (inc_old_pos_buf c.old_pos cs) hb (omega arith) in
    let new_pos : (last + gap) % 2 ^ 64 ≡ c.new_pos = omega arith in
    let news : List ℕ = new_data_diff (c.new_pos + c.len) cs (after last c new_rest) in
    let deltas : List ℕ = new_data_sub_diff old (c.new_pos + c.len) cs (after last c new_rest) in
    let front : length (take gap new_rest) ≡ gap = omega (arith, length-take gap new_rest) in
    let subbed : length (sub_data covered olds) ≡ c.len =
      length-sub_data covered olds ∙ length_covered in
    rw
      (
        e1,
        e2,
        e3,
        unpack_within-packed gap 0 0 (inc_new_pos_buf (c.new_pos + c.len) cs) (omega arith)
            (omega arith) (omega arith),
        unpack_within-packed c.len 0 0 (length_buf cs) (omega arith) (omega arith) (omega arith),
        new_pos,
        le→ltb c.new_pos last h1,
        le→ltb new_size (c.new_pos + c.len) h2,
        le→ltb (length old) (c.old_pos + c.len) h3,
        cut-append_of gap (take gap new_rest) news front,
        cut-append_of gap (replicate gap 0) (sub_data covered olds ++ deltas)
            (length-replicate gap 0),
        cut-append_of c.len (sub_data covered olds) deltas subbed,
        add_data-sub_data covered olds
            (All-take IsByte c.len (drop gap new_rest) (All-drop IsByte gap new_rest bn))
            (All-take IsByte c.len (drop c.old_pos old) (All-drop IsByte c.old_pos old bo))
            (omega (
              arith,
              length_covered,
              length-take c.len (drop c.old_pos old),
              length-drop c.old_pos old,
            )),
      )
      refl

cut-length : (xs : List ℕ) → cut (length xs) xs ≡ some (xs, [])
cut-length xs =
    cut-some (length xs) xs (omega arith)
    ∙ ap (λ r. some r) (rw (take-length xs, drop-length xs) refl)

list_tail_lem :
    (new_size : ℕ) (old : List ℕ) (last back : ℕ) (new_rest : List ℕ)
    → last + length new_rest ≡ new_size
    → list_tail new_size (lists_at old last back [] new_rest) ≡ some new_rest
unfolding list_tail
list_tail_lem new_size old last back new_rest whole =
    let left : new_size - last ≡ length new_rest = omega arith in
    let zeros : cut (length new_rest) (replicate (length new_rest) 0)
        ≡ some (replicate (length new_rest) 0, []) =
      ap (λ k. cut k (replicate (length new_rest) 0))
        (sym (length-replicate {A = ℕ} (length new_rest) 0))
      ∙ cut-length (replicate (length new_rest) 0) in
    rw (left, cut-length new_rest, zeros) refl

-- The streams that serialize_diff writes for `covers` stand for the new data, when the covers lie in
-- the order of the new data, do not overlap there and stay inside both data, both data are bytes and
-- both sizes fit 64 bits.
pub list_patch-lists_at :
    (new_size : ℕ) (old : List ℕ) (last back : ℕ) (cs : List Cover) (new_rest : List ℕ)
    → IsU64 back
    → All IsByte old
    → All IsByte new_rest
    → length old < 2 ^ 64
    → new_size < 2 ^ 64
    → last + length new_rest ≡ new_size
    → CoversFit (length old) new_size last cs
    → list_patch (length cs) new_size old (lists_at old last back cs new_rest) ≡ some new_rest
unfolding list_patch
list_patch-lists_at new_size old last back [] new_rest hb bo bn so sn whole fit =
    list_tail_lem new_size old last back new_rest whole
list_patch-lists_at new_size old last back (c ∷ cs) new_rest hb bo bn so sn whole (h1, h2, h3) =
    let fits = CoversFit-le (length old) new_size (c.new_pos + c.len) cs h3 in
    let e = length-after last c new_rest h1 (omega arith) in
    rw
      (
        list_round_lem new_size old last back c cs new_rest hb bo bn so sn whole h1 fits h2,
        list_patch-lists_at new_size old (c.new_pos + c.len) c.old_pos cs (after last c new_rest)
            (omega arith) bo
            (All-drop IsByte c.len _ (All-drop IsByte (c.new_pos - last) new_rest bn)) so sn
            (omega (arith, e)) h3,
      )
      (ap some (settled (c.new_pos - last) c.len new_rest))
