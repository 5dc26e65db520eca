-- ===== src/MemPatch/Restore.antt =====
-- patch restores the new data from what serialize_diff wrote.
use hdiff_patch.Prelude.{
  ℕ, ◌+◌, ◌-◌, ◌^◌, ◌≤◌, ◌<◌, ◌≡◌, refl, ap, ◌∙◌, some, List, [], ◌∷◌, ◌++◌, arith, length, take,
  drop, replicate, All, append_assoc, length-append, length-replicate, length-take, length-drop,
  All-drop, take-length, drop-length, take-append, drop-append, take-append-drop, le→ltb,
}
use hdiff_patch.Varint.{IsByte, IsU64}
use hdiff_patch.MemPatch.Sizes.{
  CoversFit-le, length-length_buf, length-inc_new_pos_buf, length-inc_old_pos_buf,
  length-new_data_diff,
}
use hdiff_patch.Varint.RoundTrip.{unpack-packed}
use hdiff_patch.MemPatch.{patch_tail, patch_covers, patch, cut}
use hdiff_patch.Rle.{bytes_rle_load}
use hdiff_patch.Rle.Encoder.{bytes_rle_save}
use hdiff_patch.Rle.Encoder.Restore.{bytes_rle_load-save}
use hdiff_patch.MemPatch.Serialize.{
  Cover, length_buf, inc_new_pos_buf, inc_old_pos_buf, new_data_diff, sub_data, new_data_sub_diff,
  serialize_diff, CoversFit,
}
use hdiff_patch.MemPatch.Rounds.{length-sub_data, state_at, after, cover_round_lem}

-- The round leaves less new data, and what it settles is the front of it.
pub length-after :
    (last : ℕ) (c : Cover) (new_rest : List ℕ)
    → last ≤ c.new_pos
    → c.new_pos + c.len ≤ last + length new_rest
    → c.new_pos + c.len + length (after last c new_rest) ≡ last + length new_rest
length-after last c new_rest h1 h2 = omega (
  arith,
  length-drop c.len (drop (c.new_pos - last) new_rest),
  length-drop (c.new_pos - last) new_rest,
)

pub settled : (m n : ℕ) (xs : List ℕ) → (take m xs ++ take n (drop m xs)) ++ drop n (drop m xs) ≡ xs
settled m n xs =
    append_assoc (take m xs) (take n (drop m xs)) (drop n (drop m xs))
    ∙ ap (λ t. take m xs ++ t) (take-append-drop n (drop m xs))
    ∙ take-append-drop m xs

patch_covers_lem :
    (cs : List Cover) (old : List ℕ) (last back : ℕ) (new_rest : List ℕ)
    → IsU64 back
    → All IsByte old
    → All IsByte new_rest
    → length old < 2 ^ 64
    → last + length new_rest < 2 ^ 64
    → CoversFit (length old) (last + length new_rest) last cs
    → patch_covers (length cs) old (state_at old last back cs new_rest) ≡ some new_rest
unfolding patch_covers
patch_covers_lem [] old last back new_rest hb bo bn so sn fit =
    unfold patch_tail in
    rw
      (
        length-replicate {A = ℕ} (length new_rest) 0,
        le→ltb (length new_rest) (length new_rest) (omega arith),
        drop-length new_rest,
        take-length new_rest,
      )
      refl
patch_covers_lem (c ∷ cs) old last back new_rest hb bo bn so sn (h1, h2, h3) =
    let fits = CoversFit-le (length old) (last + length new_rest) (c.new_pos + c.len) cs h3 in
    let e = length-after last c new_rest h1 fits in
    rw
      (
        cover_round_lem old last back c cs new_rest hb bo bn so sn h1 fits h2,
        patch_covers_lem cs old (c.new_pos + c.len) c.old_pos (after last c new_rest) (omega arith)
            bo (All-drop IsByte c.len _ (All-drop IsByte (c.new_pos - last) new_rest bn)) so
            (omega (arith, e)) (rw e h3),
      )
      (ap some (settled (c.new_pos - last) c.len new_rest))

cut-append : (xs ys : List ℕ) → cut (length xs) (xs ++ ys) ≡ some (xs, ys)
unfolding cut
cut-append xs ys =
    rw
      (
        le→ltb (length (xs ++ ys)) (length xs) (omega (arith, length-append xs ys)),
        take-append xs ys,
        drop-append xs ys,
      )
      refl

-- The difference stream has a byte for each new byte.
pub length-new_data_sub_diff :
    (old : List ℕ) (last : ℕ) (cs : List Cover) (new_rest : List ℕ)
    → CoversFit (length old) (last + length new_rest) last cs
    → length (new_data_sub_diff old last cs new_rest) ≡ length new_rest
length-new_data_sub_diff old last [] new_rest h = length-replicate (length new_rest) 0
length-new_data_sub_diff old last (c ∷ cs) new_rest (h1, h2, h3) =
    let fits = CoversFit-le (length old) (last + length new_rest) (c.new_pos + c.len) cs h3 in
    let e = length-after last c new_rest h1 fits in
    let covered : List ℕ = take c.len (drop (c.new_pos - last) new_rest) in
    let old_bytes : List ℕ = take c.len (drop c.old_pos old) in
    let more : List ℕ = new_data_sub_diff old (c.new_pos + c.len) cs (after last c new_rest) in
    omega (
      arith,
      e,
      length-append (replicate (c.new_pos - last) 0) (sub_data covered old_bytes ++ more),
      length-append (sub_data covered old_bytes) more,
      length-replicate {A = ℕ} (c.new_pos - last) 0,
      length-sub_data covered old_bytes,
      length-take c.len (drop (c.new_pos - last) new_rest),
      length-drop (c.new_pos - last) new_rest,
      length-new_data_sub_diff old (c.new_pos + c.len) cs (after last c new_rest) (rw e h3),
    )

-- patch restores the new data from the old data and what serialize_diff wrote, for every list of
-- covers that lie in the order of the new data, do not overlap there and stay inside both data: when
-- both are lists of bytes, the size of the old data fits 64 bits, and there are fewer than 2 ^ 60 new
-- bytes and fewer than 2 ^ 60 covers.
pub patch-serialize_diff :
    (new old : List ℕ) (covers : List Cover)
    → All IsByte new
    → All IsByte old
    → length old < 2 ^ 64
    → length new < 2 ^ 60
    → CoversFit (length old) (length new) 0 covers
    → length covers < 2 ^ 60
    → patch (length new) old (serialize_diff new old covers) ≡ some new
unfolding patch serialize_diff
patch-serialize_diff new old cs bn bo so sn fit few =
    let front : 0 + length new ≡ length new = omega arith in
    let difference : List ℕ = new_data_sub_diff old 0 cs new in
    let sub_length : length difference ≡ length new =
      length-new_data_sub_diff old 0 cs new (rw front fit) in
    let loaded : bytes_rle_load (length new) (bytes_rle_save 1 difference) ≡ some difference =
      rw sub_length at (bytes_rle_load-save 1 difference (omega (arith, sub_length))) in
    rw
      (
        unpack-packed (length cs) 0 0 _ (omega arith) (omega arith) (omega arith),
        unpack-packed (length (length_buf cs)) 0 0 _
            (omega (arith, length-length_buf (length old) (length new) 0 cs fit so)) (omega arith)
            (omega arith),
        unpack-packed (length (inc_new_pos_buf 0 cs)) 0 0 _
            (omega (arith, length-inc_new_pos_buf (length old) (length new) 0 cs fit (omega arith)))
            (omega arith) (omega arith),
        unpack-packed (length (inc_old_pos_buf 0 cs)) 0 0 _
            (omega
              (arith, length-inc_old_pos_buf (length old) (length new) 0 0 cs fit (omega arith) so))
            (omega arith) (omega arith),
        unpack-packed (length (new_data_diff 0 cs new)) 0 0 _
            (omega (arith, length-new_data_diff 0 cs new)) (omega arith) (omega arith),
        cut-append (length_buf cs) _,
        cut-append (inc_new_pos_buf 0 cs) _,
        cut-append (inc_old_pos_buf 0 cs) _,
        cut-append (new_data_diff 0 cs new) _,
        loaded,
      )
      (patch_covers_lem cs old 0 0 new (omega arith) bo bn so (omega arith) (rw front fit))
