-- ===== src/PatchStream/Refine.antt =====
-- patchByClip writes what its streams stand for.
use hdiff_patch.Prelude.{
  ℕ, suc, ◌+◌, ◌-◌, ◌%◌, ◌^◌, ◌≤◌, ◌<◌, ◌≡◌, sym, ap, ◌∙◌, subst, false, Option, some, List, ◌++◌,
  arith, length, take, drop, append_assoc, length-append, length-take, length-drop, le→ltb,
}
use hdiff_patch.Prelude.Related.{Related-some}
use hdiff_patch.Varint.{max_packed_uint_bytes}
use hdiff_patch.MemPatch.{add_data}
use hdiff_patch.MemPatch.Bounds.{length-add_data}
use hdiff_patch.MemPatch.Serialize.{Cover}
use hdiff_patch.Clip.Reads.{Serves}
use hdiff_patch.OutCache.Writes.{Accepts}
use hdiff_patch.RleStream.Steps.{AreBytes}
use hdiff_patch.PatchStream.{Covers, Machine, read_cover, clip_round}
use hdiff_patch.PatchStream.Spec.{Lists, Codes, list_cover}
use hdiff_patch.PatchStream.NextCover.{IsCovers, Covered, read_cover-list_cover}
use hdiff_patch.PatchStream.Adds.{Random, part}
use hdiff_patch.PatchStream.Parts.{IsRound, behind_cover}
use hdiff_patch.PatchStream.Rounds.{IsStreams, gap-some, add_old_data-some}

module _ {H W O : Type 0} (read : H → ℕ → ℕ → Option (List ℕ × H)) (Left : H → ℕ → List ℕ → Type 0)
    (serves : Serves read Left) (size cover_size : ℕ)
    (room_for_number : max_packed_uint_bytes ≤ size)
    (cover_room : max_packed_uint_bytes ≤ cover_size) (write : W → ℕ → List ℕ → Option W)
    (Written : W → List ℕ → Type 0) (new_size : ℕ) (accepts : Accepts write Written new_size)
    (new_fits : new_size < 2 ^ 64) (read_old : O → ℕ → ℕ → Option (List ℕ × O))
    (Holds : O → List ℕ → Type 0) (random : Random read_old Holds) (old : List ℕ)
    (old_fits : length old < 2 ^ 64) (old_bytes : AreBytes old) where
  -- A machine in front of `count` covers, whose streams have the bytes of `l`, and which wrote `all`.
  pub record IsMachine (count : ℕ) (m : Machine H W O) (l : Lists) (all : List ℕ) : Type 0 where
    pub streams : IsStreams Left Written Holds size old m all l.news l.deltas l.ends
    pub covers_are : IsCovers read Left serves cover_size false count m.covers l
    pub new_pos_is : m.new_pos_back ≡ l.new_pos_back
    pub all_size : length all ≡ l.new_pos_back
    pub inside : l.new_pos_back ≤ new_size

  read_cover-some :
      (count : ℕ) (s : Covers H) (l : Lists) (c : Cover) (codes : Codes)
      → IsCovers read Left serves cover_size false (suc count) s l
      → list_cover l ≡ some (c, codes)
      → (s' : Covers H) × (read_cover read s ≡ some (c, s'))
        × Covered read Left serves cover_size false count (c, s') (c, codes)
  read_cover-some count s l c codes h e =
      let ((c', s'), e', k) =
        Related-some (Covered read Left serves cover_size false count) (read_cover read s)
          (list_cover l) (c, codes)
          (read_cover-list_cover read Left serves cover_size false count s l h cover_room) e in
      (
        s',
        e' ∙ ap (λ d. some (d, s')) k.same_cover,
        subst (λ d. Covered read Left serves cover_size false count (d, s') (c, codes)) k.same_cover
            k,
      )

  -- A round of patchByClip.
  pub clip_round-list_round :
      (count : ℕ) (m : Machine H W O) (l : Lists) (all bytes : List ℕ) (l' : Lists)
      → IsMachine (suc count) m l all
      → IsRound new_size old l bytes l'
      → (m' : Machine H W O) × (clip_round read write read_old new_size (length old) size m
          ≡ some m')
        × IsMachine count m' l' (all ++ bytes)
  unfolding clip_round
  clip_round-list_round count m l all bytes l' h r =
      let c : Cover = r.cover in
      let n : ℕ = c.new_pos - l.new_pos_back in
      let forward = r.forward in
      let new_inside = r.new_inside in
      let old_inside = r.old_inside in
      let (s, e, k) = read_cover-some count m.covers l c r.codes h.covers_are r.reads in
      let m1 : Machine H W O = record m { covers = s } in
      let at_gap : m1.new_pos_back + n ≡ c.new_pos = omega (arith, h.new_pos_is) in
      let streams1 : IsStreams Left Written Holds size old m1 all l.news l.deltas l.ends = record {
        out_is = h.streams.out_is;
        news_has = h.streams.news_has;
        loader_has = h.streams.loader_has;
        old_holds = h.streams.old_holds;
      } in
      let (m2, e2, streams2, covers2, pos2) =
        gap-some read Left serves size room_for_number write Written new_size accepts new_fits
          read_old Holds random old old_fits old_bytes m1 all l.news l.deltas l.ends n c.new_pos
          streams1 at_gap r.some_news r.some_deltas (omega (arith, h.all_size)) in
      let (m3, e3, streams3, covers3, pos3) =
        add_old_data-some read Left serves size room_for_number write Written new_size accepts
          new_fits read_old Holds random old old_fits old_bytes m2 (all ++ take n l.news)
          (drop n l.news) (drop n l.deltas) l.ends c size streams2 (omega arith) old_inside
          r.more_deltas
          (omega (arith, h.all_size, length-append all (take n l.news), length-take n l.news)) in
      let same_covers : m3.covers ≡ s = covers3 ∙ covers2 in
      let settled : (all ++ take n l.news)
            ++ add_data (part c.old_pos c.len old) (take c.len (drop n l.deltas))
          ≡ all ++ bytes =
        append_assoc all (take n l.news)
          (add_data (part c.old_pos c.len old) (take c.len (drop n l.deltas)))
        ∙ ap (λ b. all ++ b) (sym r.bytes_are) in
      let wrapped : (c.new_pos + c.len) % 2 ^ 64 ≡ c.new_pos + c.len = omega arith in
      (
        m3,
        rw
            (
              e,
              le→ltb c.new_pos m.new_pos_back (omega (arith, h.new_pos_is)),
              le→ltb ((new_size + 2 ^ 64 - c.new_pos) % 2 ^ 64) c.len (omega arith),
              le→ltb (length old) c.old_pos (omega arith),
              le→ltb (length old - c.old_pos) c.len (omega arith),
              e2,
            )
            e3,
        subst (λ x. IsMachine count m3 x (all ++ bytes)) (sym r.leaves)
            (record {
              streams =
                  subst
                    (λ a.
                      IsStreams Left Written Holds size old m3 a (drop n l.news)
                        (drop c.len (drop n l.deltas)) l.ends)
                    settled streams3;
              covers_are =
                  subst
                    (λ x.
                      IsCovers read Left serves cover_size false count x (behind_cover l c r.codes))
                    (sym same_covers)
                    (record {
                      count_is = k.count_left;
                      old_pos_is = k.old_end;
                      new_pos_is = k.new_end ∙ wrapped;
                      adds_is = k.still_adds;
                      old_has = k.old_left;
                      new_has = k.new_left;
                      lengths_has = k.lengths_left;
                    });
              new_pos_is = pos3 ∙ wrapped;
              all_size = omega (
                arith,
                ap (λ a. length a) settled,
                h.all_size,
                length-append (all ++ take n l.news)
                    (add_data (part c.old_pos c.len old) (take c.len (drop n l.deltas))),
                length-append all (take n l.news),
                length-take n l.news,
                r.some_news,
                length-add_data (part c.old_pos c.len old) (take c.len (drop n l.deltas)),
                length-take c.len (drop c.old_pos old),
                length-drop c.old_pos old,
              );
              inside = new_inside;
            }),
      )
