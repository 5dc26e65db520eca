-- ===== src/Lite/Transparent.antt =====
-- hpatch_lite_patch writes the new data that the diff stands for, whatever the size of its cache and
-- however the diff is served to it.
use hdiff_patch.Prelude.{
  ℕ, zero, suc, ◌+◌, ◌-◌, ◌/◌, ◌%◌, ◌^◌, ◌≤◌, ◌<◌, ◌≡◌, refl, sym, ap, ◌∙◌, inl, inr, false, not,
  ◌||◌, List, ◌++◌, arith, ltb, leb, ◌==◌, length, bit_and, append-nil, append_assoc, le→ltb,
}
use hdiff_patch.Prelude.Related.{Related, Related->>=, Related-check, Related-right}
use hdiff_patch.Lite.{
  Listener, InputCache, LiteCover, read_cover_at, read_cover, copy_gap, patch_covers,
  hpatch_lite_patch,
}
use hdiff_patch.Lite.Spec.{
  Source, moved, listed_cover, next_cover_at, next_cover, new_covers, lite_new_data,
}
use hdiff_patch.Lite.Cache.{
  IsServed, Reads, cache_read_1byte-Reads, cache_unpack_uint-Reads, SameNumber,
}
use hdiff_patch.Lite.Refine.{Wrote, patch_copy_diff-Wrote}
use hdiff_patch.Lite.Adds.{patch_add_old-Wrote}
use hdiff_patch.Prelude.Bits.{bit_and-bit}
use hdiff_patch.Lite.{cover_of, step_old_pos, min_cache_size}

step_old_pos-moved : (tag pos step : ℕ) → step_old_pos tag pos step ≡ moved tag pos step
unfolding step_old_pos moved
step_old_pos-moved tag pos step = ground (arith, bit_and-bit 6 tag)

no_differences : (tag : ℕ) → not (tag / 2 ^ 7 == 0) ≡ leb 128 tag
no_differences tag = ground arith

cover_of-listed_cover :
    (back new_back n tag step gap : ℕ)
    → cover_of back new_back n tag step gap ≡ listed_cover back new_back n tag step gap
cover_of-listed_cover back new_back n tag step gap =
    let forward : (gap + new_back) % 2 ^ 32 ≡ (new_back + gap) % 2 ^ 32 = omega arith in
    rw (step_old_pos-moved tag back step, no_differences tag, forward) refl

module _ {H W : Type 0} (listener : Listener H W) (contents : H → List ℕ) (written : W → List ℕ)
    (old : List ℕ) (served : IsServed listener contents written old) where
  abbrev FollowsT : InputCache H → Source → Type 0
  FollowsT = Reads listener contents written old served

  abbrev Number : ℕ × InputCache H → ℕ × Source → Type 0
  Number = SameNumber listener contents written old served

  abbrev SameCover : LiteCover × InputCache H → LiteCover × Source → Type 0
  SameCover (x, c) (y, s) = (x ≡ y) × FollowsT c s

  read_cover_at-SameCover :
      (fuel back new_back n n' tag tag' : ℕ) (c : InputCache H) (s : Source)
      → n ≡ n'
      → tag ≡ tag'
      → FollowsT c s
      → Related SameCover
          (read_cover_at listener fuel back new_back n tag c)
          (next_cover_at fuel back new_back n' tag' s)
  unfolding read_cover_at next_cover_at
  read_cover_at-SameCover fuel back new_back n n' tag tag' c s en et h =
      rw (en, et)
        (Related->>= Number SameCover _ _ _ _
          (cache_unpack_uint-Reads listener contents written old served fuel c s (bit_and tag' 31)
            (bit_and tag' 32) h)
          λ (step, c1) (step', s1) (e1, h1).
            Related->>= Number SameCover _ _ _ _
              (cache_unpack_uint-Reads listener contents written old served fuel c1 s1 0 1 h1)
              λ (gap, c2) (gap', s2) (e2, h2). (
                ap (λ x. cover_of back new_back n' tag' x gap) e1
                    ∙ ap (λ x. cover_of back new_back n' tag' step' x) e2
                    ∙ cover_of-listed_cover back new_back n' tag' step' gap',
                h2,
              ))

  read_cover-SameCover :
      (fuel back new_back : ℕ) (c : InputCache H) (s : Source)
      → FollowsT c s
      → Related SameCover
          (read_cover listener fuel back new_back c)
          (next_cover fuel back new_back s)
  unfolding read_cover next_cover
  read_cover-SameCover fuel back new_back c s h =
      Related->>= Number SameCover _ _ _ _
        (cache_unpack_uint-Reads listener contents written old served fuel c s 0 1 h)
        λ (n, c1) (n', s1) (e1, h1).
          let (et, h2) = cache_read_1byte-Reads listener contents written old served c1 s1 h1 in
          read_cover_at-SameCover fuel back new_back n n' _ _ _ _ e1 et h2

  -- newPosBack is the same, the cache follows the source, and the output has grown by the bytes.
  abbrev End : W → ℕ × InputCache H × W → ℕ × Source × List ℕ → Type 0
  End out (p, c, out') (p', s, bytes) =
      (p ≡ p') × FollowsT c s × (written out' ≡ written out ++ bytes)

  End-step :
      (out out2 out3 : W) (copied added : List ℕ)
      → written out2 ≡ written out ++ copied
      → written out3 ≡ written out2 ++ added
      → (a : ℕ × InputCache H × W) (b : ℕ × Source × List ℕ) → End out3 a b
      → End out a (b.0, b.1, (copied ++ added) ++ b.2)
  End-step out out2 out3 copied added w2 w3 (p, c, o) (p', s, rest) (e, h, w) = (
    e,
    h,
    w
        ∙ ap (λ t. t ++ rest)
            (w3 ∙ ap (λ t. t ++ added) w2 ∙ append_assoc (written out) copied added)
        ∙ append_assoc (written out) (copied ++ added) rest,
  )

  patch_covers-End :
      (fuel n back new_back : ℕ) (c : InputCache H) (s : Source) (out : W)
      → length old < 2 ^ 32
      → FollowsT c s
      → Related
          (End out)
          (patch_covers listener fuel n back new_back c out)
          (new_covers fuel old n back new_back s)
  unfolding patch_covers new_covers copy_gap
  patch_covers-End fuel zero back new_back c s out small h =
      (refl, h, sym (append-nil (written out)))
  patch_covers-End fuel (suc n) back new_back c s out small h =
      Related->>= SameCover (End out) _ _ _ _ (read_cover-SameCover fuel back new_back c s h)
        λ (x, c1) (y, s1) (e, h1). rw e (
          Related-check (End out) (not (ltb y.cover_new_pos new_back)) _ _ λ _.
            Related->>= (Wrote listener contents written old served out) (End out) _ _ _ _
              (patch_copy_diff-Wrote listener contents written old served
                (y.cover_new_pos - new_back) (y.cover_new_pos - new_back) c1 s1 out (omega arith)
                h1)
              λ (c2, out2) (copied, s2) (h2, w2).
                Related->>= (Wrote listener contents written old served out2) (End out) _ _ _ _
                  (patch_add_old-Wrote listener contents written old served y.is_not_need_sub_diff
                    y.cover_length y.cover_old_pos y.cover_length c2 s2 out2 small (omega arith) h2)
                  λ (c3, out3) (added, s3) (h3, w3).
                    Related-check (End out) (ltb 0 y.cover_length || n == 0) _ _ λ _.
                      Related-right (End out3) (End out) _ _ _
                        (patch_covers-End fuel n _ _ c3 s3 out3 small h3)
                        (End-step out out2 out3 copied added w2 w3))

  -- The last checks: a diff was read past its end exactly when the cache is closed.
  finished : (c : InputCache H) (s : Source) → FollowsT c s → not (c.cache_end == 0) ≡ not s.is_over
  finished c s (_, inl (closed, is_over, _)) = rw (closed, is_over) refl
  finished c s (_, inr (open_end, not_over)) = rw not_over (ground arith)

  abbrev pub Appends : W → W → List ℕ → Type 0
  Appends out out' new = written out' ≡ written out ++ new

  -- The whole of hpatch_lite_patch, with the same fuel on both sides.
  pub hpatch_lite_patch-lite_new_data :
      (fuel new_size temp_cache_size : ℕ) (diff_data : H) (out : W)
      → length old < 2 ^ 32
      → min_cache_size ≤ temp_cache_size
      → Related
          (Appends out)
          (hpatch_lite_patch listener fuel new_size temp_cache_size diff_data out)
          (lite_new_data fuel new_size old (contents diff_data))
  unfolding hpatch_lite_patch lite_new_data
  hpatch_lite_patch-lite_new_data fuel new_size size diff_data out small enough =
      rw (le→ltb size min_cache_size enough) (
        Related->>= Number (Appends out) _ _ _ _
          (cache_unpack_uint-Reads listener contents written old served fuel _
            (record { bytes = contents diff_data; is_over = false }) 0 1
            (refl, inr (omega arith, refl)))
          λ (n, c1) (n', s1) (en, h1). rw en (
            Related->>= (End out) (Appends out) _ _ _ _
              (patch_covers-End fuel n' 0 0 c1 s1 out small h1)
              λ (p, c2, out2) (p', s2, new) (ep, h2, w2).
                rw (ep, finished c2 s2 h2)
                  (Related-check (Appends out) (new_size == p') _ _
                    λ _. Related-check (Appends out) (not s2.is_over) _ _ λ _. w2)))
