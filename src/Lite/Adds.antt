-- ===== src/Lite/Adds.antt =====
-- _patch_add_old_withClip does through the cache what the format says of the whole diff.
use hdiff_patch.Prelude.{
  ℕ, zero, suc, ◌+◌, ◌-◌, ◌%◌, ◌^◌, ◌≤◌, ◌<◌, ◌≡◌, refl, sym, ap, ◌∙◌, ◌⊎◌, inl, inr, Bool, true,
  false, none, List, ◌++◌, arith, ltb, length, ◌>>=◌, append-nil, Option-cases, lt→ltb, le→ltb,
}
use hdiff_patch.Prelude.Related.{Related, Related-right}
use hdiff_patch.Lite.{Listener, InputCache, refill, at_most, add_step, add_diff, patch_add_old}
use hdiff_patch.Lite.Spec.{Source, old_bytes, cover_bytes}
use hdiff_patch.Lite.Chunks.{
  take_bytes_over, cover_bytes-none, cover_bytes-split, front_bytes, behind, HasFront,
}
use hdiff_patch.Lite.Cache.{IsServed, Reads, Updated}
use hdiff_patch.MemPatch.{add_data}
use hdiff_patch.Lite.Refine.{at_most_bounds, Wrote, refill-Updated, Follows-drop, Wrote-step}

module _ {H W : Type 0} (listener : Listener H W) (contents : H → List ℕ) (written : W → List ℕ)
    (old : List ℕ) (served : IsServed listener contents written old) where
  abbrev FollowsA : InputCache H → Source → Type 0
  FollowsA = Reads listener contents written old served

  -- A step of `k` bytes, for every `k` up to what the cache offers.
  abbrev CanAdd : Bool → (decode_step : ℕ) → InputCache H → Source → Type 0
  CanAdd same decode_step c s =
      (1 ≤ decode_step)
      × ((k : ℕ) (bytes : List ℕ)
          → 1 ≤ k
          → k ≤ decode_step
          → HasFront same k s
            × FollowsA (add_diff listener same k bytes c).1 (behind same k s)
            × ((add_diff listener same k bytes c).0 ≡ front_bytes same k bytes s))

  abbrev Stuck : Bool → (decode_step n pos : ℕ) → Source → Type 0
  Stuck same decode_step n pos s =
      (ltb 0 decode_step ≡ false) × (cover_bytes old same pos (suc n) s ≡ none)

  refilled :
      (c : InputCache H) (s : Source) (ok : Bool) (n pos : ℕ)
      → Updated listener contents written old served s (ok, c)
      → Stuck false (length c.unread) n pos s ⊎ CanAdd false (length c.unread) c s
  unfolding add_diff cover_bytes
  refilled c s ok n pos (inr (_, _, empty, none_read)) = inl (
    le→ltb 0 (length c.unread) (omega (arith, ap (λ l. length l) none_read)),
    rw (take_bytes_over n s empty) refl,
  )
  refilled c s ok n pos (inl (_, h, some_read, _)) = inr (
    some_read,
    λ k bytes lo hi.
        let (h', e, left) = Follows-drop listener contents written old served c s k h lo hi in
        (left, h', ap (λ t. add_data bytes t) e),
  )

  add_step-cases :
      (same : Bool) (c : InputCache H) (s : Source) (n pos : ℕ)
      → FollowsA c s
      → Stuck same (add_step listener same c).0 n pos s
        ⊎ CanAdd same (add_step listener same c).0 (add_step listener same c).1 s
  unfolding add_step add_diff cover_bytes
  add_step-cases true c s n pos (e, inl (closed, is_over, _)) =
      inl (le→ltb 0 c.cache_end (omega arith), rw is_over refl)
  add_step-cases true c s n pos (e, inr (open_end, not_over)) =
      inr (open_end, λ k bytes lo hi. (not_over, (e, inr (open_end, not_over)), refl))
  add_step-cases false c s n pos h =
      let (ok, c') = refill listener c c.unread in
      refilled c' s ok n pos
        (refill-Updated listener contents written old served c s c.unread refl h)

  add_round :
      (same : Bool) (fuel n pos decode_step : ℕ) (c : InputCache H) (s : Source) (out : W)
      → length old < 2 ^ 32
      → ((k pos : ℕ) (c' : InputCache H) (s' : Source) (out' : W)
          → k ≤ fuel
          → FollowsA c' s'
          → Related
              (Wrote listener contents written old served out')
              (patch_add_old listener same fuel pos k c' out')
              (cover_bytes old same pos k s'))
      → n ≤ fuel
      → CanAdd same decode_step c s
      → let k = at_most decode_step (suc n) in
        Related
          (Wrote listener contents written old served out)
          (listener.read_old pos k >>= λ bytes.
            let (new_bytes, c') = add_diff listener same k bytes c in
            listener.write_new out new_bytes >>= λ out'.
            patch_add_old listener same fuel ((pos + k) % 2 ^ 32) (suc n - k) c' out')
          (cover_bytes old same pos (suc n) s)
  add_round same fuel n pos decode_step c s out small_old ih small (some_read, can) =
      let k : ℕ = at_most decode_step (suc n) in
      let (lo, hi, bound) = at_most_bounds decode_step (suc n) some_read (omega arith) in
      elim (Option-cases (old_bytes old pos k)) [
        | inl fails ↦
            rw
              (
                served.reads_old pos k,
                fails,
                cover_bytes-none old same pos k (suc n) s bound fails (omega arith),
              )
              tt
        | inr (bytes, e) ↦
            let (has_front, h', same_bytes) = can k bytes lo hi in
            let (out', e1, e2) = served.writes out (add_diff listener same k bytes c).0 in
            rw
              (
                served.reads_old pos k,
                e,
                e1,
                cover_bytes-split old same pos k (suc n) s bytes bound small_old e has_front,
              )
              (Related-right (Wrote listener contents written old served out')
                (Wrote listener contents written old served out) _ _ _
                (ih (suc n - k) ((pos + k) % 2 ^ 32) (add_diff listener same k bytes c).1
                  (behind same k s) out' (omega arith) h')
                λ a b w.
                  Wrote-step listener contents written old served out out'
                    (front_bytes same k bytes s) (e2 ∙ ap (λ t. written out ++ t) same_bytes) a b w)
      ]

  pub patch_add_old-Wrote :
      (same : Bool) (fuel pos n : ℕ) (c : InputCache H) (s : Source) (out : W)
      → length old < 2 ^ 32
      → n ≤ fuel
      → FollowsA c s
      → Related
          (Wrote listener contents written old served out)
          (patch_add_old listener same fuel pos n c out)
          (cover_bytes old same pos n s)
  unfolding patch_add_old
  patch_add_old-Wrote same fuel pos zero c s out small_old small h =
      unfold cover_bytes in (h, sym (append-nil (written out)))
  patch_add_old-Wrote same zero pos (suc n) c s out small_old small h = absurd (omega arith)
  patch_add_old-Wrote same (suc fuel) pos (suc n) c s out small_old small h =
      elim (add_step-cases same c s n pos h) [
        | inl (stuck, none_left) ↦ rw (stuck, none_left) tt
        | inr can ↦ rw (lt→ltb 0 (add_step listener same c).0 (omega (arith, can.0))) (
            add_round same fuel n pos (add_step listener same c).0 (add_step listener same c).1 s
              out small_old (λ k pos c s out. patch_add_old-Wrote same fuel pos k c s out small_old)
              (omega arith) can)
      ]
