-- ===== src/Lite/Refine.antt =====
-- The loops of hpatch_lite_patch do through the cache what the format says of the whole diff.
use hdiff_patch.Prelude.{
  ℕ, zero, suc, ◌-◌, ◌≤◌, ◌≡◌, refl, sym, ap, ◌∙◌, subst, inl, inr, Bool, none, some, List, [], ◌∷◌,
  ◌++◌, arith, length, take, drop, ◌>>=◌, ◌>>◌, check, length-append, append-nil, append_assoc,
  take_front, drop_front,
}
use hdiff_patch.Prelude.Related.{Related, Related-right}
use hdiff_patch.Lite.{Listener, InputCache, refill, at_most, patch_copy_diff}
use hdiff_patch.Lite.Spec.{Source, take_bytes}
use hdiff_patch.Lite.Chunks.{skip, take_bytes-split, take_bytes_zero, take_bytes_over}
use hdiff_patch.Lite.Cache.{IsServed, Reads, Updated, open_of, cache_update-Updated}

pub at_most_bounds :
    (step bound : ℕ)
    → 1 ≤ step
    → 1 ≤ bound
    → (1 ≤ at_most step bound) × (at_most step bound ≤ step) × (at_most step bound ≤ bound)
at_most_bounds step bound h k = ground arith

module _ {H W : Type 0} (listener : Listener H W) (contents : H → List ℕ) (written : W → List ℕ)
    (old : List ℕ) (served : IsServed listener contents written old) where
  abbrev pub Follows : InputCache H → Source → Type 0
  Follows = Reads listener contents written old served

  -- The cache follows the source, and the output has grown by the bytes.
  abbrev pub Wrote : W → InputCache H × W → List ℕ × Source → Type 0
  Wrote out (c, out') (bytes, s) = Follows c s × (written out' ≡ written out ++ bytes)

  -- A cache that is refilled: it has bytes, or the source has none.
  pub refill-Updated :
      (c : InputCache H) (s : Source) (unread : List ℕ)
      → c.unread ≡ unread
      → Follows c s
      → Updated listener contents written old served s (refill listener c unread)
  unfolding refill
  refill-Updated c s [] e h = cache_update-Updated listener contents written old served c s h e
  refill-Updated c s (b ∷ bytes) e h =
      let some_left : 1 ≤ length s.bytes = omega (
        arith,
        ap (λ l. length l) h.0,
        length-append c.unread (contents c.input_stream),
        ap (λ l. length l) e,
      ) in
      let is_open =
        open_of listener contents written old served c.cache_end s.is_over s.bytes h.1 some_left in
      inl (refl, h, omega (arith, ap (λ l. length l) e), is_open.1)

  -- Taking bytes out of a cache that has them.
  pub Follows-drop :
      (c : InputCache H) (s : Source) (k : ℕ)
      → Follows c s
      → 1 ≤ k
      → k ≤ length c.unread
      → Follows (record c { unread = drop k c.unread }) (skip k s)
        × (take k c.unread ≡ take k s.bytes)
        × (k ≤ length s.bytes)
  Follows-drop c s k (e, fits) lo hi =
      let some_left : k ≤ length s.bytes =
        omega (arith, ap (λ l. length l) e, length-append c.unread (contents c.input_stream)) in
      let is_open =
        open_of listener contents written old served c.cache_end s.is_over s.bytes fits
          (omega arith) in
      (
        (
          sym (drop_front k c.unread (contents c.input_stream) hi) ∙ ap (λ l. drop k l) e,
          inr is_open,
        ),
        sym (take_front k c.unread (contents c.input_stream) hi) ∙ ap (λ l. take k l) e,
        some_left,
      )

  -- The bytes of a step, then those of the other steps.
  pub Wrote-step :
      (out out' : W) (front : List ℕ)
      → written out' ≡ written out ++ front
      → (a : InputCache H × W) (b : List ℕ × Source) → Wrote out' a b
      → Wrote out a (front ++ b.0, b.1)
  Wrote-step out out' front e (c, o) (bytes, s) (h, k) =
      (h, k ∙ ap (λ t. t ++ bytes) e ∙ append_assoc (written out) front bytes)

  copy_step :
      (fuel n : ℕ) (s : Source) (ok : Bool) (c : InputCache H) (out : W)
      → ((k : ℕ) (c' : InputCache H) (s' : Source) (out' : W)
          → k ≤ fuel
          → Follows c' s'
          → Related (Wrote out') (patch_copy_diff listener fuel k c' out') (take_bytes k s'))
      → suc n ≤ suc fuel
      → Updated listener contents written old served s (ok, c)
      → Related
          (Wrote out)
          (check ok
            >> (listener.write_new out (take (at_most (length c.unread) (suc n)) c.unread)
                >>= λ out'.
                    patch_copy_diff listener fuel
                      (suc n - at_most (length c.unread) (suc n))
                      (record c { unread = drop (at_most (length c.unread) (suc n)) c.unread })
                      out'))
          (take_bytes (suc n) s)
  copy_step fuel n s ok c out ih small (inr (fails, h, empty, _)) =
      let none_left : take_bytes (suc n) s ≡ none = take_bytes_over n s empty in
      rw (fails, none_left) tt
  copy_step fuel n s ok c out ih small (inl (works, h, some_read, _)) =
      let k : ℕ = at_most (length c.unread) (suc n) in
      let (lo, hi, bound) = at_most_bounds (length c.unread) (suc n) some_read (omega arith) in
      let (h', e, left) = Follows-drop c s k h lo hi in
      let (out', e1, e2) = served.writes out (take k c.unread) in
      rw (works, e1, take_bytes-split k (suc n) s bound left)
        (Related-right (Wrote out') (Wrote out) _ _ _
          (ih (suc n - k) (record c { unread = drop k c.unread }) (skip k s) out' (omega arith) h')
          λ a b w. Wrote-step out out' (take k s.bytes) (e2 ∙ ap (λ t. written out ++ t) e) a b w)

  pub patch_copy_diff-Wrote :
      (fuel n : ℕ) (c : InputCache H) (s : Source) (out : W)
      → n ≤ fuel
      → Follows c s
      → Related (Wrote out) (patch_copy_diff listener fuel n c out) (take_bytes n s)
  unfolding patch_copy_diff
  patch_copy_diff-Wrote fuel zero c s out small h =
      subst (λ r. Related (Wrote out) (some (c, out)) r) (sym (take_bytes_zero s))
        (h, sym (append-nil (written out)))
  patch_copy_diff-Wrote zero (suc n) c s out small h = absurd (omega arith)
  patch_copy_diff-Wrote (suc fuel) (suc n) c s out small h =
      let (ok, c') = refill listener c c.unread in
      copy_step fuel n s ok c' out (λ k c s out. patch_copy_diff-Wrote fuel k c s out) small
        (refill-Updated c s c.unread refl h)
