-- ===== src/RleStream/Finish.antt =====
-- When a loader is finished.
use hdiff_patch.Prelude.{
  ℕ, zero, suc, ◌≡◌, refl, ◌∙◌, inl, inr, Bool, true, false, ◌&&◌, Option, List, [], ◌∷◌, arith,
  ltb, ◌==◌, length, replicate, Bool-cases, Option-cases,
}
use hdiff_patch.MemPatch.{is_empty}
use hdiff_patch.Clip.Reads.{Serves, leave_size-length}
use hdiff_patch.RleStream.{Loader, loader_is_finish}
use hdiff_patch.RleStream.Spec.{
  Bytes, before, with_copy, runs_left, bytes_left, read_run, unfinished,
}
use hdiff_patch.RleStream.Steps.{IsLoader}

-- The code ends: no bytes, and nothing behind them.
abbrev pub over : Bytes → Bool
over (bytes, ends) = is_empty bytes && ends

over-unfinished : (b : Bytes) → over (unfinished b) ≡ false
over-unfinished ([], true) = refl
over-unfinished ([], false) = refl
over-unfinished (x ∷ bytes, ends) = refl

-- Control bytes are left as long as there are some.
over-runs_left :
    (fuel : ℕ) (ctrl code : List ℕ)
    → over (runs_left fuel ctrl code) ≡ (length code == 0 && (length ctrl == 0))
unfolding runs_left
over-runs_left fuel [] code = ground arith
over-runs_left zero (b ∷ ctrl) code = ground arith
over-runs_left (suc fuel) (b ∷ ctrl) code = elim (Option-cases (read_run b ctrl code)) [
  | inl e ↦ rw e (ground arith)
  | inr (p, e) ↦ rw e (
      over-unfinished (
        before (replicate p.set_length p.set_value)
          (with_copy p.copy_length p.code λ code'. runs_left fuel p.ctrl code'))
      ∙ ground arith)
]

over-replicate :
    (k value : ℕ) (b : Bytes) → over (before (replicate k value) b) ≡ (k == 0 && over b)
over-replicate zero value b = ground arith
over-replicate (suc k) value b = ground arith

over-with_copy :
    (k : ℕ) (code : List ℕ) (others : List ℕ → Bytes)
    → over (with_copy k code others) ≡ (k == 0 && over (others code))
over-with_copy zero code others = ground arith
over-with_copy (suc k) [] others = ground arith
over-with_copy (suc k) (x ∷ code) others = elim (Bool-cases (ltb (length (x ∷ code)) (suc k))) [
  | inl short ↦ rw short (ground arith)
  | inr enough ↦ rw enough (ground arith)
]

module _ {H : Type 0} (read : H → ℕ → ℕ → Option (List ℕ × H)) (Left : H → ℕ → List ℕ → Type 0)
    (serves : Serves read Left) (size : ℕ) where
  -- _TBytesRle_load_stream_isFinish holds exactly when no bytes are left and the code ends there.
  pub loader_is_finish-over :
      (l : Loader H) (left : Bytes)
      → IsLoader Left size l left
      → loader_is_finish read l ≡ over left
  unfolding loader_is_finish bytes_left
  loader_is_finish-over l left h =
      let others : List ℕ → Bytes = λ code'. runs_left h.fuel h.ctrl code' in
      let ctrl_left = leave_size-length read Left serves h.ctrl_holds in
      let code_left = leave_size-length read Left serves h.code_holds in
      rw
        (
          ← h.bytes_are,
          over-replicate l.mem_set_length l.mem_set_value
              (with_copy l.mem_copy_length h.code others),
          over-with_copy l.mem_copy_length h.code others,
          over-runs_left h.fuel h.ctrl h.code,
          ctrl_left,
          code_left,
        )
        (ground arith)
