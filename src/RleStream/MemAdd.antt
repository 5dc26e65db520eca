-- ===== src/RleStream/MemAdd.antt =====
-- _TBytesRle_load_stream_mem_add takes the next bytes of what the loader has left.
use hdiff_patch.Prelude.{
  ℕ, zero, suc, ◌-◌, ◌≤◌, ◌<◌, ◌≡◌, refl, sym, ap, ◌∙◌, subst, ◌⊎◌, inl, inr, ◌&&◌, Option, List,
  ◌++◌, arith, ltb, length, take, drop, replicate, Bool-cases, ltb→lt, ltb→le,
}
use hdiff_patch.MemPatch.{add_data}
use hdiff_patch.Clip.{at_most}
use hdiff_patch.Clip.Reads.{Serves, at_most_lem}
use hdiff_patch.Clip.Skips.{read_data-some, read_data-none}
use hdiff_patch.RleStream.{Loader, Decoding, mem_set_part, mem_copy_loop, mem_add}
use hdiff_patch.RleStream.Spec.{
  Bytes, behind, before, with_copy, runs_left, bytes_left, behind-copy, copy_short,
}
use hdiff_patch.RleStream.Steps.{
  IsLoader, Settled, AreBytes, stays, after, mem_set_part-Settled, Outcome, RunDone,
}

module _ {H : Type 0} (read : H → ℕ → ℕ → Option (List ℕ × H)) (Left : H → ℕ → List ℕ → Type 0)
    (serves : Serves read Left) (size : ℕ) where
  -- What is left where nothing of a run is set.
  copy_only :
      (l : Loader H) (left : Bytes)
      → (h : IsLoader Left size l left) → l.mem_set_length ≡ 0
      → with_copy l.mem_copy_length h.code (λ code'. runs_left h.fuel h.ctrl code') ≡ left
  unfolding bytes_left
  copy_only l left h none_set =
      ap
        (λ k.
          before (replicate k l.mem_set_value)
            (with_copy l.mem_copy_length h.code (λ code'. runs_left h.fuel h.ctrl code')))
        (sym none_set)
      ∙ h.bytes_are

  pub mem_copy_loop-Outcome :
      (fuel : ℕ) (s : Decoding H) (left : Bytes)
      → IsLoader Left size s.loader left
      → 0 < size
      → s.decode_size ≤ fuel
      → (s.decode_size ≡ 0) ⊎ (s.loader.mem_set_length ≡ 0)
      → Outcome read Left serves size s left
          (mem_copy_loop read fuel s)
          (RunDone read Left serves size s.loader.ctrl_clip)
  unfolding mem_copy_loop bytes_left
  mem_copy_loop-Outcome zero s left h some_size enough settled =
      inr (s, refl, stays read Left serves size s left h, (inl (omega arith), refl))
  mem_copy_loop-Outcome (suc fuel) s left h some_size enough settled =
      elim (Bool-cases (ltb 0 s.loader.mem_copy_length && ltb 0 s.decode_size)) [
        | inr stop ↦ inr (
          s,
          rw stop refl,
          stays read Left serves size s left h,
          (ground (arith, settled, stop), refl),
        )
        | inl go ↦
            let step : ℕ =
              at_most (at_most s.loader.rle_code_clip.cache_end s.loader.mem_copy_length)
                s.decode_size in
            let inner = at_most_lem s.loader.rle_code_clip.cache_end s.loader.mem_copy_length in
            let step_is =
              at_most_lem (at_most s.loader.rle_code_clip.cache_end s.loader.mem_copy_length)
                s.decode_size in
            let size_is = h.code_holds.cache_size in
            let none_set : s.loader.mem_set_length ≡ 0 = ground (arith, settled, go) in
            let others : List ℕ → Bytes = λ code'. runs_left h.fuel h.ctrl code' in
            let all_of = copy_only s.loader left h none_set in
            let positive : (0 < s.loader.mem_copy_length) × (0 < s.decode_size) =
              ground (arith, go) in
            elim (Bool-cases (ltb (length h.code) step)) [
              | inl short ↦
                  let few = ltb→lt (length h.code) step short in
                  inl (
                    rw (go, read_data-none read Left serves step h.code_holds few) refl,
                    omega (
                      arith,
                      ap (λ (l : Bytes). length l.0) all_of,
                      copy_short step s.loader.mem_copy_length h.code others (omega arith) few,
                    ),
                  )
              | inr there ↦
                  let many = ltb→le (length h.code) step there in
                  let (clip, e, holds) =
                    read_data-some read Left serves step h.code_holds (omega arith) many in
                  let (back, front, covers) =
                    behind-copy step s.loader.mem_copy_length h.code others (omega arith) many in
                  let s' : Decoding H = record s {
                    loader = record s.loader {
                      mem_copy_length = s.loader.mem_copy_length - step;
                      rle_code_clip = clip;
                    };
                    settled = s.settled ++ add_data (take step s.out_data) (take step h.code);
                    out_data = drop step s.out_data;
                    decode_size = s.decode_size - step;
                  } in
                  let loads : IsLoader Left size s'.loader (behind step left) = record {
                    ctrl = h.ctrl;
                    code = drop step h.code;
                    fuel = h.fuel;
                    ctrl_holds = h.ctrl_holds;
                    code_holds = holds;
                    enough = h.enough;
                    bytes_are =
                        ap
                          (λ k.
                            before (replicate k s.loader.mem_set_value) (
                              with_copy (s.loader.mem_copy_length - step) (drop step h.code)
                                others))
                          none_set
                        ∙ sym back
                        ∙ ap (λ l. behind step l) all_of;
                  } in
                  let first : take step left.0 ≡ take step h.code =
                    ap (λ (l : Bytes). take step l.0) (sym all_of) ∙ front in
                  let a : Settled Left size s s' left = record {
                    count = step;
                    there = omega (arith, ap (λ (l : Bytes). length l.0) all_of, covers);
                    fits = omega arith;
                    size_is = refl;
                    out_is = refl;
                    settled_is =
                        ap (λ l. s.settled ++ add_data (take step s.out_data) l) (sym first);
                    loads = loads;
                  } in
                  rw (go, e)
                    (after read Left serves size s s' left (mem_copy_loop read fuel s') a (
                      mem_copy_loop-Outcome fuel s' (behind step left) loads some_size (omega arith)
                        (inr none_set)))
            ]
      ]

  -- _TBytesRle_load_stream_mem_add
  pub mem_add-Outcome :
      (s : Decoding H) (left : Bytes)
      → IsLoader Left size s.loader left
      → 0 < size
      → AreBytes s.out_data
      → Outcome read Left serves size s left
          (mem_add read s)
          (RunDone read Left serves size s.loader.ctrl_clip)
  unfolding mem_add
  mem_add-Outcome s left h some_size bytes =
      let (a, settled, same) = mem_set_part-Settled read Left serves size s left h bytes in
      let s' : Decoding H = mem_set_part read s in
      after read Left serves size s s' left (mem_copy_loop read s'.decode_size s') a (
        subst
          (λ clip.
            Outcome read Left serves size s' (behind a.count left)
              (mem_copy_loop read s'.decode_size s') (RunDone read Left serves size clip))
          same
          (mem_copy_loop-Outcome s'.decode_size s' (behind a.count left) a.loads some_size
            (omega arith) settled))
