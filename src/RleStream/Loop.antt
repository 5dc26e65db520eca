-- ===== src/RleStream/Loop.antt =====
-- The loop of _TBytesRle_load_stream_decode_add over the control bytes.
use hdiff_patch.Prelude.{
  ℕ, zero, suc, ◌^◌, ◌≤◌, ◌<◌, ◌≡◌, refl, sym, ap, ◌∙◌, subst, ◌⊎◌, inl, inr, true, false, not,
  ◌&&◌, Option, some, List, [], ◌∷◌, arith, ltb, ◌==◌, length, replicate, ◌>>=◌, ◌>>◌, check,
  Bool-cases, Option-cases, All-drop,
}
use hdiff_patch.Prelude.Related.{Related-some, Related-none}
use hdiff_patch.Varint.{max_packed_uint_bytes}
use hdiff_patch.Clip.{leave_size, is_finish}
use hdiff_patch.Clip.Reads.{Serves, IsClip, leave_size-length}
use hdiff_patch.RleStream.{Loader, Decoding, next_run, decode_loop}
use hdiff_patch.RleStream.Spec.{
  Pending, Bytes, behind, before, with_copy, runs_left, bytes_left, unfinished, read_run,
}
use hdiff_patch.RleStream.Steps.{pending, IsLoader, AreBytes, stays, after, Outcome}
use hdiff_patch.RleStream.MemAdd.{mem_add-Outcome}
use hdiff_patch.RleStream.Runs.{IsPending, next_run-read_run, read_run-less}

module _ {H : Type 0} (read : H → ℕ → ℕ → Option (List ℕ × H)) (Left : H → ℕ → List ℕ → Type 0)
    (serves : Serves read Left) (size : ℕ) where
  -- `if (decodeSize==0) return hpatch_TRUE; else return _hpatch_FALSE;`
  abbrev pub all_decoded : Decoding H → Option (Decoding H)
  all_decoded s = check (s.decode_size == 0) >> some s

  abbrev pub Decodes : (s : Decoding H) (left : Bytes) → Option (Decoding H) → Type 0
  Decodes s left result = Outcome read Left serves size s left result (λ s'. s'.decode_size ≡ 0)

  -- Where nothing is left to decode.
  decoded :
      (s : Decoding H) (left : Bytes)
      → IsLoader Left size s.loader left
      → s.decode_size ≡ 0
      → Decodes s left (all_decoded s)
  decoded s left h none_left =
      inr (s, rw none_left refl, stays read Left serves size s left h, none_left)

  -- A control byte behind which bytes are left to decode.
  unfinish :
      (s : Decoding H) (l : Loader H) (left : Bytes) (result : Option (Decoding H))
      → 0 < s.decode_size
      → Decodes (record s { loader = l }) left result
      → Decodes s (unfinished left) result
  unfinish s l ([], ends) result some_left (inl k) = inl k
  unfinish s l ([], ends) result some_left (inr (s', e, a, all)) =
      absurd (omega (arith, a.there, a.size_is))
  unfinish s l (b ∷ bytes, ends) result some_left (inl k) = inl k
  unfinish s l (b ∷ bytes, true) result some_left (inr (s', e, a, all)) = inr (
    s',
    e,
    record {
      count = a.count;
      there = a.there;
      fits = a.fits;
      size_is = a.size_is;
      out_is = a.out_is;
      settled_is = a.settled_is;
      loads = a.loads;
    },
    all,
  )
  unfinish s l (b ∷ bytes, false) result some_left (inr (s', e, a, all)) = inr (
    s',
    e,
    record {
      count = a.count;
      there = a.there;
      fits = a.fits;
      size_is = a.size_is;
      out_is = a.out_is;
      settled_is = a.settled_is;
      loads = a.loads;
    },
    all,
  )

  with_copy-zero : (code : List ℕ) (others : List ℕ → Bytes) → with_copy 0 code others ≡ others code
  with_copy-zero code others = ground arith

  -- What the runs of a loader are worth, from those of the control byte that it has read.
  left_of_run :
      (fuel byte : ℕ) (l l' : Loader H) (ctrl code : List ℕ) (p : Pending)
      → l.mem_copy_length ≡ 0
      → l.mem_set_length ≡ 0
      → read_run byte ctrl code ≡ some p
      → IsPending read Left serves size l' p
      → unfinished (bytes_left fuel (pending l' p.ctrl p.code))
        ≡ bytes_left (suc fuel) (pending l (byte ∷ ctrl) code)
  unfolding bytes_left runs_left
  left_of_run fuel byte l l' ctrl code p no_copy no_set e h =
      let others : List ℕ → Bytes = λ code'. runs_left fuel p.ctrl code' in
      let here : Bytes = runs_left (suc fuel) (byte ∷ ctrl) code in
      ap (λ r. unfinished (before r (with_copy l'.mem_copy_length p.code others))) h.sets
      ∙ ap
          (λ k.
            unfinished (before (replicate p.set_length p.set_value) (with_copy k p.code others)))
          h.copies
      ∙ rw e refl
      ∙ sym (with_copy-zero code (λ code'. runs_left (suc fuel) (byte ∷ ctrl) code'))
      ∙ ap (λ k. with_copy k code (λ code'. runs_left (suc fuel) (byte ∷ ctrl) code')) (sym no_copy)
      ∙ ap
          (λ k.
            before (replicate k l.mem_set_value) (
              with_copy l.mem_copy_length code (λ code'. runs_left (suc fuel) (byte ∷ ctrl) code')))
          (sym no_set)

  -- Nothing is left where the control bytes are used up, or where they cannot be read.
  nothing_left :
      (fuel : ℕ) (l : Loader H) (ctrl code : List ℕ) (left : Bytes)
      → l.mem_copy_length ≡ 0
      → l.mem_set_length ≡ 0
      → length (runs_left fuel ctrl code).0 ≡ 0
      → bytes_left fuel (pending l ctrl code) ≡ left
      → length left.0 ≡ 0
  unfolding bytes_left
  nothing_left fuel l ctrl code left no_copy no_set none_there e =
      ap (λ (b : Bytes). length b.0)
        (sym e
          ∙ ap
              (λ k.
                before (replicate k l.mem_set_value)
                  (with_copy l.mem_copy_length code (λ code'. runs_left fuel ctrl code')))
              no_set
          ∙ ap (λ k. with_copy k code (λ code'. runs_left fuel ctrl code')) no_copy
          ∙ with_copy-zero code (λ code'. runs_left fuel ctrl code'))
      ∙ none_there

  nothing_to_do :
      (s : Decoding H)
      → s.decode_size ≡ 0
      → (ltb 0 s.decode_size && not (is_finish read s.loader.ctrl_clip)) ≡ false
  nothing_to_do s none_left = ground (arith, none_left)

  -- A loader without control bytes.
  used_up :
      (s : Decoding H) (left : Bytes) (g : ℕ) (code : List ℕ)
      → IsClip Left size s.loader.ctrl_clip []
      → IsClip Left size s.loader.rle_code_clip code
      → bytes_left g (pending s.loader [] code) ≡ left
      → s.loader.mem_set_length ≡ 0
      → s.loader.mem_copy_length ≡ 0
      → Decodes s left (all_decoded s)
  unfolding runs_left
  used_up s left g code h k e no_set no_copy = elim (Bool-cases (s.decode_size == 0)) [
    | inl none_left ↦
        decoded s left
          (record {
            ctrl = [];
            code = code;
            fuel = g;
            ctrl_holds = h;
            code_holds = k;
            enough = omega arith;
            bytes_are = e;
          })
          (ground (arith, none_left))
    | inr some_left ↦ inl (
      rw some_left refl,
      ground (arith, some_left, nothing_left g s.loader [] code left no_copy no_set refl e),
    )
  ]

  pub decode_loop-Decodes :
      (fuel : ℕ) (s : Decoding H) (left : Bytes) (g : ℕ) (ctrl code : List ℕ)
      → IsClip Left size s.loader.ctrl_clip ctrl
      → IsClip Left size s.loader.rle_code_clip code
      → length ctrl ≤ g
      → bytes_left g (pending s.loader ctrl code) ≡ left
      → AreBytes s.out_data
      → max_packed_uint_bytes ≤ size
      → (s.decode_size ≡ 0) ⊎ ((s.loader.mem_set_length ≡ 0) × (s.loader.mem_copy_length ≡ 0))
      → length ctrl ≤ fuel
      → Decodes s left (decode_loop read fuel s >>= all_decoded)
  unfolding decode_loop runs_left
  decode_loop-Decodes zero s left g [] code h k gas e bytes fits (inl none_left) enough =
      decoded s left
        (record {
          ctrl = [];
          code = code;
          fuel = g;
          ctrl_holds = h;
          code_holds = k;
          enough = gas;
          bytes_are = e;
        })
        none_left
  decode_loop-Decodes zero s left g (b ∷ ctrl) code h k gas e bytes fits settled enough =
      absurd (omega arith)
  decode_loop-Decodes zero s left g [] code h k gas e bytes fits (inr (no_set, no_copy)) enough =
      used_up s left g code h k e no_set no_copy
  decode_loop-Decodes (suc fuel) s left g ctrl code h k gas e bytes fits (inl none_left) enough =
      rw (nothing_to_do s none_left) (
        decoded s left
          (record {
            ctrl = ctrl;
            code = code;
            fuel = g;
            ctrl_holds = h;
            code_holds = k;
            enough = gas;
            bytes_are = e;
          })
          none_left)
  decode_loop-Decodes (suc fuel) s left g [] code h k gas e bytes fits (inr (no_set, no_copy))
        enough =
      let stop : (ltb 0 s.decode_size && not (is_finish read s.loader.ctrl_clip)) ≡ false =
        ground (arith, leave_size-length read Left serves h) in
      rw stop (used_up s left g code h k e no_set no_copy)
  decode_loop-Decodes (suc fuel) s left zero (byte ∷ ctrl) code h k gas e bytes fits
        (inr (no_set, no_copy)) enough =
      absurd (omega arith)
  decode_loop-Decodes (suc fuel) s left (suc g) (byte ∷ ctrl) code h k gas e bytes fits
        (inr (no_set, no_copy)) enough =
      elim (Bool-cases (s.decode_size == 0)) [
        | inl none_left ↦
            let zero_left : s.decode_size ≡ 0 = ground (arith, none_left) in
            rw (nothing_to_do s zero_left) (
              decoded s left
                (record {
                  ctrl = byte ∷ ctrl;
                  code = code;
                  fuel = suc g;
                  ctrl_holds = h;
                  code_holds = k;
                  enough = gas;
                  bytes_are = e;
                })
                zero_left)
        | inr some_left ↦
            let goes : (ltb 0 s.decode_size && not (is_finish read s.loader.ctrl_clip)) ≡ true =
              ground (arith, some_left, leave_size-length read Left serves h) in
            let more : 0 < s.decode_size = ground (arith, some_left) in
            let related =
              next_run-read_run read Left serves size s.loader byte ctrl code no_copy no_set h k
                fits in
            elim (Option-cases (read_run byte ctrl code)) [
              | inl fails ↦ inl (
                rw
                    (
                      goes,
                      Related-none (IsPending read Left serves size) (next_run read s.loader)
                          (read_run byte ctrl code) related fails,
                    )
                    refl,
                omega (
                  arith,
                  nothing_left (suc g) s.loader (byte ∷ ctrl) code left no_copy no_set
                      (rw fails refl) e,
                ),
              )
              | inr (p, reads) ↦
                  let (l, next, has) =
                    Related-some (IsPending read Left serves size) (next_run read s.loader)
                      (read_run byte ctrl code) p related reads in
                  let less = read_run-less byte ctrl code p reads in
                  let s1 : Decoding H = record s { loader = l } in
                  let left1 : Bytes = bytes_left g (pending l p.ctrl p.code) in
                  let loads : IsLoader Left size l left1 = record {
                    ctrl = p.ctrl;
                    code = p.code;
                    fuel = g;
                    ctrl_holds = has.ctrl_has;
                    code_holds = has.code_has;
                    enough = omega arith;
                    bytes_are = refl;
                  } in
                  let same_left : unfinished left1 ≡ left =
                    left_of_run g byte s.loader l ctrl code p no_copy no_set reads has ∙ e in
                  subst (λ b. Decodes s b (decode_loop read (suc fuel) s >>= all_decoded)) same_left
                    (unfinish s l left1 (decode_loop read (suc fuel) s >>= all_decoded) more (
                      rw (goes, next)
                        (elim (mem_add-Outcome read Left serves size s1 left1 loads (omega arith)
                          bytes) [
                            | inl (fails, few) ↦ inl (rw fails refl, few)
                            | inr (s2, added, a, (settled, same)) ↦ rw added (
                                after read Left serves size s1 s2 left1
                                  (decode_loop read fuel s2 >>= all_decoded) a
                                  (decode_loop-Decodes fuel s2 (behind a.count left1) a.loads.fuel
                                    a.loads.ctrl a.loads.code a.loads.ctrl_holds a.loads.code_holds
                                    a.loads.enough a.loads.bytes_are
                                    (subst (λ o. AreBytes o) (sym a.out_is)
                                      (All-drop (λ b. b < 2 ^ 8) a.count s.out_data bytes))
                                    fits settled
                                    (omega (
                                      arith,
                                      leave_size-length read Left serves has.ctrl_has,
                                      leave_size-length read Left serves a.loads.ctrl_holds,
                                      ap (λ c. leave_size read c) same,
                                    ))))
                          ])))
            ]
      ]
