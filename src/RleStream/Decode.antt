-- ===== src/RleStream/Decode.antt =====
-- Decoding takes the next bytes of what the loader has left, or fails where there are too few.
use hdiff_patch.Prelude.{
  ℕ, ◌^◌, ◌≤◌, ◌<◌, ◌≡◌, refl, sym, ap, ◌∙◌, subst, inl, inr, Bool, Option, none, some, List, [],
  arith, ◌==◌, length, take, drop, ◌>>=◌, ◌>>◌, check, Bool-cases, All-drop, take_all,
}
use hdiff_patch.Prelude.Related.{Related}
use hdiff_patch.Varint.{max_packed_uint_bytes}
use hdiff_patch.Clip.{leave_size}
use hdiff_patch.Clip.Reads.{Serves, leave_size-length}
use hdiff_patch.Clip.Skips.{cut-some, cut-none}
use hdiff_patch.MemPatch.{cut, add_data}
use hdiff_patch.RleStream.{Loader, Decoding, decode_loop, decode_add}
use hdiff_patch.RleStream.Spec.{behind}
use hdiff_patch.RleStream.Steps.{IsLoader, AreBytes, after}
use hdiff_patch.RleStream.MemAdd.{mem_add-Outcome}
use hdiff_patch.RleStream.Loop.{all_decoded, Decodes, decode_loop-Decodes}

module _ {H : Type 0} (read : H → ℕ → ℕ → Option (List ℕ × H)) (Left : H → ℕ → List ℕ → Type 0)
    (serves : Serves read Left) (size : ℕ) where
  -- The buffer with the next bytes added, and the loader behind them.
  abbrev pub Added : List ℕ → Bool → List ℕ × Loader H → List ℕ × List ℕ → Type 0
  Added out ends (added, l) (bytes, rest) =
      (added ≡ add_data out bytes) × IsLoader Left size l (rest, ends)

  abbrev packed : Decoding H → Option (List ℕ × Loader H)
  packed s = some (s.settled, s.loader)

  pack :
      (result : Option (Decoding H))
      → (result >>= (all_decoded read Left serves size) >>= packed)
        ≡ (result >>= λ s. check (s.decode_size == 0) >> packed s)
  pack none = refl
  pack (some s) = elim (Bool-cases (s.decode_size == 0)) [ inl e ↦ rw e refl | inr e ↦ rw e refl ]

  to_cut :
      (l : Loader H) (out : List ℕ) (n : ℕ) (bytes : List ℕ) (ends : Bool)
      (result : Option (Decoding H))
      → length out ≤ n
      → Decodes read Left serves size
          (record { loader = l; settled = []; out_data = out; decode_size = n })
          (bytes, ends)
          result
      → Related (Added out ends) (result >>= packed) (cut n bytes)
  to_cut l out n bytes ends result fits (inl (fails, few)) = rw (fails, cut-none n bytes few) tt
  to_cut l out n bytes ends result fits (inr (s, e, a, all)) =
      let count_is : a.count ≡ n = omega (arith, a.size_is, a.fits) in
      let whole : take a.count out ≡ out = take_all a.count out (omega arith) in
      rw (e, cut-some n bytes (omega (arith, a.there)))
        (
          a.settled_is
              ∙ ap (λ o. add_data o (take a.count bytes)) whole
              ∙ ap (λ k. add_data out (take k bytes)) count_is,
          subst (λ k. IsLoader Left size s.loader (drop k bytes, ends)) count_is a.loads,
        )

  -- _TBytesRle_load_stream_decode_add adds the next `n` bytes to the buffer, or fails where fewer are
  -- left, when the caches have room for a number and the buffer holds bytes.
  pub decode_add-cut :
      (l : Loader H) (out : List ℕ) (n : ℕ) (bytes : List ℕ) (ends : Bool)
      → IsLoader Left size l (bytes, ends)
      → AreBytes out
      → length out ≤ n
      → max_packed_uint_bytes ≤ size
      → Related (Added out ends) (decode_add read l out n) (cut n bytes)
  unfolding decode_add
  decode_add-cut l out n bytes ends h are fits room =
      let s : Decoding H = record { loader = l; settled = []; out_data = out; decode_size = n } in
      elim (mem_add-Outcome read Left serves size s (bytes, ends) h (omega arith) are) [
        | inl (fails, few) ↦ rw (fails, cut-none n bytes few) tt
        | inr (s2, added, a, (settled, same)) ↦
            let loop = decode_loop read (leave_size read s2.loader.ctrl_clip) s2 in
            rw (added, ← pack loop)
              (to_cut l out n bytes ends (loop >>= (all_decoded read Left serves size)) fits (
                after read Left serves size s s2 (bytes, ends)
                  (loop >>= (all_decoded read Left serves size)) a
                  (decode_loop-Decodes read Left serves size (leave_size read s2.loader.ctrl_clip)
                    s2 (behind a.count (bytes, ends)) a.loads.fuel a.loads.ctrl a.loads.code
                    a.loads.ctrl_holds a.loads.code_holds a.loads.enough a.loads.bytes_are
                    (subst (λ o. AreBytes o) (sym a.out_is)
                      (All-drop (λ b. b < 2 ^ 8) a.count out are))
                    room settled
                    (omega (arith, leave_size-length read Left serves a.loads.ctrl_holds)))))
      ]
