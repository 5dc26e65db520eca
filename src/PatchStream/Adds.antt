-- ===== src/PatchStream/Adds.antt =====
-- Old bytes with their differences, and differences that are skipped.
use hdiff_patch.Prelude.{
  ℕ, zero, suc, ◌+◌, ◌-◌, ◌%◌, ◌^◌, ◌≤◌, ◌<◌, ◌≡◌, refl, sym, ap, ◌∙◌, subst, Bool, Option, some,
  List, [], ◌++◌, arith, length, take, drop, ◌>>=◌, append-nil, append_assoc, length-append,
  length-take, length-drop, drop-drop, All-take, All-drop,
}
use hdiff_patch.Prelude.Related.{Related-some}
use hdiff_patch.Varint.{max_packed_uint_bytes}
use hdiff_patch.MemPatch.{add_data, cut}
use hdiff_patch.MemPatch.Bounds.{length-add_data}
use hdiff_patch.Clip.{at_most}
use hdiff_patch.Clip.Reads.{Serves, at_most_lem}
use hdiff_patch.Clip.Skips.{cut-some}
use hdiff_patch.OutCache.{OutCache, out_write}
use hdiff_patch.OutCache.Writes.{Accepts, IsOut, out_write-IsOut}
use hdiff_patch.RleStream.{Loader, decode_add}
use hdiff_patch.RleStream.Spec.{both_parts}
use hdiff_patch.RleStream.Steps.{IsLoader, AreBytes}
use hdiff_patch.RleStream.Decode.{Added, decode_add-cut}
use hdiff_patch.PatchStream.{patch_add_old_with_rle, rle_decode_skip}

-- A stream that is read anywhere: `Holds stream whole` says that its bytes are `whole`.
abbrev pub Random :
    {O : Type 0} → (O → ℕ → ℕ → Option (List ℕ × O)) → (O → List ℕ → Type 0) → Type 0
Random {O} read Holds =
    (stream : O) (whole : List ℕ) (pos n : ℕ)
    → Holds stream whole
    → pos + n ≤ length whole
    → (stream' : O) × (read stream pos n ≡ some (take n (drop pos whole), stream'))
      × Holds stream' whole

-- The first `n` bytes from `pos` on.
abbrev pub part : (pos n : ℕ) → List ℕ → List ℕ
part pos n whole = take n (drop pos whole)

length-part : (pos n : ℕ) (whole : List ℕ) → pos + n ≤ length whole → length (part pos n whole) ≡ n
length-part pos n whole h = omega (arith, length-take n (drop pos whole), length-drop pos whole)

-- Adding a part in two steps.
add_parts :
    (pos m n : ℕ) (old bytes : List ℕ)
    → add_data (part pos m old) (take m bytes)
        ++ add_data (part (pos + m) n old) (take n (drop m bytes))
      ≡ add_data (part pos (m + n) old) (take (m + n) bytes)
add_parts pos m n old bytes = rw (← drop-drop pos m old) (both_parts m n (drop pos old) bytes)

module _ {H : Type 0} (read : H → ℕ → ℕ → Option (List ℕ × H)) (Left : H → ℕ → List ℕ → Type 0)
    (serves : Serves read Left) (size : ℕ) (room_for_number : max_packed_uint_bytes ≤ size) where
  decode_add-some :
      (l : Loader H) (out : List ℕ) (n : ℕ) (bytes : List ℕ) (ends : Bool)
      → IsLoader Left size l (bytes, ends)
      → AreBytes out
      → length out ≤ n
      → n ≤ length bytes
      → (l' : Loader H) × (decode_add read l out n ≡ some (add_data out (take n bytes), l'))
        × IsLoader Left size l' (drop n bytes, ends)
  decode_add-some l out n bytes ends h are fits there =
      let ((added, l'), e, (added_is, h')) =
        Related-some (Added read Left serves size out ends) (decode_add read l out n) (cut n bytes)
          (take n bytes, drop n bytes)
          (decode_add-cut read Left serves size l out n bytes ends h are fits room_for_number)
          (cut-some n bytes there) in
      (l', e ∙ ap (λ a. some (a, l')) added_is, h')

  -- _rle_decode_skip
  pub rle_decode_skip-some :
      (fuel : ℕ) (l : Loader H) (n : ℕ) (bytes : List ℕ) (ends : Bool)
      → IsLoader Left size l (bytes, ends)
      → n ≤ length bytes
      → n ≤ fuel
      → (l' : Loader H) × (rle_decode_skip read fuel l n ≡ some l')
        × IsLoader Left size l' (drop n bytes, ends)
  unfolding rle_decode_skip
  rle_decode_skip-some fuel l zero bytes ends h there enough = (l, refl, h)
  rle_decode_skip-some zero l (suc n) bytes ends h there enough = absurd (omega arith)
  rle_decode_skip-some (suc fuel) l (suc n) bytes ends h there enough =
      let len : ℕ = at_most (2 ^ 64 - 1) (suc n) in
      let len_is = at_most_lem (2 ^ 64 - 1) (suc n) in
      let (l', e, h') = decode_add-some l [] len bytes ends h tt (omega arith) (omega arith) in
      let (l'', e', h'') =
        rle_decode_skip-some fuel l' (suc n - len) (drop len bytes) ends h'
          (omega (arith, length-drop len bytes)) (omega arith) in
      let parts : len + (suc n - len) ≡ suc n = omega arith in
      (
        l'',
        rw e e',
        subst (λ r. IsLoader Left size l'' (r, ends))
            (drop-drop len (suc n - len) bytes ∙ ap (λ k. drop k bytes) parts) h'',
      )

  module _ {W O : Type 0} (write : W → ℕ → List ℕ → Option W) (Written : W → List ℕ → Type 0)
      (new_size : ℕ) (accepts : Accepts write Written new_size) (new_fits : new_size < 2 ^ 64)
      (read_old : O → ℕ → ℕ → Option (List ℕ × O)) (Holds : O → List ℕ → Type 0)
      (random : Random read_old Holds) (old : List ℕ) (old_fits : length old < 2 ^ 64)
      (old_bytes : AreBytes old) where
    -- The statements of one round.
    abbrev old_step :
        OutCache W
        → Loader H
        → O
        → (pos step : ℕ) → (OutCache W → Loader H → O → Option (OutCache W × Loader H × O))
        → Option (OutCache W × Loader H × O)
    old_step out l o pos step k = read_old o pos step >>= λ (bytes, o').
        decode_add read l bytes step >>= λ (added, l').
        out_write write (length added) out added >>= λ out'. k out' l' o'

    -- What a round of `step` bytes leaves.
    old_step-some :
        {room : ℕ} (out : OutCache W) (all : List ℕ) (l : Loader H) (o : O) (pos step : ℕ)
        (bytes : List ℕ) (ends : Bool)
        → IsOut Written room out all
        → IsLoader Left size l (bytes, ends)
        → Holds o old
        → pos + step ≤ length old
        → step ≤ length bytes
        → length all + step ≤ new_size
        → (out' : OutCache W) × (l' : Loader H) × (o' : O) × ((k : OutCache W
              → Loader H
              → O
              → Option (OutCache W × Loader H × O))
            → old_step out l o pos step k ≡ k out' l' o')
          × IsOut Written room out' (all ++ add_data (part pos step old) (take step bytes))
          × IsLoader Left size l' (drop step bytes, ends)
          × Holds o' old
    old_step-some out all l o pos step bytes ends h k has inside there fits =
        let chunk : List ℕ = part pos step old in
        let chunk_size : length chunk ≡ step = length-part pos step old inside in
        let (o', got, has') = random o old pos step has inside in
        let (l', e, k') =
          decode_add-some l chunk step bytes ends k
            (All-take (λ b. b < 2 ^ 8) step (drop pos old)
              (All-drop (λ b. b < 2 ^ 8) pos old old_bytes))
            (omega arith) there in
        let added : List ℕ = add_data chunk (take step bytes) in
        let added_size : length added ≡ step =
          length-add_data chunk (take step bytes) ∙ chunk_size in
        let (out', sent, h') =
          out_write-IsOut write Written new_size accepts new_fits (length added) added h
            (omega arith) (omega arith) in
        (out', l', o', (λ k. rw (got, e, sent) refl), h', k', has')

    -- _patch_add_old_with_rle
    pub patch_add_old_with_rle-some :
        (fuel : ℕ) {room : ℕ} (out : OutCache W) (all : List ℕ) (l : Loader H) (o : O)
        (pos n cache_size : ℕ) (bytes : List ℕ) (ends : Bool)
        → IsOut Written room out all
        → IsLoader Left size l (bytes, ends)
        → Holds o old
        → n ≤ fuel
        → 0 < cache_size
        → pos + n ≤ length old
        → n ≤ length bytes
        → length all + n ≤ new_size
        → (out' : OutCache W) × (l' : Loader H) × (o' : O) × (patch_add_old_with_rle read write
              read_old fuel out l o pos n cache_size
            ≡ some (out', l', o'))
          × IsOut Written room out' (all ++ add_data (part pos n old) (take n bytes))
          × IsLoader Left size l' (drop n bytes, ends)
          × Holds o' old
    unfolding patch_add_old_with_rle add_data
    patch_add_old_with_rle-some fuel {room} out all l o pos zero cache_size bytes ends h k has
          enough some_cache inside there fits =
        (out, l, o, refl, subst (λ a. IsOut Written room out a) (sym (append-nil all)) h, k, has)
    patch_add_old_with_rle-some zero out all l o pos (suc n) cache_size bytes ends h k has enough
          some_cache inside there fits =
        absurd (omega arith)
    patch_add_old_with_rle-some (suc fuel) {room} out all l o pos (suc n) cache_size bytes ends h k
          has enough some_cache inside there fits =
        let step : ℕ = at_most cache_size (suc n) in
        let step_is = at_most_lem cache_size (suc n) in
        let (out', l', o', round, h', k', has') =
          old_step-some out all l o pos step bytes ends h k has (omega arith) (omega arith)
            (omega arith) in
        let added : List ℕ = add_data (part pos step old) (take step bytes) in
        let added_size : length added ≡ step =
          length-add_data (part pos step old) (take step bytes)
          ∙ length-part pos step old (omega arith) in
        let next : (pos + step) % 2 ^ 64 ≡ pos + step = omega arith in
        let parts : step + (suc n - step) ≡ suc n = omega arith in
        let (out'', l'', o'', e', h'', k'', has'') =
          patch_add_old_with_rle-some fuel out' (all ++ added) l' o' (pos + step) (suc n - step)
            cache_size (drop step bytes) ends h' k' has' (omega arith) some_cache (omega arith)
            (omega (arith, length-drop step bytes)) (omega (arith, length-append all added)) in
        let whole : (all ++ added)
              ++ add_data (part (pos + step) (suc n - step) old)
                  (take (suc n - step) (drop step bytes))
            ≡ all ++ add_data (part pos (suc n) old) (take (suc n) bytes) =
          append_assoc all added (
            add_data (part (pos + step) (suc n - step) old) (take (suc n - step) (drop step bytes)))
          ∙ ap (λ a. all ++ a)
              (add_parts pos step (suc n - step) old bytes
                ∙ ap (λ j. add_data (part pos j old) (take j bytes)) parts) in
        (
          out'',
          l'',
          o'',
          round (λ c m p.
                patch_add_old_with_rle read write read_old fuel c m p ((pos + step) % 2 ^ 64)
                  (suc n - step) cache_size)
              ∙ ap
                  (λ q.
                    patch_add_old_with_rle read write read_old fuel out' l' o' q (suc n - step)
                      cache_size)
                  next
              ∙ e',
          subst (λ a. IsOut Written room out'' a) whole h'',
          subst (λ r. IsLoader Left size l'' (r, ends))
              (drop-drop step (suc n - step) bytes ∙ ap (λ j. drop j bytes) parts) k'',
          has'',
        )
