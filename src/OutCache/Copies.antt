-- ===== src/OutCache/Copies.antt =====
-- Copying from a stream or from a clip through the cache.
use hdiff_patch.Prelude.{
  ℕ, zero, suc, ◌+◌, ◌-◌, ◌^◌, ◌≤◌, ◌<◌, ◌≡◌, sym, ap, ◌∙◌, subst, inl, inr, Option, some, List,
  ◌++◌, arith, ltb, length, take, drop, ◌>>=◌, min, Bool-cases, append-nil, length-append,
  length-take, append_assoc, ltb→lt, ltb→le,
}
use hdiff_patch.Prelude.Related.{Related, Related-right}
use hdiff_patch.MemPatch.{cut}
use hdiff_patch.Clip.{Clip, at_most}
use hdiff_patch.Clip.Reads.{Serves, IsClip, at_most_lem}
use hdiff_patch.Clip.Skips.{cut-cut, cut-some, cut-none, read_data-some, read_data-none}
use hdiff_patch.OutCache.{OutCache, copy_from_clip}
use hdiff_patch.OutCache.Writes.{Accepts, IsOut, out_write-IsOut}

module _ {W : Type 0} (write : W → ℕ → List ℕ → Option W) (Written : W → List ℕ → Type 0) (size : ℕ)
    (accepts : Accepts write Written size) (size_fits : size < 2 ^ 64) {H : Type 0}
    (read : H → ℕ → ℕ → Option (List ℕ × H)) (Left : H → ℕ → List ℕ → Type 0)
    (serves : Serves read Left) where
  abbrev pub Copied :
      (room clip_size : ℕ) (all : List ℕ) → OutCache W × Clip H → List ℕ × List ℕ → Type 0
  Copied room clip_size all (c, src) (bytes, rest) =
      IsOut Written room c (all ++ bytes) × IsClip Left clip_size src rest

  -- _TOutStreamCache_copyFromClip appends the next `n` bytes of the clip, or fails where it has
  -- fewer, when both caches have room for a byte at least and the stream has room for the bytes.
  pub copy_from_clip-cut :
      (fuel : ℕ) {room clip_size : ℕ} {c : OutCache W} {all : List ℕ} {src : Clip H} {rest : List ℕ}
      (n : ℕ)
      → IsOut Written room c all
      → IsClip Left clip_size src rest
      → 0 < clip_size
      → n ≤ fuel
      → length all + n ≤ size
      → Related (Copied room clip_size all) (copy_from_clip write read fuel c src n) (cut n rest)
  unfolding copy_from_clip
  copy_from_clip-cut fuel {room} {clip_size} {c} {all} {src} {rest} zero h k some_size enough fits =
      rw (cut-some zero rest (omega arith))
        (subst (λ l. IsOut Written room c l) (sym (append-nil all)) h, k)
  copy_from_clip-cut zero (suc n) h k some_size enough fits = absurd (omega arith)
  copy_from_clip-cut (suc fuel) {room} {clip_size} {c} {all} {src} {rest} (suc n) h k some_size
        enough fits =
      let run : ℕ = at_most src.cache_end (suc n) in
      let run_is : run ≡ min (suc n) src.cache_end =
        omega (arith, at_most_lem src.cache_end (suc n)) in
      let size_is = k.cache_size in
      elim (Bool-cases (ltb (length rest) run)) [
        | inl short ↦
            let few = ltb→lt (length rest) run short in
            rw (read_data-none read Left serves run k few, cut-none (suc n) rest (omega arith)) tt
        | inr there ↦
            let many = ltb→le (length rest) run there in
            let (src', e, k') = read_data-some read Left serves run k (omega arith) many in
            let taken : length (take run rest) ≡ run = omega (arith, length-take run rest) in
            let (c', e', h') =
              out_write-IsOut write Written size accepts size_fits (length (take run rest))
                (take run rest) h (omega arith) (omega arith) in
            let parts : suc n ≡ run + (suc n - run) = omega arith in
            let split : cut (suc n) rest ≡ (
                cut (suc n - run) (drop run rest) >>= λ (bytes, rest').
                some (take run rest ++ bytes, rest')) =
              ap (λ j. cut j rest) parts ∙ cut-cut run (suc n - run) rest many in
            rw (e, e', split)
              (Related-right (Copied room clip_size (all ++ take run rest))
                (Copied room clip_size all) (copy_from_clip write read fuel c' src' (suc n - run))
                (cut (suc n - run) (drop run rest)) _
                (copy_from_clip-cut fuel (suc n - run) h' k' some_size (omega arith)
                  (omega (arith, length-append all (take run rest))))
                (λ (c'', src'') (bytes, rest') (o, q). (
                  subst (λ l. IsOut Written room c'' l) (append_assoc all (take run rest) bytes) o,
                  q,
                )))
      ]
