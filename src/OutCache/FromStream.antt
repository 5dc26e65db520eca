-- ===== src/OutCache/FromStream.antt =====
-- Copying from another stream through the cache.
use hdiff_patch.Prelude.{
  ℕ, zero, suc, ◌+◌, ◌-◌, ◌%◌, ◌^◌, ◌≤◌, ◌<◌, ◌≡◌, refl, sym, ap, ◌∙◌, subst, Option, some, List,
  ◌++◌, arith, length, take, drop, append-nil, length-append, length-take, length-drop, drop-drop,
  drop-take, take-take, bind_some, append_cut,
}
use hdiff_patch.OutCache.{OutCache, run_step, copy_stream_loop, copy_from_stream}
use hdiff_patch.OutCache.Writes.{Accepts, IsOut, Grown, put-IsOut, run_step-fits, checked}

-- What is relied on: a read inside the bytes `src` of the other stream gives these bytes, and leaves
-- what is written.
abbrev pub Supplies :
    {W : Type 0}
    → (W → ℕ → ℕ → Option (List ℕ × W))
    → (W → List ℕ → Type 0)
    → (src : List ℕ) → Type 0
Supplies {W} read Written src =
    (stream : W) (done : List ℕ) (pos n : ℕ)
    → Written stream done
    → pos + n ≤ length src
    → (stream' : W) × (read stream pos n ≡ some (take n (drop pos src), stream'))
      × Written stream' done

-- Two parts that follow each other.
join_parts :
    (all src : List ℕ) (pos run n : ℕ)
    → run ≤ n
    → (all ++ take run (drop pos src)) ++ take (n - run) (drop (pos + run) src)
      ≡ all ++ take n (drop pos src)
join_parts all src pos run n h =
    let more : run + (n - run) ≡ n = omega arith in
    let back : take (n - run) (drop (pos + run) src) ≡ drop run (take n (drop pos src)) =
      ap (λ l. take (n - run) l) (sym (drop-drop pos run src))
      ∙ sym (drop-take run (n - run) (drop pos src))
      ∙ ap (λ k. drop run (take k (drop pos src))) more in
    let front : take run (drop pos src) ≡ take run (take n (drop pos src)) =
      sym (take-take run (n - run) (drop pos src))
      ∙ ap (λ k. take run (take k (drop pos src))) more in
    ap (λ l. (all ++ take run (drop pos src)) ++ l) back
    ∙ ap (λ l. (all ++ l) ++ drop run (take n (drop pos src))) front
    ∙ append_cut run all (take n (drop pos src))

module _ {W : Type 0} (write : W → ℕ → List ℕ → Option W) (Written : W → List ℕ → Type 0) (size : ℕ)
    (accepts : Accepts write Written size) (size_fits : size < 2 ^ 64)
    (read : W → ℕ → ℕ → Option (List ℕ × W)) (src : List ℕ) (supplies : Supplies read Written src)
    (src_fits : length src < 2 ^ 64) where
  copy_stream_loop-IsOut :
      (fuel : ℕ) {room : ℕ} {c : OutCache W} {all : List ℕ} (pos n : ℕ)
      → IsOut Written room c all
      → pos + n ≤ length src
      → n ≤ fuel
      → length all + n ≤ size
      → Grown write Written size accepts size_fits room
          (copy_stream_loop write read fuel c pos n)
          (all ++ take n (drop pos src))
  unfolding copy_stream_loop
  copy_stream_loop-IsOut fuel {room} {c} {all} pos zero h there enough fits =
      (c, refl, subst (λ l. IsOut Written room c l) (sym (append-nil all)) h)
  copy_stream_loop-IsOut zero pos (suc n) h there enough fits = absurd (omega arith)
  copy_stream_loop-IsOut (suc fuel) {room} {c} {all} pos (suc n) h there enough fits =
      let run : ℕ = run_step write c (suc n) in
      let (some_room, short, no_more) =
        run_step-fits write Written size accepts size_fits (suc n) h (omega arith) in
      let bytes : List ℕ = take run (drop pos src) in
      let count : length bytes ≡ run =
        omega (arith, length-take run (drop pos src), length-drop pos src) in
      let (stream, e, w) = supplies c.dst_stream h.done pos run h.written (omega arith) in
      let read_out : IsOut Written room (record c { dst_stream = stream }) all = record {
        done = h.done;
        written = w;
        pos = h.pos;
        whole = h.whole;
        not_full = h.not_full;
        cache_size = h.cache_size;
        has_buf = h.has_buf;
      } in
      let (c', e', h') =
        put-IsOut write Written size accepts size_fits bytes read_out (omega arith) (omega arith) in
      let next : (pos + run) % 2 ^ 64 ≡ pos + run = omega arith in
      let (c'', e'', h'') =
        copy_stream_loop-IsOut fuel (pos + run) (suc n - run) h' (omega arith) (omega arith)
          (omega (arith, length-append all bytes)) in
      (
        c'',
        bind_some _ _ e (
            bind_some _ _ e'
              (ap (λ p. copy_stream_loop write read fuel c' p (suc n - run)) next ∙ e'')),
        subst (λ l. IsOut Written room c'' l) (join_parts all src pos run (suc n) no_more) h'',
      )

  -- _TOutStreamCache_copyFromStream appends the `n` bytes of another stream from a position on, when
  -- they lie inside that stream, the cache has room for a byte at least and the written stream has
  -- room for all of them.
  pub copy_from_stream-IsOut :
      (fuel : ℕ) {room : ℕ} {c : OutCache W} {all : List ℕ} (pos n : ℕ)
      → IsOut Written room c all
      → pos + n ≤ length src
      → n ≤ fuel
      → length all + n ≤ size
      → Grown write Written size accepts size_fits room
          (copy_from_stream write read fuel c pos n)
          (all ++ take n (drop pos src))
  unfolding copy_from_stream
  copy_from_stream-IsOut fuel {room} {c} pos n h there enough fits =
      checked write Written size accepts size_fits c.has_cache_buf
        (copy_stream_loop write read fuel c pos n) h.has_buf
        (copy_stream_loop-IsOut fuel pos n h there enough fits)
