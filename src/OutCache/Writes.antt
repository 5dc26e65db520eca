-- ===== src/OutCache/Writes.antt =====
-- Writing through the cache appends to what is written.
use hdiff_patch.Prelude.{
  ℕ, zero, suc, ◌+◌, ◌-◌, ◌%◌, ◌^◌, ◌≤◌, ◌<◌, ◌≡◌, refl, sym, ap, ◌∙◌, subst, inl, inr, Bool, true,
  ◌>>◌, check, ◌&&◌, Option, some, List, [], ◌∷◌, ◌++◌, arith, leb, ◌==◌, length, take, drop,
  replicate, Bool-cases, append-nil, length-append, length-take, length-drop, length-replicate,
  append_assoc, append_cut, replicate_add,
}
use hdiff_patch.Clip.Reads.{at_most_lem}
use hdiff_patch.OutCache.{
  OutCache, write_stream, flush, flush_full, put, run_step, out_write, fill_loop, fill,
}

-- What the cache relies on: `Written stream bytes` says that the stream has `bytes`, and a write
-- behind them that the stream has room for appends.
abbrev pub Accepts :
    {W : Type 0} → (W → ℕ → List ℕ → Option W) → (W → List ℕ → Type 0) → (size : ℕ) → Type 0
Accepts {W} write Written size =
    (stream : W) (done bytes : List ℕ)
    → Written stream done
    → length done + length bytes ≤ size
    → (stream' : W) × (write stream (length done) bytes ≡ some stream')
      × Written stream' (done ++ bytes)

-- A cache of `room` bytes that `all` was written through; it is not full.
pub record IsOut {W : Type 0} (Written : W → List ℕ → Type 0) (room : ℕ) (c : OutCache W)
    (all : List ℕ) : Type 0 where
  pub done : List ℕ
  pub written : Written c.dst_stream done
  pub pos : c.write_to_pos ≡ length done
  pub whole : done ++ c.cached ≡ all
  pub not_full : length c.cached < room
  pub cache_size : c.cache_end ≡ room
  pub has_buf : c.has_cache_buf ≡ true

module _ {W : Type 0} (write : W → ℕ → List ℕ → Option W) (Written : W → List ℕ → Type 0) (size : ℕ)
    (accepts : Accepts write Written size) (size_fits : size < 2 ^ 64) where
  abbrev pub Grown : ℕ → Option (OutCache W) → List ℕ → Type 0
  Grown room result all = (c' : OutCache W) × (result ≡ some c') × IsOut Written room c' all

  write_stream-done :
      (c : OutCache W) (done bytes : List ℕ)
      → Written c.dst_stream done
      → c.write_to_pos ≡ length done
      → length done + length bytes ≤ size
      → (stream : W) × (write_stream write c bytes
          ≡ some (record c { write_to_pos = length (done ++ bytes); dst_stream = stream }))
        × Written stream (done ++ bytes)
  unfolding write_stream
  write_stream-done c done bytes w at fits =
      let (stream, e, w') = accepts c.dst_stream done bytes w fits in
      let behind : (c.write_to_pos + length bytes) % 2 ^ 64 ≡ length (done ++ bytes) =
        omega (arith, length-append done bytes) in
      (stream, rw (at, e) (rw (← at, behind) refl), w')

  -- A flush leaves nothing in the cache.
  pub flush-IsOut :
      (room : ℕ) (c : OutCache W) (done : List ℕ)
      → Written c.dst_stream done
      → c.write_to_pos ≡ length done
      → length done + length c.cached ≤ size
      → 0 < room
      → c.cache_end ≡ room
      → c.has_cache_buf ≡ true
      → (c' : OutCache W) × (flush write c ≡ some c')
        × IsOut Written room c' (done ++ c.cached)
        × (c'.cached ≡ [])
  unfolding flush
  flush-IsOut room c done w at fits some_room cache_size has_buf = from c.cached refl
    where
      from :
          (bytes : List ℕ)
          → c.cached ≡ bytes
          → (c' : OutCache W) × (flush write c ≡ some c')
            × IsOut Written room c' (done ++ c.cached)
            × (c'.cached ≡ [])
      from [] e = (
        c,
        rw e refl,
        record {
          done = done;
          written = w;
          pos = at;
          whole = refl;
          not_full = omega (arith, ap (λ l. length l) e);
          cache_size = cache_size;
          has_buf = has_buf;
        },
        e,
      )
      from (b ∷ bytes) e =
          let (stream, sent, w') = write_stream-done c done c.cached w at fits in
          (
            record c { write_to_pos = length (done ++ c.cached); dst_stream = stream; cached = [] },
            rw sent (rw e (ground arith)),
            record {
              done = done ++ c.cached;
              written = w';
              pos = refl;
              whole = append-nil (done ++ c.cached);
              not_full = some_room;
              cache_size = cache_size;
              has_buf = has_buf;
            },
            refl,
          )

  -- Bytes that the cache has room for.
  pub put-IsOut :
      {room : ℕ} {c : OutCache W} {all : List ℕ} (bytes : List ℕ)
      → IsOut Written room c all
      → length c.cached + length bytes ≤ room
      → length all + length bytes ≤ size
      → Grown room (put write c bytes) (all ++ bytes)
  unfolding flush_full
  put-IsOut {room} {c} {all} bytes h there fits =
      let joined : h.done ++ (c.cached ++ bytes) ≡ all ++ bytes =
        sym (append_assoc h.done c.cached bytes) ∙ ap (λ l. l ++ bytes) h.whole in
      elim (Bool-cases (length (c.cached ++ bytes) == c.cache_end)) [
        | inl full ↦
            let (c', e, h', _) =
              flush-IsOut room (record c { cached = c.cached ++ bytes }) h.done h.written h.pos
                (omega (
                  arith,
                  ap (λ l. length l) joined,
                  length-append h.done (c.cached ++ bytes),
                  length-append all bytes,
                ))
                (omega (arith, h.not_full)) h.cache_size h.has_buf in
            (c', rw full e, subst (λ l. IsOut Written room c' l) joined h')
        | inr short ↦ (
          record c { cached = c.cached ++ bytes },
          rw short refl,
          record {
            done = h.done;
            written = h.written;
            pos = h.pos;
            whole = joined;
            not_full = ground (arith, length-append c.cached bytes, h.cache_size);
            cache_size = h.cache_size;
            has_buf = h.has_buf;
          },
        )
      ]

  pub run_step-fits :
      {room : ℕ} {c : OutCache W} {all : List ℕ} (left : ℕ)
      → IsOut Written room c all
      → 0 < left
      → (0 < run_step write c left)
        × (length c.cached + run_step write c left ≤ room)
        × (run_step write c left ≤ left)
  run_step-fits {c = c} left h some_left =
      let n_is = at_most_lem (c.cache_end - length c.cached) left in
      (
        omega (arith, n_is, h.not_full, h.cache_size),
        omega (arith, n_is, h.not_full, h.cache_size),
        omega (arith, n_is),
      )

  -- A whole write, past the empty cache.
  direct-IsOut :
      {room : ℕ} {c : OutCache W} {all : List ℕ} (bytes : List ℕ)
      → IsOut Written room c all
      → length c.cached ≡ 0
      → length all + length bytes ≤ size
      → Grown room (write_stream write c bytes) (all ++ bytes)
  direct-IsOut {room} {c} {all} bytes h empty fits = from c.cached refl
    where
      from :
          (kept : List ℕ) → c.cached ≡ kept → Grown room (write_stream write c bytes) (all ++ bytes)
      from (k ∷ kept) e = absurd (omega (arith, ap (λ l. length l) e))
      from [] e =
          let before : h.done ≡ all =
            sym (append-nil h.done) ∙ ap (λ l. h.done ++ l) (sym e) ∙ h.whole in
          let (stream, sent, w) =
            write_stream-done c h.done bytes h.written h.pos
              (omega (arith, ap (λ l. length l) before)) in
          (
            record c { write_to_pos = length (h.done ++ bytes); dst_stream = stream },
            sent,
            record {
              done = h.done ++ bytes;
              written = w;
              pos = refl;
              whole =
                  ap (λ l. (h.done ++ bytes) ++ l) e
                  ∙ append-nil (h.done ++ bytes)
                  ∙ ap (λ l. l ++ bytes) before;
              not_full = h.not_full;
              cache_size = h.cache_size;
              has_buf = h.has_buf;
            },
          )

  -- _TOutStreamCache_write appends the bytes, when the cache has room for a byte at least and the
  -- stream has room for all the bytes.
  pub out_write-IsOut :
      (fuel : ℕ) {room : ℕ} {c : OutCache W} {all : List ℕ} (bytes : List ℕ)
      → IsOut Written room c all
      → length bytes ≤ fuel
      → length all + length bytes ≤ size
      → Grown room (out_write write fuel c bytes) (all ++ bytes)
  unfolding out_write
  out_write-IsOut fuel {room} {c} {all} [] h enough fits =
      (c, refl, subst (λ l. IsOut Written room c l) (sym (append-nil all)) h)
  out_write-IsOut zero (b ∷ bytes) h enough fits = absurd (omega arith)
  out_write-IsOut (suc fuel) {room} {c} {all} (b ∷ bytes) h enough fits =
      let n : ℕ = run_step write c (length (b ∷ bytes)) in
      let (some_room, there, no_more) = run_step-fits (length (b ∷ bytes)) h (omega arith) in
      let front = length-take n (b ∷ bytes) in
      let back = length-drop n (b ∷ bytes) in
      elim (Bool-cases (leb c.cache_end (length (b ∷ bytes)) && (length c.cached == 0))) [
        | inl direct ↦
            let (c', e, h') = direct-IsOut (b ∷ bytes) h (ground (arith, direct)) fits in
            (c', rw direct e, h')
        | inr cached ↦
            let (c', e, h') = put-IsOut (take n (b ∷ bytes)) h (omega arith) (omega arith) in
            let (c'', e', h'') =
              out_write-IsOut fuel (drop n (b ∷ bytes)) h' (omega arith)
                (omega (arith, length-append all (take n (b ∷ bytes)))) in
            (
              c'',
              rw (cached, e) e',
              subst (λ l. IsOut Written room c'' l) (append_cut n all (b ∷ bytes)) h'',
            )
      ]

  pub checked :
      {room : ℕ} {all : List ℕ} (b : Bool) (result : Option (OutCache W))
      → b ≡ true
      → Grown room result all
      → Grown room (check b >> result) all
  checked b result e grown = rw e grown

  -- The loop of _TOutStreamCache_fill.
  fill_loop-IsOut :
      (fuel : ℕ) {room : ℕ} {c : OutCache W} {all : List ℕ} (value n : ℕ)
      → IsOut Written room c all
      → n ≤ fuel
      → length all + n ≤ size
      → Grown room (fill_loop write fuel c value n) (all ++ replicate n value)
  unfolding fill_loop
  fill_loop-IsOut fuel {room} {c} {all} value zero h enough fits =
      (c, refl, subst (λ l. IsOut Written room c l) (sym (append-nil all)) h)
  fill_loop-IsOut zero value (suc n) h enough fits = absurd (omega arith)
  fill_loop-IsOut (suc fuel) {room} {c} {all} value (suc n) h enough fits =
      let run : ℕ = run_step write c (suc n) in
      let (some_room, there, no_more) = run_step-fits (suc n) h (omega arith) in
      let ran = length-replicate run value in
      let (c', e, h') = put-IsOut (replicate run value) h (omega arith) (omega arith) in
      let (c'', e', h'') =
        fill_loop-IsOut fuel value (suc n - run) h' (omega arith)
          (omega (arith, length-append all (replicate run value))) in
      let all_of_them : run + (suc n - run) ≡ suc n = omega arith in
      let joined : (all ++ replicate run value) ++ replicate (suc n - run) value
          ≡ all ++ replicate (suc n) value =
        append_assoc all (replicate run value) (replicate (suc n - run) value)
        ∙ ap (λ l. all ++ l)
            (replicate_add run (suc n - run) value ∙ ap (λ k. replicate k value) all_of_them) in
      (c'', rw e e', subst (λ l. IsOut Written room c'' l) joined h'')

  -- _TOutStreamCache_fill appends `n` bytes of one value, when the cache has room for a byte at
  -- least and the stream has room for all of them.
  pub fill-IsOut :
      (fuel : ℕ) {room : ℕ} {c : OutCache W} {all : List ℕ} (value n : ℕ)
      → IsOut Written room c all
      → n ≤ fuel
      → length all + n ≤ size
      → Grown room (fill write fuel c value n) (all ++ replicate n value)
  unfolding fill
  fill-IsOut fuel {room} {c} {all} value n h enough fits =
      checked c.has_cache_buf (fill_loop write fuel c value n) h.has_buf
        (fill_loop-IsOut fuel value n h enough fits)
