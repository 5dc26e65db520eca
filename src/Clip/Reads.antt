-- ===== src/Clip/Reads.antt =====
-- Reading through the cache is reading the bytes of the clip one after the other.
use hdiff_patch.Prelude.{
  ℕ, ◌+◌, ◌-◌, ◌^◌, ◌≤◌, ◌<◌, ◌≡◌, refl, sym, ap, ◌∙◌, subst, inl, inr, Option, none, some, List,
  ◌++◌, arith, ltb, ◌==◌, length, take, drop, ◌>>=◌, min, Bool-cases, Option-cases, length-append,
  length-take, length-drop, append_assoc, take-append-drop, take_front, drop_front, take-min,
  lt→ltb, le→ltb, ltb→lt, ltb→le,
}
use hdiff_patch.Prelude.Related.{Related}
use hdiff_patch.Varint.{unpack_uint_with_tag, unpack_within, max_packed_uint_bytes}
use hdiff_patch.Varint.Decode.{unpack_leaves}
use hdiff_patch.MemPatch.{cut}
use hdiff_patch.Clip.{
  Clip, at_most, left_in_stream, leave_size, fill_cache, update_cache, access_data,
  skip_data_no_check, read_data, clip_unpack_uint_with_tag,
}

-- What a clip relies on: `Left stream pos bytes` says that the bytes of the clip from `pos` on are
-- `bytes`, and a read inside them delivers them and leaves those behind.
abbrev pub Serves :
    {H : Type 0} → (H → ℕ → ℕ → Option (List ℕ × H)) → (H → ℕ → List ℕ → Type 0) → Type 0
Serves {H} read Left =
    (stream : H) (pos n : ℕ) (bytes : List ℕ)
    → Left stream pos bytes
    → n ≤ length bytes
    → (stream' : H) × (read stream pos n ≡ some (take n bytes, stream'))
      × Left stream' (pos + n) (drop n bytes)

-- A clip with a cache of `size` bytes that has `rest` left.
pub record IsClip {H : Type 0} (Left : H → ℕ → List ℕ → Type 0) (size : ℕ) (c : Clip H)
    (rest : List ℕ) : Type 0 where
  pub more : List ℕ
  pub left : Left c.src_stream c.stream_pos more
  pub whole : c.cached ++ more ≡ rest
  pub pos_fits : c.stream_pos + length more ≡ c.stream_pos_end
  pub end_fits : c.stream_pos_end < 2 ^ 64
  pub rest_fits : length rest < 2 ^ 64
  pub room : length c.cached ≤ size
  pub cache_size : c.cache_end ≡ size
  pub was_read : length c.cached ≤ c.stream_pos

pub at_most_lem : (size bound : ℕ) → at_most size bound ≡ min size bound
at_most_lem size bound = ground arith

drop_taken :
    (used limit : ℕ) (xs : List ℕ)
    → used ≤ length (take limit xs)
    → drop used xs ≡ drop used (take limit xs) ++ drop limit xs
drop_taken used limit xs h =
    ap (λ l. drop used l) (sym (take-append-drop limit xs))
    ∙ drop_front used (take limit xs) (drop limit xs) h

module _ {H : Type 0} (read : H → ℕ → ℕ → Option (List ℕ × H)) (Left : H → ℕ → List ℕ → Type 0)
    (serves : Serves read Left) where
  pub length-rest :
      {size : ℕ} {c : Clip H} {rest : List ℕ}
      → (h : IsClip Left size c rest) → length rest ≡ length c.cached + length h.more
  length-rest {c = c} h = omega (arith, ap (λ l. length l) h.whole, length-append c.cached h.more)

  pub left_in_stream-more :
      {size : ℕ} {c : Clip H} {rest : List ℕ}
      → (h : IsClip Left size c rest) → left_in_stream read c ≡ length h.more
  left_in_stream-more h = omega (arith, length-rest h)

  pub leave_size-length :
      {size : ℕ} {c : Clip H} {rest : List ℕ}
      → (h : IsClip Left size c rest) → leave_size read c ≡ length rest
  leave_size-length {c = c} h = omega (arith, length-rest h, left_in_stream-more h)

  -- An update of a clip succeeds, leaves the bytes that the clip has and fills the cache as far as
  -- there are bytes.
  pub update_cache-IsClip :
      {size : ℕ} {c : Clip H} {rest : List ℕ}
      → IsClip Left size c rest
      → (c' : Clip H) × (update_cache read c ≡ some c')
        × IsClip Left size c' rest
        × (length c'.cached ≡ min size (length rest))
  unfolding update_cache fill_cache
  update_cache-IsClip {size} {c} {rest} h =
      let n : ℕ = at_most (c.cache_end - length c.cached) (left_in_stream read c) in
      let n_is : n ≡ min (size - length c.cached) (length h.more) = omega (
        arith,
        at_most_lem (c.cache_end - length c.cached) (left_in_stream read c),
        left_in_stream-more h,
        h.cache_size,
      ) in
      elim (Bool-cases (n == 0)) [
        | inl full ↦ (c, rw full refl, h, ground (arith, length-rest h, n_is))
        | inr short ↦
            let (stream, e, left) =
              serves c.src_stream c.stream_pos n h.more h.left (omega arith) in
            (
              record c {
                cached = c.cached ++ take n h.more;
                stream_pos = c.stream_pos + n;
                src_stream = stream;
              },
              rw (short, e) refl,
              record {
                more = drop n h.more;
                left = left;
                whole =
                    append_assoc c.cached (take n h.more) (drop n h.more)
                    ∙ ap (λ l. c.cached ++ l) (take-append-drop n h.more)
                    ∙ h.whole;
                pos_fits = omega (arith, length-drop n h.more, h.pos_fits);
                end_fits = h.end_fits;
                rest_fits = h.rest_fits;
                room = omega (arith, length-append c.cached (take n h.more), length-take n h.more);
                cache_size = h.cache_size;
                was_read = omega (
                  arith,
                  length-append c.cached (take n h.more),
                  length-take n h.more,
                  h.was_read,
                );
              },
              omega (
                arith,
                length-append c.cached (take n h.more),
                length-take n h.more,
                length-rest h,
              ),
            )
      ]

  abbrev Accessed : ℕ → Clip H → List ℕ → (n : ℕ) → Type 0
  Accessed size c rest n =
      (c' : Clip H) × (access_data read c n ≡ some c')
      × IsClip Left size c' rest
      × (n ≤ length c'.cached)

  pub access_data-some :
      {size : ℕ} {c : Clip H} {rest : List ℕ} (n : ℕ)
      → IsClip Left size c rest
      → n ≤ size
      → n ≤ length rest
      → Accessed size c rest n
  unfolding access_data
  access_data-some {c = c} n h fits enough = elim (Bool-cases (ltb (length c.cached) n)) [
    | inl short ↦
        let (c', e, h', full) = update_cache-IsClip h in
        (c', rw (short, e, le→ltb (length c'.cached) n (omega arith)) refl, h', omega arith)
    | inr cached_enough ↦ (c, rw cached_enough refl, h, ltb→le (length c.cached) n cached_enough)
  ]

  pub access_data-none :
      {size : ℕ} {c : Clip H} {rest : List ℕ} (n : ℕ)
      → IsClip Left size c rest
      → length rest < n
      → access_data read c n ≡ none
  unfolding access_data
  access_data-none {c = c} n h short =
      let (c', e, h', full) = update_cache-IsClip h in
      rw
        (
          lt→ltb (length c.cached) n (omega (arith, length-rest h)),
          e,
          lt→ltb (length c'.cached) n (omega arith),
        )
        refl

  -- Skipping bytes that are in the cache.
  pub skip-IsClip :
      {size : ℕ} {c : Clip H} {rest : List ℕ} (n : ℕ)
      → IsClip Left size c rest
      → n ≤ length c.cached
      → IsClip Left size (skip_data_no_check read c n) (drop n rest)
        × (take n c.cached ≡ take n rest)
  skip-IsClip {c = c} {rest = rest} n h fits = (
    record {
      more = h.more;
      left = h.left;
      whole = sym (drop_front n c.cached h.more fits) ∙ ap (λ l. drop n l) h.whole;
      pos_fits = h.pos_fits;
      end_fits = h.end_fits;
      rest_fits = omega (arith, length-drop n rest, h.rest_fits);
      room = omega (arith, length-drop n c.cached, h.room);
      cache_size = h.cache_size;
      was_read = omega (arith, length-drop n c.cached, h.was_read);
    },
    sym (take_front n c.cached h.more fits) ∙ ap (λ l. take n l) h.whole,
  )

  abbrev pub SameBytes : {A : Type 0} → ℕ → A × Clip H → A × List ℕ → Type 0
  SameBytes size (a, c) (b, rest) = (a ≡ b) × IsClip Left size c rest

  -- _TStreamCacheClip_readData gives the next `n` bytes of the clip, or fails where it has fewer,
  -- for at most as many as the cache has room for.
  pub read_data-cut :
      {size : ℕ} {c : Clip H} {rest : List ℕ} (n : ℕ)
      → IsClip Left size c rest
      → n ≤ size
      → Related (SameBytes size) (read_data read c n) (cut n rest)
  unfolding read_data cut
  read_data-cut {size} {c} {rest} n h fits = elim (Bool-cases (ltb (length rest) n)) [
    | inl short ↦ rw (short, access_data-none n h (ltb→lt (length rest) n short)) tt
    | inr enough ↦
        let (c', e, h', there) = access_data-some n h fits (ltb→le (length rest) n enough) in
        let (h'', bytes) = skip-IsClip n h' there in rw (enough, e) (bytes, h'')
  ]

  -- The bytes behind a number that is read from the next `limit` bytes.
  after_number :
      {size : ℕ} {c : Clip H} {rest : List ℕ} (limit n tag_bit : ℕ)
      → IsClip Left size c rest
      → n ≤ length c.cached
      → n ≡ length (take limit rest)
      → Related
          (SameBytes size)
          (unpack_uint_with_tag (take limit rest) tag_bit >>= λ (value, left).
            some (value, skip_data_no_check read c (n - length left)))
          (unpack_within limit rest tag_bit)
  unfolding unpack_within
  after_number {size} {c} {rest} limit n tag_bit h there n_is =
      elim (Option-cases (unpack_uint_with_tag (take limit rest) tag_bit)) [
        | inl fails ↦ rw fails tt
        | inr ((value, left), e) ↦
            let (used, tail, sizes) = unpack_leaves (take limit rest) tag_bit value left e in
            let taken : n - length left ≡ used = omega arith in
            let (h', _) = skip-IsClip (n - length left) h (omega arith) in
            let behind : drop (n - length left) rest ≡ left ++ drop limit rest =
              ap (λ k. drop k rest) taken
              ∙ drop_taken used limit rest (omega arith)
              ∙ ap (λ l. l ++ drop limit rest) (sym tail) in
            rw e (
              refl,
              subst (λ l. IsClip Left size (skip_data_no_check read c (n - length left)) l) behind
                  h',
            )
      ]

  -- _TStreamCacheClip_unpackUIntWithTag reads a number as the reader in memory does, from the next
  -- eleven bytes, when the cache has room for them.
  pub clip_unpack-unpack_within :
      {size : ℕ} {c : Clip H} {rest : List ℕ} (tag_bit : ℕ)
      → IsClip Left size c rest
      → max_packed_uint_bytes ≤ size
      → Related
          (SameBytes size)
          (clip_unpack_uint_with_tag read c tag_bit)
          (unpack_within max_packed_uint_bytes rest tag_bit)
  unfolding clip_unpack_uint_with_tag unpack_within
  clip_unpack-unpack_within {size} {c} {rest} tag_bit h fits =
      let n : ℕ = at_most max_packed_uint_bytes (leave_size read c) in
      let n_is : n ≡ min max_packed_uint_bytes (length rest) =
        omega (arith, at_most_lem max_packed_uint_bytes (leave_size read c), leave_size-length h) in
      let (c', e, h', there) = access_data-some n h (omega arith) (omega arith) in
      let (_, bytes) = skip-IsClip n h' there in
      let window : take n c'.cached ≡ take max_packed_uint_bytes rest =
        bytes ∙ ap (λ k. take k rest) n_is ∙ take-min max_packed_uint_bytes rest in
      rw (e, window)
        (after_number max_packed_uint_bytes n tag_bit h' there
          (omega (arith, length-take max_packed_uint_bytes rest)))
