-- ===== src/PatchStream/Heads.antt =====
-- Reading the numbers at the head of a diff, and where the streams behind them begin.
use hdiff_patch.Prelude.{
  ℕ, ◌+◌, ◌-◌, ◌^◌, ◌≤◌, ◌<◌, ◌≡◌, refl, sym, ap, ◌∙◌, subst, Option, some, List, ◌++◌, arith,
  length, take, drop, length-append, length-drop, drop-drop, take-append, drop-append, le→ltb,
}
use hdiff_patch.Prelude.Related.{Related-some}
use hdiff_patch.Varint.{IsU64, unpack_within, max_packed_uint_bytes}
use hdiff_patch.Varint.RoundTrip.{packed}
use hdiff_patch.Clip.{Clip, clip_init, clip_unpack_uint_with_tag, read_pos_of_src_stream}
use hdiff_patch.Clip.Reads.{Serves, IsClip, SameBytes, clip_unpack-unpack_within, length-rest}
use hdiff_patch.MemStream.Access.{Window}
use hdiff_patch.PatchStream.Adds.{Random}
use hdiff_patch.PatchStream.Written.{unpack_within-packed}
use hdiff_patch.PatchStream.Open.{past, read_diff_head, stream_cache_size}

-- `rest` is the end of `whole`.
abbrev pub Suffix : (whole rest : List ℕ) → Type 0
Suffix whole rest = (pos : ℕ) × (drop pos whole ≡ rest) × (pos + length rest ≡ length whole)

pub suffix_behind : (whole front rest : List ℕ) → Suffix whole (front ++ rest) → Suffix whole rest
suffix_behind whole front rest (pos, e, size) = (
  pos + length front,
  sym (drop-drop pos (length front) whole)
      ∙ ap (λ l. drop (length front) l) e
      ∙ drop-append front rest,
  omega (arith, length-append front rest),
)

-- The bytes that stand at `pos`, when they and those behind them are the end of the stream.
pub window_of :
    {O : Type 0} (Holds : O → List ℕ → Type 0) (whole front rest : List ℕ) (stream : O) (pos : ℕ)
    → Holds stream whole
    → Suffix whole (front ++ rest)
    → pos + length (front ++ rest) ≡ length whole
    → Window Holds whole stream pos front
window_of Holds whole front rest stream pos has (k, e, size) at =
    let same : pos ≡ k = omega arith in
    (
      has,
      ap (λ j. take (length front) (drop j whole)) same
          ∙ ap (λ l. take (length front) l) e
          ∙ take-append front rest,
      omega (arith, length-append front rest),
    )

-- A stream that is read up to its end.
abbrev pub AtEnd :
    {O : Type 0}
    → (O → List ℕ → Type 0)
    → (whole : List ℕ) → O
    → (pos : ℕ) (bytes : List ℕ) → Type 0
AtEnd Holds whole stream pos bytes =
    Holds stream whole × (drop pos whole ≡ bytes) × (pos + length bytes ≡ length whole)

pub Random-AtEnd :
    {O : Type 0} (read : O → ℕ → ℕ → Option (List ℕ × O)) (Holds : O → List ℕ → Type 0)
    (whole : List ℕ)
    → Random read Holds
    → Serves read (AtEnd Holds whole)
Random-AtEnd read Holds whole random stream pos n bytes (has, here, size) h =
    let (stream', e, has') = random stream whole pos n has (omega arith) in
    (
      stream',
      e ∙ ap (λ b. some (take n b, stream')) here,
      (
        has',
        sym (drop-drop pos n whole) ∙ ap (λ l. drop n l) here,
        omega (arith, length-drop n bytes),
      ),
    )

pub clip_init-IsClip :
    {H : Type 0} (read : H → ℕ → ℕ → Option (List ℕ × H)) (Left : H → ℕ → List ℕ → Type 0)
    (stream : H) (pos until size : ℕ) (bytes : List ℕ)
    → Left stream pos bytes
    → pos + length bytes ≡ until
    → until < 2 ^ 64
    → IsClip Left size (clip_init read stream pos until size) bytes
clip_init-IsClip read Left stream pos until size bytes left at fits = record {
  more = bytes;
  left = left;
  whole = refl;
  pos_fits = at;
  end_fits = fits;
  rest_fits = omega arith;
  room = omega arith;
  cache_size = refl;
  was_read = omega arith;
}

module _ {H : Type 0} (read : H → ℕ → ℕ → Option (List ℕ × H)) (Holds : H → List ℕ → Type 0)
    (random : Random read Holds) (whole : List ℕ) where
  abbrev pub HeadClip : ℕ → Clip H → List ℕ → Type 0
  HeadClip size c rest = IsClip (AtEnd Holds whole) size c rest

  pub read_number :
      (size : ℕ) (c : Clip H) (value : ℕ) (rest : List ℕ)
      → HeadClip size c (packed value 0 0 ++ rest)
      → IsU64 value
      → max_packed_uint_bytes ≤ size
      → (c' : Clip H) × (clip_unpack_uint_with_tag read c 0 ≡ some (value, c'))
        × HeadClip size c' rest
  read_number size c value rest h fits room =
      let serves = Random-AtEnd read Holds whole random in
      let ((v, c'), e, (same, h')) =
        Related-some (SameBytes read (AtEnd Holds whole) serves size)
          (clip_unpack_uint_with_tag read c 0)
          (unpack_within max_packed_uint_bytes (packed value 0 0 ++ rest) 0) (value, rest)
          (clip_unpack-unpack_within read (AtEnd Holds whole) serves 0 h room)
          (unpack_within-packed value 0 0 rest fits (omega arith) (omega arith)) in
      (c', e ∙ ap (λ x. some (x, c')) same, h')

  -- The position behind what a clip up to the end of the stream has read.
  pub read_pos-rest :
      (size : ℕ) (c : Clip H) (rest : List ℕ)
      → HeadClip size c rest
      → read_pos_of_src_stream read c + length rest ≡ length whole
  read_pos-rest size c rest h =
      let at : c.stream_pos + length h.more ≡ length whole = h.left.2 in
      omega (
        arith,
        at,
        h.was_read,
        length-rest read (AtEnd Holds whole) (Random-AtEnd read Holds whole random) h,
      )

  pub past-some :
      (pos size : ℕ)
      → pos + size ≤ length whole
      → past read (length whole) pos size ≡ some (pos + size)
  past-some pos size h = rw (le→ltb (length whole - pos) size (omega arith)) refl

  -- read_diff_head finds the sizes that stand at the head of the diff.
  pub read_diff_head-some :
      (stream : H) (count lengths news olds diffs : ℕ) (rest : List ℕ)
      → Holds stream whole
      → length whole < 2 ^ 64
      → whole
        ≡ packed count 0 0
          ++ (packed lengths 0 0
              ++ (packed news 0 0 ++ (packed olds 0 0 ++ (packed diffs 0 0 ++ rest))))
      → IsU64 count
      → lengths + news + olds + diffs ≤ length rest
      → read_diff_head read (length whole) stream
        ≡ some (record {
          cover_count = count;
          length_size = lengths;
          inc_new_pos_size = news;
          inc_old_pos_size = olds;
          new_data_diff_size = diffs;
          head_end_pos = length whole - length rest;
          cover_end_pos = length whole - length rest + lengths + news + olds;
        })
  unfolding read_diff_head
  read_diff_head-some stream count lengths news olds diffs rest has fits e hc inside =
      let start : HeadClip stream_cache_size
          (clip_init read stream 0 (length whole) stream_cache_size) whole =
        clip_init-IsClip read (AtEnd Holds whole) stream 0 (length whole) stream_cache_size whole
          (has, refl, omega arith) (omega arith) fits in
      let small : length rest < 2 ^ 64 = omega (
        arith,
        ap (λ l. length l) e,
        length-append (packed count 0 0) (
            packed lengths 0 0
            ++ (packed news 0 0 ++ (packed olds 0 0 ++ (packed diffs 0 0 ++ rest)))),
        length-append (packed lengths 0 0)
            (packed news 0 0 ++ (packed olds 0 0 ++ (packed diffs 0 0 ++ rest))),
        length-append (packed news 0 0) (packed olds 0 0 ++ (packed diffs 0 0 ++ rest)),
        length-append (packed olds 0 0) (packed diffs 0 0 ++ rest),
        length-append (packed diffs 0 0) rest,
      ) in
      let (c1, e1, h1) =
        read_number stream_cache_size (clip_init read stream 0 (length whole) stream_cache_size)
          count _
          (subst
            (λ l.
              HeadClip stream_cache_size (clip_init read stream 0 (length whole) stream_cache_size)
                l)
            e start)
          hc (omega arith) in
      let (c2, e2, h2) =
        read_number stream_cache_size c1 lengths _ h1 (omega arith) (omega arith) in
      let (c3, e3, h3) = read_number stream_cache_size c2 news _ h2 (omega arith) (omega arith) in
      let (c4, e4, h4) = read_number stream_cache_size c3 olds _ h3 (omega arith) (omega arith) in
      let (c5, e5, h5) =
        read_number stream_cache_size c4 diffs rest h4 (omega arith) (omega arith) in
      let at : read_pos_of_src_stream read c5 + length rest ≡ length whole =
        read_pos-rest stream_cache_size c5 rest h5 in
      let head_end : read_pos_of_src_stream read c5 ≡ length whole - length rest = omega arith in
      let base : ℕ = length whole - length rest in
      rw
        (
          e1,
          e2,
          e3,
          e4,
          e5,
          head_end,
          past-some base lengths (omega arith),
          past-some (base + lengths) news (omega arith),
          past-some (base + lengths + news) olds (omega arith),
          past-some (base + lengths + news + olds) diffs (omega arith),
        )
        refl
