-- ===== src/MemStream/Access.antt =====
-- What the caches rely on, for streams on memory and for parts of streams.
use hdiff_patch.Prelude.{
  ℕ, ◌+◌, ◌-◌, ◌%◌, ◌^◌, ◌≤◌, ◌<◌, ◌≡◌, refl, sym, ap, ◌∙◌, Option, List, ◌++◌, arith, length, take,
  drop, append_assoc, length-append, length-take, length-drop, le→ltb, take-append_of, drop-drop,
  take-take, drop-take,
}
use hdiff_patch.Clip.Reads.{Serves}
use hdiff_patch.OutCache.Writes.{Accepts}
use hdiff_patch.PatchStream.Adds.{Random, part}
use hdiff_patch.MemStream.{read_mem_stream, write_mem_stream, StreamClip, read_stream_clip}

-- Memory is read anywhere.
pub read_mem_stream-Random : Random read_mem_stream (λ src whole. src ≡ whole)
unfolding read_mem_stream
read_mem_stream-Random src whole pos n same h = (
  src,
  rw (same, le→ltb (length whole) pos (omega arith), le→ltb (length whole - pos) n (omega arith))
      refl,
  same,
)

-- A stream that is read anywhere serves its parts: `bytes` is what stands at `pos`.
abbrev pub Window :
    {O : Type 0}
    → (O → List ℕ → Type 0)
    → (whole : List ℕ) → O
    → (pos : ℕ) (bytes : List ℕ) → Type 0
Window Holds whole stream pos bytes =
    Holds stream whole
    × (part pos (length bytes) whole ≡ bytes)
    × (pos + length bytes ≤ length whole)

pub Random-Serves :
    {O : Type 0} (read : O → ℕ → ℕ → Option (List ℕ × O)) (Holds : O → List ℕ → Type 0)
    (whole : List ℕ)
    → Random read Holds
    → Serves read (Window Holds whole)
Random-Serves read Holds whole random stream pos n bytes (has, here, inside) h =
    let (stream', e, has') = random stream whole pos n has (omega arith) in
    let size : n + (length bytes - n) ≡ length bytes = omega arith in
    let whole_part : take (n + (length bytes - n)) (drop pos whole) ≡ bytes =
      ap (λ k. take k (drop pos whole)) size ∙ here in
    let first : take n (drop pos whole) ≡ take n bytes =
      sym (take-take n (length bytes - n) (drop pos whole)) ∙ ap (λ l. take n l) whole_part in
    let left : length (drop n bytes) ≡ length bytes - n = length-drop n bytes in
    let others : part (pos + n) (length (drop n bytes)) whole ≡ drop n bytes =
      ap (λ l. take (length (drop n bytes)) l) (sym (drop-drop pos n whole))
      ∙ ap (λ k. take k (drop n (drop pos whole))) left
      ∙ sym (drop-take n (length bytes - n) (drop pos whole))
      ∙ ap (λ l. drop n l) whole_part in
    (stream', rw (← first) e, (has', others, omega arith))

-- What is written to memory stays there.
abbrev pub Filled : (size : ℕ) (dst done : List ℕ) → Type 0
Filled size dst done = (take (length done) dst ≡ done) × (length dst ≡ size)

pub write_mem_stream-Accepts : (size : ℕ) → Accepts write_mem_stream (Filled size) size
unfolding write_mem_stream
write_mem_stream-Accepts size dst done bytes (front, full) fits =
    let dst' : List ℕ = done ++ (bytes ++ drop (length done + length bytes) dst) in
    (
      dst',
      rw
          (
            le→ltb (length dst) (length done) (omega arith),
            le→ltb (length dst - length done) (length bytes) (omega arith),
            front,
          )
          refl,
      (
        ap (λ l. take (length (done ++ bytes)) l)
              (sym (append_assoc done bytes (drop (length done + length bytes) dst)))
            ∙ take-append_of (length (done ++ bytes)) (done ++ bytes)
                (drop (length done + length bytes) dst) refl,
        omega (
          arith,
          length-append done (bytes ++ drop (length done + length bytes) dst),
          length-append bytes (drop (length done + length bytes) dst),
          length-drop (length done + length bytes) dst,
        ),
      ),
    )

-- A part of a stream that is read anywhere is read anywhere.
abbrev pub PartHolds : {S : Type 0} → (S → List ℕ → Type 0) → StreamClip S → List ℕ → Type 0
PartHolds Holds s whole =
    (all : List ℕ) × Holds s.src_stream all
    × (part s.clip_begin_pos s.stream_size all ≡ whole)
    × (s.clip_begin_pos + s.stream_size ≤ length all)
    × (length all < 2 ^ 64)

-- Reading a part of a stream is reading the bytes of that part, when the part lies inside the stream
-- and the stream has fewer than 2 ^ 64 bytes.
pub read_stream_clip-Random :
    {S : Type 0} (read : S → ℕ → ℕ → Option (List ℕ × S)) (Holds : S → List ℕ → Type 0)
    → Random read Holds
    → Random (read_stream_clip read) (PartHolds Holds)
unfolding read_stream_clip
read_stream_clip-Random read Holds random s whole pos n (all, has, here, inside, fits) h =
    let size : length whole ≡ s.stream_size = omega (
      arith,
      ap (λ l. length l) here,
      length-take s.stream_size (drop s.clip_begin_pos all),
      length-drop s.clip_begin_pos all,
    ) in
    let (src, e, has') = random s.src_stream all (s.clip_begin_pos + pos) n has (omega arith) in
    let at : (pos + s.clip_begin_pos) % 2 ^ 64 ≡ s.clip_begin_pos + pos = omega arith in
    let parts : pos + (s.stream_size - pos) ≡ s.stream_size = omega arith in
    let more : n + (s.stream_size - pos - n) ≡ s.stream_size - pos = omega arith in
    let others : List ℕ = drop pos (drop s.clip_begin_pos all) in
    let rest : drop pos whole ≡ take (s.stream_size - pos) others =
      ap (λ l. drop pos l) (sym here ∙ ap (λ k. take k (drop s.clip_begin_pos all)) (sym parts))
      ∙ drop-take pos (s.stream_size - pos) (drop s.clip_begin_pos all) in
    let same : take n (drop (s.clip_begin_pos + pos) all) ≡ take n (drop pos whole) =
      ap (λ l. take n l) (sym (drop-drop s.clip_begin_pos pos all))
      ∙ sym (take-take n (s.stream_size - pos - n) others)
      ∙ ap (λ k. take n (take k others)) more
      ∙ ap (λ l. take n l) (sym rest) in
    (
      record s { src_stream = src },
      rw (le→ltb s.stream_size ((pos + n) % 2 ^ 64) (omega arith), at, e, same) refl,
      (all, has', here, inside, fits),
    )
