-- ===== src/Lite/Spec.antt =====
-- The format that hpatch_lite_patch reads, as functions of the whole diff and the whole old data.
-- There is no cache: a source has the bytes that are left, and whether a byte was asked for behind
-- their end.
use hdiff_patch.Prelude.{
  ℕ, zero, suc, ◌+◌, ◌-◌, ◌*◌, ◌/◌, ◌%◌, ◌^◌, Bool, true, false, ◌||◌, not, Option, none, some,
  List, [], ◌∷◌, ◌++◌, ltb, leb, ◌==◌, if◌then◌else◌, length, take, drop, ◌>>=◌, ◌>>◌, check,
  bit_and, bit_or,
}
use hdiff_patch.MemPatch.{add_data}
use hdiff_patch.Lite.{LiteCover}

pub record Source : Type 0 where
  pub bytes : List ℕ
  pub is_over : Bool

-- Behind the end every byte is 0.
abbrev pub byte_of : Source → List ℕ → ℕ × Source
byte_of s [] = (0, record { bytes = []; is_over = true })
byte_of s (b ∷ bytes) = (b, record s { bytes = bytes })

unfoldable pub read_byte : Source → ℕ × Source
read_byte s = byte_of s s.bytes

unfoldable pub read_uint : (fuel : ℕ) → Source → (v is_next : ℕ) → Option (ℕ × Source)
read_uint fuel s v zero = some (v, s)
read_uint zero s v (suc is_next) = none
read_uint (suc fuel) s v (suc is_next) =
    let (b, s') = read_byte s in
    read_uint fuel s' (bit_or (v * 2 ^ 7 % 2 ^ 32) (bit_and b 127)) (b / 2 ^ 7)

-- `n` bytes of the diff, all of them or none
unfoldable pub take_bytes : (n : ℕ) → Source → Option (List ℕ × Source)
take_bytes n s =
    if ltb (length s.bytes) n
    then none
    else some (take n s.bytes, record s { bytes = drop n s.bytes })

-- `n` bytes of the old data, all of them or none
abbrev pub old_bytes : (old : List ℕ) (pos n : ℕ) → Option (List ℕ)
old_bytes old pos n = if ltb (length old) (pos + n) then none else some (take n (drop pos old))

-- The bytes of a cover: the old ones, alone or with as many of the diff added to them.
unfoldable pub cover_bytes : (old : List ℕ) → Bool → (pos n : ℕ) → Source → Option (List ℕ × Source)
cover_bytes old same pos zero s = some ([], s)
cover_bytes old true pos (suc n) s = do
  check (not s.is_over)
  bytes ← old_bytes old pos (suc n)
  some (bytes, s)
cover_bytes old false pos (suc n) s = do
  (added, s') ← take_bytes (suc n) s
  bytes ← old_bytes old pos (suc n)
  some (add_data bytes added, s')

-- A tag from 64 on, above its top bit, moves the position of the cover before it back.
unfoldable pub moved : (tag old_pos step : ℕ) → ℕ
moved tag old_pos step =
    if leb 64 (tag % 128) then (old_pos + 2 ^ 32 - step) % 2 ^ 32 else (old_pos + step) % 2 ^ 32

-- A tag from 128 on says that the cover has no differences.
abbrev pub listed_cover : (old_pos_back new_pos_back cover_length tag step gap : ℕ) → LiteCover
listed_cover old_pos_back new_pos_back cover_length tag step gap = record {
  cover_old_pos = moved tag old_pos_back step;
  cover_new_pos = (new_pos_back + gap) % 2 ^ 32;
  cover_length = cover_length;
  is_not_need_sub_diff = leb 128 tag;
}

unfoldable pub next_cover_at :
    (fuel old_pos_back new_pos_back cover_length tag : ℕ) → Source → Option (LiteCover × Source)
next_cover_at fuel old_pos_back new_pos_back cover_length tag s = do
  (step, s) ← read_uint fuel s (bit_and tag 31) (bit_and tag 32)
  (gap, s) ← read_uint fuel s 0 1
  some (listed_cover old_pos_back new_pos_back cover_length tag step gap, s)

unfoldable pub next_cover :
    (fuel old_pos_back new_pos_back : ℕ) → Source → Option (LiteCover × Source)
next_cover fuel old_pos_back new_pos_back s = do
  (cover_length, s) ← read_uint fuel s 0 1
  let (tag, s) = read_byte s
  next_cover_at fuel old_pos_back new_pos_back cover_length tag s

unfoldable pub new_covers :
    (fuel : ℕ) (old : List ℕ) (cover_count old_pos_back new_pos_back : ℕ)
    → Source
    → Option (ℕ × Source × List ℕ)
new_covers fuel old zero old_pos_back new_pos_back s = some (new_pos_back, s, [])
new_covers fuel old (suc cover_count) old_pos_back new_pos_back s = do
  (c, s) ← next_cover fuel old_pos_back new_pos_back s
  check (not (ltb c.cover_new_pos new_pos_back))
  (copied, s) ← take_bytes (c.cover_new_pos - new_pos_back) s
  (added, s) ← cover_bytes old c.is_not_need_sub_diff c.cover_old_pos c.cover_length s
  check (ltb 0 c.cover_length || cover_count == 0)
  (end, s, rest) ←
      new_covers fuel old cover_count ((c.cover_old_pos + c.cover_length) % 2 ^ 32)
        ((c.cover_new_pos + c.cover_length) % 2 ^ 32) s
  some (end, s, (copied ++ added) ++ rest)

-- The new data that a diff stands for.
unfoldable pub lite_new_data : (fuel new_size : ℕ) (old diff : List ℕ) → Option (List ℕ)
unfolding read_byte read_uint take_bytes cover_bytes next_cover_at next_cover new_covers moved
lite_new_data fuel new_size old diff = do
  (cover_count, s) ← read_uint fuel (record { bytes = diff; is_over = false }) 0 1
  (end, s, new) ← new_covers fuel old cover_count 0 0 s
  check (new_size == end)
  check (not s.is_over)
  some new
