-- ===== src/Varint.antt =====
-- Variable-length integers: hpatch_packUIntWithTag, hpatch_packUIntWithTag_size and
-- hpatch_unpackUIntWithTag of libHDiffPatch/HPatch/patch.c.
-- A byte pointer with its end is the list of the bytes between them.
pub mod Groups
pub mod Head
pub mod RoundTrip
pub mod Decode
pub mod Exact
mod Tests
use hdiff_patch.Prelude.{
  take, drop, ◌>>=◌, ◌++◌, ℕ, zero, suc, ◌+◌, ◌-◌, ◌*◌, ◌/◌, ◌%◌, ◌^◌, ◌≤◌, ◌<◌, bit_and, bit_or,
  Bool, true, false, Option, none, some, List, [], ◌∷◌, ◌≡◌, refl, arith, ltb, ◌==◌, if◌then◌else◌,
  length, dite, dec_lt, not,
}
use hdiff_patch.Prelude.Wf.{lt_wf}
use mathlib.Core.WellFounded.{Acc}

abbrev pub IsByte : ℕ → Type 0
IsByte b = b < 2 ^ 8

-- hpatch_StreamPos_t is an unsigned integer of 64 bits.
abbrev pub IsU64 : ℕ → Type 0
IsU64 v = v < 2 ^ 64

-- hpatch_kMaxPackedUIntBytes
abbrev pub max_packed_uint_bytes : ℕ
max_packed_uint_bytes = (8 * 8 + 6) / 7 + 1

-- kMaxValueWithTag
abbrev pub max_value_with_tag : ℕ → ℕ
max_value_with_tag tag_bit = 2 ^ (7 - tag_bit) - 1

pub shift_shrinks : (max_value v : ℕ) → max_value < v → v / 128 < v
shift_shrinks max_value v h = omega arith

-- `while (uValue>kMaxValueWithTag) { *codeEnd=uValue&127; ++codeEnd; uValue>>=7; }`.
-- `code_buf` is a stack with `*(codeEnd-1)` on top; the value that is left is returned beside it.
pub pack_groups : (max_value v : ℕ) → Acc ◌<◌ v → List ℕ → ℕ × List ℕ
pack_groups max_value v (Acc.intro _ smaller) code_buf =
    dite (dec_lt max_value v)
      (λ more.
        pack_groups max_value (v / 128) (smaller _ (shift_shrinks max_value v more))
          (bit_and v (2 ^ 7 - 1) ∷ code_buf))
      (λ _. (v, code_buf))

-- `(codeBuf!=codeEnd)?1:0`
abbrev pub has_more : List ℕ → ℕ
has_more [] = 0
has_more (c ∷ cs) = 1

-- `while (codeBuf!=codeEnd) { --codeEnd; *pcode=(*codeEnd)|((codeBuf!=codeEnd)?1:0)<<7; ++pcode; }`
pub emit_groups : List ℕ → List ℕ
emit_groups [] = []
emit_groups (c ∷ cs) = bit_or c (has_more cs * 2 ^ 7) ∷ emit_groups cs

-- The first byte: the highest group below the flag that more follows and the tag.
abbrev pub first_byte : ℕ → ℕ → ℕ → List ℕ → ℕ
first_byte v high_tag tag_bit code_buf =
    bit_or (bit_or (v % 2 ^ 8) (high_tag * 2 ^ (8 - tag_bit)))
      (has_more code_buf * 2 ^ (7 - tag_bit))
    % 2 ^ 8

-- `room` is `out_code_end-*out_code`. The bytes written, or `none` where they do not fit.
unfoldable pub pack_uint_with_tag : (room value high_tag tag_bit : ℕ) → Option (List ℕ)
unfolding pack_groups emit_groups lt_wf dec_lt
pack_uint_with_tag room value high_tag tag_bit =
    let (v, code_buf) = pack_groups (max_value_with_tag tag_bit) value (lt_wf.apply value) [] in
    if ltb room (1 + length code_buf)
    then none
    else some (first_byte v high_tag tag_bit code_buf ∷ emit_groups code_buf)

-- The loop of `hpatch_packUIntWithTag_size`.
pub size_loop : (max_value v : ℕ) → Acc ◌<◌ v → ℕ → ℕ
size_loop max_value v (Acc.intro _ smaller) size =
    dite (dec_lt max_value v)
      (λ more.
        size_loop max_value (v / 128) (smaller _ (shift_shrinks max_value v more)) (size + 1))
      (λ _. size)

unfoldable pub pack_uint_with_tag_size : (value tag_bit : ℕ) → ℕ
unfolding size_loop lt_wf dec_lt
pack_uint_with_tag_size value tag_bit =
    size_loop (max_value_with_tag tag_bit) value (lt_wf.apply value) 0 + 1

-- The `do … while` of `hpatch_unpackUIntWithTag` on the bytes that are left.
pub unpack_loop : List ℕ → ℕ → Option (ℕ × List ℕ)
unpack_loop [] value = none
unpack_loop (code ∷ src) value =
    let value' = bit_or (value * 2 ^ 7 % 2 ^ 64) (bit_and code (2 ^ 7 - 1)) in
    let rest = unpack_loop src value' in
    if not (value / 2 ^ (8 * 8 - 7) == 0)
    then none
    else if not (bit_and code (2 ^ 7) == 0)
    then rest
    else some (value', src)

-- The value read and the bytes behind it, or `none` where the code returns `hpatch_FALSE`.
unfoldable pub unpack_uint_with_tag : List ℕ → (tag_bit : ℕ) → Option (ℕ × List ℕ)
unfolding unpack_loop
unpack_uint_with_tag [] tag_bit = none
unpack_uint_with_tag (code ∷ src) tag_bit =
    let value = bit_and code (2 ^ (7 - tag_bit) - 1) in
    if not (bit_and code (2 ^ (7 - tag_bit)) == 0) then unpack_loop src value else some (value, src)

-- A number read from the next `limit` bytes only.
unfoldable pub unpack_within : (limit : ℕ) → List ℕ → (tag_bit : ℕ) → Option (ℕ × List ℕ)
unpack_within limit src tag_bit = do
  (value, rest) ← unpack_uint_with_tag (take limit src) tag_bit
  some (value, rest ++ drop limit src)
