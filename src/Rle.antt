-- ===== src/Rle.antt =====
-- The run-length code of the difference bytes: TByteRleType (libHDiffPatch/HPatch/patch_private.h)
-- and _bytesRle_load (libHDiffPatch/HPatch/patch.c).
-- The code has two streams: control bytes, and the data bytes that the runs take.
pub mod Runs
pub mod Load
pub mod Relation
pub mod Encoder
mod Tests
use hdiff_patch.Prelude.{
  ℕ, zero, suc, ◌+◌, ◌-◌, ◌/◌, ◌^◌, ◌≡◌, Bool, true, false, ◌&&◌, Option, none, some, List, [], ◌∷◌,
  ◌++◌, ltb, ◌==◌, if◌then◌else◌, length, take, drop, replicate, ◌>>=◌, ◌>>◌, check, not,
}
use hdiff_patch.Varint.{unpack_uint_with_tag}

-- enum TByteRleType
pub data ByteRleType : Type 0 where
  rle0 rle255 rle unrle : ByteRleType

-- The type is the two top bits of a control byte: `(*ctrlBuf)>>(8-kByteRleType_bit)`.
unfoldable pub byte_rle_type : ℕ → ByteRleType
byte_rle_type bits =
    if bits == 0 then rle0 else if bits == 1 then rle255 else if bits == 2 then rle else unrle

-- kByteRleType_bit
abbrev pub byte_rle_type_bit : ℕ
byte_rle_type_bit = 2

-- The `switch` of _bytesRle_load: the bytes that a run of `n` writes, and the data code behind it.
unfoldable pub run_bytes : ByteRleType → (n : ℕ) → (rle_code : List ℕ) → Option (List ℕ × List ℕ)
run_bytes rle0 n rle_code = some (replicate n 0, rle_code)
run_bytes rle255 n rle_code = some (replicate n 255, rle_code)
run_bytes rle n [] = none
run_bytes rle n (x ∷ rle_code) = some (replicate n x, rle_code)
run_bytes unrle n rle_code =
    if ltb (length rle_code) n then none else some (take n rle_code, drop n rle_code)

-- `while (ctrlBuf_end-ctrlBuf>0)`, then the test that all three buffers are used up.
-- `room` is `out_dataEnd-out_data`; the result is what is written from `out_data` on.
-- A round takes a control byte at least, so `length ctrl` rounds are enough fuel.
pub load_loop : (fuel : ℕ) (ctrl rle_code : List ℕ) (room : ℕ) → Option (List ℕ)
load_loop fuel [] rle_code room = if length rle_code == 0 && room == 0 then some [] else none
load_loop zero (c ∷ ctrl) rle_code room = none
load_loop (suc fuel) (c ∷ ctrl) rle_code room = do
  (len, ctrl') ← unpack_uint_with_tag (c ∷ ctrl) byte_rle_type_bit
  check (ltb len room)
  (bytes, rle_code') ←
      run_bytes (byte_rle_type (c / 2 ^ (8 - byte_rle_type_bit))) (len + 1) rle_code
  rest ← load_loop fuel ctrl' rle_code' (room - (len + 1))
  some (bytes ++ rest)

-- The output buffer has `room` bytes, and `code` is `rle_code..rle_code_end`.
unfoldable pub bytes_rle_load : (room : ℕ) (code : List ℕ) → Option (List ℕ)
unfolding load_loop byte_rle_type run_bytes
bytes_rle_load room code = do
  (ctrl_size, rle_code) ← unpack_uint_with_tag code 0
  check (not (ltb (length rle_code) ctrl_size))
  load_loop ctrl_size (take ctrl_size rle_code) (drop ctrl_size rle_code) room
