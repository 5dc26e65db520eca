-- ===== src/RleStream.antt =====
-- Loading the run-length code of the difference bytes from a stream, as far as it is asked for:
-- _TBytesRle_load_stream of libHDiffPatch/HPatch/patch.c.
-- A null `out_data`, into which nothing is added, is the empty list.
pub mod Spec
pub mod Steps
pub mod MemAdd
pub mod Runs
pub mod Loop
pub mod Decode
pub mod Finish
mod Tests
use hdiff_patch.Prelude.{
  ℕ, zero, suc, ◌+◌, ◌-◌, ◌/◌, ◌%◌, ◌^◌, Bool, true, false, not, ◌&&◌, Option, none, some, List, [],
  ◌∷◌, ◌++◌, ltb, ◌==◌, if◌then◌else◌, length, take, drop, ◌>>=◌, ◌>>◌, check,
}
use hdiff_patch.Rle.{ByteRleType, rle0, rle255, rle, unrle, byte_rle_type, byte_rle_type_bit}
use hdiff_patch.MemPatch.{add_data}
use hdiff_patch.Clip.{
  Clip, at_most, leave_size, is_finish, access_data, read_data, clip_unpack_uint_with_tag,
  clip_init,
}

-- _TBytesRle_load_stream
pub record Loader (H : Type 0) : Type 0 where
  pub mem_copy_length : ℕ
  pub mem_set_length : ℕ
  pub mem_set_value : ℕ
  pub ctrl_clip : Clip H
  pub rle_code_clip : Clip H

-- memSet_add
unfoldable pub mem_set_add : (dst : List ℕ) (src : ℕ) → List ℕ
mem_set_add [] src = []
mem_set_add (d ∷ dst) src = (d + src) % 2 ^ 8 ∷ mem_set_add dst src

-- A call of _TBytesRle_load_stream_decode_add: what is settled of the buffer, and *_out_data and
-- *_decodeSize.
pub record Decoding (H : Type 0) : Type 0 where
  pub loader : Loader H
  pub settled : List ℕ
  pub out_data : List ℕ
  pub decode_size : ℕ

-- `*pType` and `*pSetValue`
abbrev pub first : List ℕ → Option ℕ
first [] = none
first (x ∷ xs) = some x

module _ {H : Type 0} (read : H → (read_from_pos size : ℕ) → Option (List ℕ × H)) where
  -- _TBytesRle_load_stream_init; the clips are set behind it.
  abbrev pub loader_init : (ctrl_clip rle_code_clip : Clip H) → Loader H
  loader_init ctrl_clip rle_code_clip = record {
    mem_copy_length = 0;
    mem_set_length = 0;
    mem_set_value = 0;
    ctrl_clip = ctrl_clip;
    rle_code_clip = rle_code_clip;
  }

  -- `if (memSetLength!=0) {…}` of _TBytesRle_load_stream_mem_add
  unfoldable pub mem_set_part : Decoding H → Decoding H
  unfolding mem_set_add
  mem_set_part s =
      let step = at_most s.loader.mem_set_length s.decode_size in
      let front = take step s.out_data in
      let set =
        if s.loader.mem_set_value == 0 then front else mem_set_add front s.loader.mem_set_value in
      if s.loader.mem_set_length == 0 then s else record s {
        loader = record s.loader { mem_set_length = s.loader.mem_set_length - step };
        settled = s.settled ++ set;
        out_data = drop step s.out_data;
        decode_size = s.decode_size - step;
      }

  -- The while loop of _TBytesRle_load_stream_mem_add. A round decodes a byte at least where the cache
  -- has room for one, so decode_size rounds are enough.
  unfoldable pub mem_copy_loop : (fuel : ℕ) → Decoding H → Option (Decoding H)
  unfolding read_data
  mem_copy_loop zero s = some s
  mem_copy_loop (suc fuel) s =
      let step =
        at_most (at_most s.loader.rle_code_clip.cache_end s.loader.mem_copy_length) s.decode_size in
      let round = read_data read s.loader.rle_code_clip step >>= λ (rle_data, clip).
      mem_copy_loop fuel (record s {
        loader = record s.loader {
          mem_copy_length = s.loader.mem_copy_length - step;
          rle_code_clip = clip;
        };
        settled = s.settled ++ add_data (take step s.out_data) rle_data;
        out_data = drop step s.out_data;
        decode_size = s.decode_size - step;
      }) in
      if ltb 0 s.loader.mem_copy_length && ltb 0 s.decode_size then round else some s

  -- _TBytesRle_load_stream_mem_add
  unfoldable pub mem_add : Decoding H → Option (Decoding H)
  unfolding mem_set_part mem_copy_loop
  mem_add s = mem_copy_loop (mem_set_part s).decode_size (mem_set_part s)

  -- _TBytesRle_load_stream_isFinish
  unfoldable pub loader_is_finish : Loader H → Bool
  loader_is_finish l =
      l.mem_set_length == 0
      && (l.mem_copy_length == 0)
      && is_finish read l.rle_code_clip
      && is_finish read l.ctrl_clip

  -- The `switch (type)` of _TBytesRle_load_stream_decode_add
  unfoldable pub switch_type : ByteRleType → (n : ℕ) → Loader H → Option (Loader H)
  unfolding read_data
  switch_type rle0 n l = some (record l { mem_set_length = n; mem_set_value = 0 })
  switch_type rle255 n l = some (record l { mem_set_length = n; mem_set_value = 255 })
  switch_type rle n l = do
    (set_value, clip) ← read_data read l.rle_code_clip 1
    value ← first set_value
    some (record l { mem_set_length = n; mem_set_value = value; rle_code_clip = clip })
  switch_type unrle n l = some (record l { mem_copy_length = n })

  -- The next control byte, its number and its switch; `++length` is modulo 2 ^ 64.
  unfoldable pub next_run : Loader H → Option (Loader H)
  unfolding access_data clip_unpack_uint_with_tag switch_type
  next_run l = do
    clip ← access_data read l.ctrl_clip 1
    byte ← first clip.cached
    (len, clip) ← clip_unpack_uint_with_tag read clip byte_rle_type_bit
    switch_type (byte_rle_type (byte / 2 ^ (8 - byte_rle_type_bit))) ((len + 1) % 2 ^ 64)
        (record l { ctrl_clip = clip })

  -- `while ((decodeSize>0)&&(!…isFinish(&loader->ctrlClip)))`. A round takes a control byte at least.
  unfoldable pub decode_loop : (fuel : ℕ) → Decoding H → Option (Decoding H)
  unfolding next_run mem_add
  decode_loop zero s = some s
  decode_loop (suc fuel) s =
      let round = next_run s.loader >>= λ l.
      mem_add (record s { loader = l }) >>= λ s'. decode_loop fuel s' in
      if ltb 0 s.decode_size && not (is_finish read s.loader.ctrl_clip) then round else some s

  -- _TBytesRle_load_stream_decode_add: the buffer with the difference bytes added.
  unfoldable pub decode_add :
      Loader H → (out_data : List ℕ) (decode_size : ℕ) → Option (List ℕ × Loader H)
  unfolding decode_loop mem_add
  decode_add l out_data decode_size = do
    s ←
        mem_add
          (record { loader = l; settled = []; out_data = out_data; decode_size = decode_size })
    s ← decode_loop (leave_size read s.loader.ctrl_clip) s
    check (s.decode_size == 0)
    some (s.settled, s.loader)

  -- _TBytesRle_load_stream_decode_skip
  abbrev pub decode_skip : Loader H → (decode_size : ℕ) → Option (List ℕ × Loader H)
  decode_skip l decode_size = decode_add l [] decode_size
