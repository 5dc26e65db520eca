-- ===== src/Lite.antt =====
-- HPatchLite, the patcher for small devices: hpatch_lite_patch and what it calls, of
-- libHDiffPatch/HPatchLite/hpatch_lite.c, with hpi_pos_t and hpi_size_t of 32 bits.
-- The callbacks of hpatchi_listener_t are fields; `H` and `W` are what their handles point to.
pub mod Spec
pub mod Chunks
pub mod Cache
pub mod Refine
pub mod Adds
pub mod Transparent
pub mod Fuel
pub mod Enough
pub mod Head
mod Tests
use hdiff_patch.Prelude.{
  ℕ, zero, suc, ◌+◌, ◌-◌, ◌*◌, ◌/◌, ◌%◌, ◌^◌, ◌≡◌, Bool, true, false, ◌||◌, not, Option, none, some,
  List, [], ◌∷◌, ltb, ◌==◌, if◌then◌else◌, length, take, drop, ◌>>=◌, ◌>>◌, check, bit_and, bit_or,
}
use hdiff_patch.MemPatch.{add_data}

-- hpatchi_listener_t. `read_diff` is asked for at most a number of bytes, and answers with the
-- bytes that it read or with hpi_FALSE.
pub record Listener (H W : Type 0) : Type 0 where
  pub read_diff : H → ℕ → Option (List ℕ) × H
  pub read_old : (read_from_pos data_size : ℕ) → Option (List ℕ)
  pub write_new : W → List ℕ → Option W

-- _TInputCache: `unread` is cache_buf from cache_begin to cache_end.
pub record InputCache (H : Type 0) : Type 0 where
  pub unread : List ℕ
  pub cache_end : ℕ
  pub input_stream : H

-- cover_oldPos, cover_newPos, cover_length and isNotNeedSubDiff of hpatch_lite_patch
pub record LiteCover : Type 0 where
  pub cover_old_pos : ℕ
  pub cover_new_pos : ℕ
  pub cover_length : ℕ
  pub is_not_need_sub_diff : Bool

-- hpi_kMinCacheSize
abbrev pub min_cache_size : ℕ
min_cache_size = 1 * 2

-- `if (tag&(1<<6)) cover_oldPos=oldPosBack-cover_oldPos; else cover_oldPos+=oldPosBack;`
unfoldable pub step_old_pos : (tag old_pos_back step : ℕ) → ℕ
step_old_pos tag old_pos_back step =
    if bit_and tag 64 == 0
    then (step + old_pos_back) % 2 ^ 32
    else (old_pos_back + 2 ^ 32 - step) % 2 ^ 32

-- cover_oldPos, isNotNeedSubDiff and cover_newPos from the numbers read
abbrev pub cover_of : (old_pos_back new_pos_back cover_length tag step gap : ℕ) → LiteCover
cover_of old_pos_back new_pos_back cover_length tag step gap = record {
  cover_old_pos = step_old_pos tag old_pos_back step;
  cover_new_pos = (gap + new_pos_back) % 2 ^ 32;
  cover_length = cover_length;
  is_not_need_sub_diff = not (tag / 2 ^ 7 == 0);
}

-- `if (decodeStep>bound) decodeStep=bound;`
abbrev pub at_most : (step bound : ℕ) → ℕ
at_most step bound = if ltb bound step then bound else step

module _ {H W : Type 0} (listener : Listener H W) where
  -- the answer of read_code put into the cache
  pub fill : Option (List ℕ) × H → Bool × InputCache H
  fill (none, stream) = (false, record { unread = []; cache_end = 0; input_stream = stream })
  fill (some bytes, stream) = (
    not (length bytes == 0),
    record { unread = bytes; cache_end = length bytes; input_stream = stream },
  )

  -- _cache_update asks for cache_end bytes, as many as it got the last time.
  pub cache_update : InputCache H → Bool × InputCache H
  cache_update self = fill (listener.read_diff self.input_stream self.cache_end)

  -- `return self->cache_buf[self->cache_begin++];`, and 0 where there is no byte
  pub next_byte : InputCache H → List ℕ → ℕ × InputCache H
  next_byte self [] = (0, self)
  next_byte self (b ∷ bytes) = (b, record self { unread = bytes })

  -- `if (self->cache_begin!=self->cache_end)`: with a byte in the cache, or behind an update
  pub read_or_update : InputCache H → List ℕ → ℕ × InputCache H
  read_or_update self (b ∷ bytes) = (b, record self { unread = bytes })
  read_or_update self [] =
      let (ok, self') = cache_update self in if ok then next_byte self' self'.unread else (0, self')

  -- _cache_read_1byte
  pub cache_read_1byte : InputCache H → ℕ × InputCache H
  cache_read_1byte self = read_or_update self self.unread

  -- _cache_unpackUInt: `fuel` bounds the bytes read. Out of fuel it would go on.
  pub cache_unpack_uint : (fuel : ℕ) → InputCache H → (v is_next : ℕ) → Option (ℕ × InputCache H)
  cache_unpack_uint fuel self v zero = some (v, self)
  cache_unpack_uint zero self v (suc is_next) = none
  cache_unpack_uint (suc fuel) self v (suc is_next) =
      let (b, self') = cache_read_1byte self in
      cache_unpack_uint fuel self' (bit_or (v * 2 ^ 7 % 2 ^ 32) (bit_and b 127)) (b / 2 ^ 7)

  -- `if (decodeStep==0) { _cache_update(diff); … }`, with the answer of the update
  pub refill : InputCache H → List ℕ → Bool × InputCache H
  refill diff [] = cache_update diff
  refill diff (b ∷ bytes) = (true, diff)

  -- _patch_copy_diff: a round copies a byte at least, so `copy_length` rounds are enough.
  pub patch_copy_diff : (fuel copy_length : ℕ) → InputCache H → W → Option (InputCache H × W)
  patch_copy_diff fuel zero diff out = some (diff, out)
  patch_copy_diff zero (suc copy_length) diff out = none
  patch_copy_diff (suc fuel) (suc copy_length) diff out = do
    let (ok, diff') = refill diff diff.unread
    check ok
    let step = at_most (length diff'.unread) (suc copy_length)
    out' ← listener.write_new out (take step diff'.unread)
    patch_copy_diff fuel (suc copy_length - step) (record diff' { unread = drop step diff'.unread })
        out'

  -- The step of _patch_add_old_withClip from `decodeStep=diff->cache_end` on.
  pub add_step : (is_not_need_sub_diff : Bool) → InputCache H → ℕ × InputCache H
  add_step true diff = (diff.cache_end, diff)
  add_step false diff = let (ok, diff') = refill diff diff.unread in (length diff'.unread, diff')

  -- What it writes for the old bytes, and the cache behind it.
  pub add_diff : Bool → (step : ℕ) → List ℕ → InputCache H → List ℕ × InputCache H
  add_diff true step bytes diff = (bytes, diff)
  add_diff false step bytes diff =
      (add_data bytes (take step diff.unread), record diff { unread = drop step diff.unread })

  -- _patch_add_old_withClip
  pub patch_add_old :
      Bool → (fuel old_pos add_length : ℕ) → InputCache H → W → Option (InputCache H × W)
  patch_add_old same fuel old_pos zero diff out = some (diff, out)
  patch_add_old same zero old_pos (suc add_length) diff out = none
  patch_add_old same (suc fuel) old_pos (suc add_length) diff out = do
    let (decode_step, diff') = add_step same diff
    check (ltb 0 decode_step)
    let step = at_most decode_step (suc add_length)
    bytes ← listener.read_old old_pos step
    let (new_bytes, diff'') = add_diff same step bytes diff'
    out' ← listener.write_new out new_bytes
    patch_add_old same fuel ((old_pos + step) % 2 ^ 32) (suc add_length - step) diff'' out'

  -- The cover that a round reads, from its tag on.
  pub read_cover_at :
      (fuel old_pos_back new_pos_back cover_length tag : ℕ)
      → InputCache H
      → Option (LiteCover × InputCache H)
  read_cover_at fuel old_pos_back new_pos_back cover_length tag diff = do
    (step, diff) ← cache_unpack_uint fuel diff (bit_and tag 31) (bit_and tag 32)
    (gap, diff) ← cache_unpack_uint fuel diff 0 1
    some (cover_of old_pos_back new_pos_back cover_length tag step gap, diff)

  -- `{//read cover … }`
  pub read_cover :
      (fuel old_pos_back new_pos_back : ℕ) → InputCache H → Option (LiteCover × InputCache H)
  read_cover fuel old_pos_back new_pos_back diff = do
    (cover_length, diff) ← cache_unpack_uint fuel diff 0 1
    let (tag, diff) = cache_read_1byte diff
    read_cover_at fuel old_pos_back new_pos_back cover_length tag diff

  -- `if (newPosBack<cover_newPos) _CHECK(_patch_copy_diff(…))`
  pub copy_gap : (copy_length : ℕ) → InputCache H → W → Option (InputCache H × W)
  copy_gap copy_length diff out = patch_copy_diff copy_length copy_length diff out

  -- `while (coverCount--)`: newPosBack behind the covers that are left, the cache and the output.
  pub patch_covers :
      (fuel cover_count old_pos_back new_pos_back : ℕ)
      → InputCache H
      → W
      → Option (ℕ × InputCache H × W)
  patch_covers fuel zero old_pos_back new_pos_back diff out = some (new_pos_back, diff, out)
  patch_covers fuel (suc cover_count) old_pos_back new_pos_back diff out = do
    (c, diff) ← read_cover fuel old_pos_back new_pos_back diff
    check (not (ltb c.cover_new_pos new_pos_back))
    (diff, out) ← copy_gap (c.cover_new_pos - new_pos_back) diff out
    (diff, out) ←
        patch_add_old c.is_not_need_sub_diff c.cover_length c.cover_old_pos c.cover_length diff out
    check (ltb 0 c.cover_length || cover_count == 0)
    patch_covers fuel cover_count ((c.cover_old_pos + c.cover_length) % 2 ^ 32)
        ((c.cover_new_pos + c.cover_length) % 2 ^ 32) diff out

  -- hpatch_lite_patch: the output where it returns true, or `none` where it returns false or the
  -- fuel is used up.
  unfoldable pub hpatch_lite_patch :
      (fuel new_size temp_cache_size : ℕ) → (diff_data : H) → W → Option W
  unfolding fill cache_update next_byte read_or_update cache_read_1byte cache_unpack_uint refill
      patch_copy_diff add_step add_diff patch_add_old read_cover_at read_cover step_old_pos copy_gap
      patch_covers
  hpatch_lite_patch fuel new_size temp_cache_size diff_data out = do
    check (not (ltb temp_cache_size min_cache_size))
    (cover_count, diff) ←
        cache_unpack_uint fuel
          (record { unread = []; cache_end = temp_cache_size / 2; input_stream = diff_data }) 0 1
    (new_pos_back, diff, out) ← patch_covers fuel cover_count 0 0 diff out
    check (new_size == new_pos_back)
    check (not (diff.cache_end == 0))
    some out
