-- ===== src/MemPatch/Bounds.antt =====
-- patch on any input: what it returns fills the new buffer, and it reads the old data inside its end.
use hdiff_patch.Prelude.{ℕ, zero, suc, ◌+◌, ◌≤◌, ◌≡◌, refl, ◌++◌, ap, some, List, [], ◌∷◌, length}
use hdiff_patch.Varint.{unpack_uint_with_tag}
use hdiff_patch.MemPatch.{add_data, PatchState}

pub length-add_data : (dst src : List ℕ) → length (add_data dst src) ≡ length dst
unfolding add_data
length-add_data [] src = refl
length-add_data (d ∷ dst) [] = refl
length-add_data (d ∷ dst) (s ∷ src) = ap suc (length-add_data dst src)

-- A round whose two lengths, as the code streams give them, are inside the new data that is left,
-- the new bytes that are left and the old data behind the position, and which settles as many bytes.
pub record IsInside (old : List ℕ) (s : PatchState) (bytes : List ℕ) (s' : PatchState)
    : Type 0 where
  pub copy_length : ℕ
  pub add_length : ℕ
  pub inc_new_pos : List ℕ
  pub lengths : List ℕ
  pub copy_length_is : unpack_uint_with_tag s.code_inc_new_pos 0 ≡ some (copy_length, inc_new_pos)
  pub add_length_is : unpack_uint_with_tag s.code_lengths 0 ≡ some (add_length, lengths)
  pub in_new : copy_length + add_length ≤ length s.new_rest
  pub in_code : copy_length ≤ length s.code_new_data_diff
  pub in_old : s'.old_pos_back + add_length ≤ length old
  pub settles : length bytes ≡ copy_length + add_length
  pub leaves : length s'.new_rest + length bytes ≡ length s.new_rest

-- A run of the cover loop: every round is inside its buffers, and behind the last one the new bytes
-- that are left fill what is left.
pub data Runs (old : List ℕ) : (cover_count : ℕ) → PatchState → (new : List ℕ) → Type 0 where
  last :
      (s : PatchState) (new : List ℕ)
      → length s.new_rest ≤ length s.code_new_data_diff
      → length new ≡ length s.new_rest
      → Runs old zero s new
  round :
      {n : ℕ} (s s' : PatchState) (bytes rest : List ℕ)
      → IsInside old s bytes s'
      → Runs old n s' rest
      → Runs old (suc n) s (bytes ++ rest)
