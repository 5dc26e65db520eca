-- ===== src/PatchStream/NextCover.antt =====
-- Reading a cover from its three clips.
use hdiff_patch.Prelude.{
  ℕ, suc, ◌+◌, ◌-◌, ◌/◌, ◌%◌, ◌^◌, ◌≤◌, ◌≡◌, refl, ◌⊎◌, inl, inr, Bool, if◌then◌else◌, Option, none,
  some, List, [], ◌∷◌, arith, lt→ltb,
}
use hdiff_patch.Prelude.Related.{Related, Related->>=}
use hdiff_patch.Varint.{unpack_within, max_packed_uint_bytes}
use hdiff_patch.MemPatch.{sign_tag_bit, inc_old_pos_sign}
use hdiff_patch.MemPatch.Serialize.{Cover}
use hdiff_patch.Clip.{Clip, access_data, clip_unpack_uint_with_tag}
use hdiff_patch.Clip.Reads.{
  Serves, IsClip, SameBytes, access_data-some, access_data-none, clip_unpack-unpack_within,
}
use hdiff_patch.RleStream.{first}
use hdiff_patch.RleStream.Runs.{first-cached}
use hdiff_patch.PatchStream.{Covers, next_cover, read_cover}
use hdiff_patch.PatchStream.Spec.{Lists, Codes, list_cover}

module _ {H : Type 0} (read : H → ℕ → ℕ → Option (List ℕ × H)) (Left : H → ℕ → List ℕ → Type 0)
    (serves : Serves read Left) (size : ℕ) where
  -- The clips of the covers have the bytes of `l`, `count` covers are left, and the positions are
  -- those of `l`; `adds` is is_oldPosBack_need_addLength.
  pub record IsCovers (adds : Bool) (count : ℕ) (s : Covers H) (l : Lists) : Type 0 where
    pub count_is : s.cover_count ≡ count
    pub old_pos_is : s.old_pos_back ≡ l.old_pos_back
    pub new_pos_is : s.new_pos_back ≡ l.new_pos_back
    pub adds_is : s.is_old_pos_back_need_add_length ≡ adds
    pub old_has : IsClip Left size s.code_inc_old_pos_clip l.inc_old
    pub new_has : IsClip Left size s.code_inc_new_pos_clip l.inc_new
    pub lengths_has : IsClip Left size s.code_lengths_clip l.lengths

  -- Behind a cover its clips have the codes, newPosBack is its end, and oldPosBack is its end in the
  -- old data where the length is added, and otherwise its begin.
  pub record Covered (adds : Bool) (count : ℕ) (r : Cover × Covers H) (r' : Cover × Codes)
      : Type 0 where
    pub same_cover : r.0 ≡ r'.0
    pub count_left : r.1.cover_count ≡ count
    pub old_end :
        r.1.old_pos_back ≡ (if adds then (r.0.old_pos + r.0.len) % 2 ^ 64 else r.0.old_pos)
    pub new_end : r.1.new_pos_back ≡ (r.0.new_pos + r.0.len) % 2 ^ 64
    pub still_adds : r.1.is_old_pos_back_need_add_length ≡ adds
    pub old_left : IsClip Left size r.1.code_inc_old_pos_clip r'.1.inc_old
    pub new_left : IsClip Left size r.1.code_inc_new_pos_clip r'.1.inc_new
    pub lengths_left : IsClip Left size r.1.code_lengths_clip r'.1.lengths

  -- The sign of a step, or none where no byte is left.
  sign_cases :
      (c : Clip H) (bytes : List ℕ)
      → IsClip Left size c bytes
      → 1 ≤ size
      → ((access_data read c 1 ≡ none) × (inc_old_pos_sign bytes ≡ none))
        ⊎ ((c' : Clip H) × (byte : ℕ) × (access_data read c 1 ≡ some c')
            × (first c'.cached ≡ some byte)
            × (inc_old_pos_sign bytes ≡ some (byte / 2 ^ (8 - sign_tag_bit)))
            × IsClip Left size c' bytes)
  unfolding inc_old_pos_sign
  sign_cases c [] h fits = inl (access_data-none read Left serves 1 h (omega arith), refl)
  sign_cases c (byte ∷ bytes) h fits =
      let (c', e, h', there) = access_data-some read Left serves 1 h fits (omega arith) in
      inr (c', byte, e, first-cached c'.cached h'.more bytes byte h'.whole there, refl, h')

  pub next_cover-list_cover :
      (adds : Bool) (count : ℕ) (s : Covers H) (l : Lists)
      → IsCovers adds count s l
      → max_packed_uint_bytes ≤ size
      → Related (Covered adds count) (next_cover read s) (list_cover l)
  unfolding next_cover list_cover
  next_cover-list_cover adds count s l h fits =
      elim (sign_cases s.code_inc_old_pos_clip l.inc_old h.old_has (omega arith)) [
        | inl (e, e') ↦ rw (e, e') tt
        | inr (clip, byte, e, f, e', k) ↦
            rw (e, f, e')
              (Related->>= (SameBytes read Left serves size) (Covered adds count)
                (clip_unpack_uint_with_tag read clip sign_tag_bit)
                (unpack_within max_packed_uint_bytes l.inc_old sign_tag_bit) _ _
                (clip_unpack-unpack_within read Left serves sign_tag_bit k fits)
                λ (inc, old_clip) (inc', inc_old) (same, old_left).
                  Related->>= (SameBytes read Left serves size) (Covered adds count)
                    (clip_unpack_uint_with_tag read s.code_inc_new_pos_clip 0)
                    (unpack_within max_packed_uint_bytes l.inc_new 0) _ _
                    (clip_unpack-unpack_within read Left serves 0 h.new_has fits)
                    λ (copy, new_clip) (copy', inc_new) (same', new_left).
                      Related->>= (SameBytes read Left serves size) (Covered adds count)
                        (clip_unpack_uint_with_tag read s.code_lengths_clip 0)
                        (unpack_within max_packed_uint_bytes l.lengths 0) _ _
                        (clip_unpack-unpack_within read Left serves 0 h.lengths_has fits)
                        λ (len, lengths_clip) (len', lengths) (same'', lengths_left). record {
                          same_cover = rw (same, same', same'', h.old_pos_is, h.new_pos_is) refl;
                          count_left = h.count_is;
                          old_end = rw h.adds_is refl;
                          new_end = refl;
                          still_adds = h.adds_is;
                          old_left = old_left;
                          new_left = new_left;
                          lengths_left = lengths_left;
                        })
      ]

  -- _covers_read_cover, while covers are left, reads the cover that the three code streams stand
  -- for, or fails where they stand for none, when the caches have room for a number.
  pub read_cover-list_cover :
      (adds : Bool) (count : ℕ) (s : Covers H) (l : Lists)
      → IsCovers adds (suc count) s l
      → max_packed_uint_bytes ≤ size
      → Related (Covered adds count) (read_cover read s) (list_cover l)
  unfolding read_cover
  read_cover-list_cover adds count s l h fits =
      rw (lt→ltb 0 s.cover_count (omega (arith, h.count_is))) (
        next_cover-list_cover adds count (record s { cover_count = s.cover_count - 1 }) l
          (record {
            count_is = omega (arith, h.count_is);
            old_pos_is = h.old_pos_is;
            new_pos_is = h.new_pos_is;
            adds_is = h.adds_is;
            old_has = h.old_has;
            new_has = h.new_has;
            lengths_has = h.lengths_has;
          })
          fits)
