-- ===== src/PatchStream/Whole.antt =====
-- The whole of patchByClip.
use hdiff_patch.Prelude.{
  ℕ, zero, suc, ◌+◌, ◌-◌, ◌%◌, ◌^◌, ◌≤◌, ◌<◌, ◌≡◌, ap, ◌∙◌, subst, Option, some, List, [], ◌++◌,
  arith, length, ◌>>=◌, append_assoc, >>=-eq-some,
}
use hdiff_patch.Varint.{max_packed_uint_bytes}
use hdiff_patch.Clip.Reads.{Serves}
use hdiff_patch.OutCache.Writes.{Accepts}
use hdiff_patch.RleStream.Steps.{AreBytes}
use hdiff_patch.PatchStream.{Machine, clip_rounds, clip_tail, patch_by_clip}
use hdiff_patch.PatchStream.Spec.{Lists, list_round, list_patch}
use hdiff_patch.PatchStream.Adds.{Random}
use hdiff_patch.PatchStream.Parts.{list_round-IsRound}
use hdiff_patch.PatchStream.Refine.{IsMachine, clip_round-list_round}
use hdiff_patch.PatchStream.Tail.{list_tail-IsTail, clip_tail-list_tail}

module _ {H W O : Type 0} (read : H → ℕ → ℕ → Option (List ℕ × H)) (Left : H → ℕ → List ℕ → Type 0)
    (serves : Serves read Left) (size cover_size : ℕ)
    (room_for_number : max_packed_uint_bytes ≤ size)
    (cover_room : max_packed_uint_bytes ≤ cover_size) (write : W → ℕ → List ℕ → Option W)
    (Written : W → List ℕ → Type 0) (new_size : ℕ) (accepts : Accepts write Written new_size)
    (new_fits : new_size < 2 ^ 64) (read_old : O → ℕ → ℕ → Option (List ℕ × O))
    (Holds : O → List ℕ → Type 0) (random : Random read_old Holds) (old : List ℕ)
    (old_fits : length old < 2 ^ 64) (old_bytes : AreBytes old) where
  abbrev Ready : ℕ → Machine H W O → Lists → List ℕ → Type 0
  Ready count m l all =
      IsMachine read Left serves size cover_size room_for_number cover_room write Written new_size
        accepts new_fits read_old Holds random old old_fits old_bytes count m l all

  clip_rounds-list_patch :
      (count : ℕ) (m : Machine H W O) (l : Lists) (all bytes : List ℕ)
      → Ready count m l all
      → list_patch count new_size old l ≡ some bytes
      → (m' : Machine H W O) × ((clip_rounds read write read_old count new_size (length old) size m
            >>= λ s. clip_tail read write read_old new_size new_size s)
          ≡ some m')
        × Written m'.out_cache.dst_stream (all ++ bytes)
  unfolding clip_rounds list_patch
  clip_rounds-list_patch zero m l all bytes h e =
      clip_tail-list_tail read Left serves size cover_size room_for_number cover_room write Written
        new_size accepts new_fits read_old Holds random old old_fits old_bytes m l all bytes h
        (list_tail-IsTail new_size l bytes e)
  clip_rounds-list_patch (suc count) m l all bytes h e =
      let ((front, l'), e1, k1) = >>=-eq-some (list_round new_size old l) _ e in
      let (back, e2, k2) = >>=-eq-some (list_patch count new_size old l') _ k1 in
      let (m', e', h') =
        clip_round-list_round read Left serves size cover_size room_for_number cover_room write
          Written new_size accepts new_fits read_old Holds random old old_fits old_bytes count m l
          all front l' h (list_round-IsRound new_size old l front l' e1) in
      let (m'', e'', written) = clip_rounds-list_patch count m' l' (all ++ front) back h' e2 in
      let joined : (all ++ front) ++ back ≡ all ++ bytes =
        append_assoc all front back ∙ ap (λ b. all ++ b) (some_same k2) in
      (m'', rw e' e'', subst (λ b. Written m''.out_cache.dst_stream b) joined written)
    where
      some_same : {xs ys : List ℕ} → some xs ≡ some ys → xs ≡ ys
      some_same e = cc

  -- patchByClip succeeds and has written the new data, when its streams have bytes that stand for
  -- that data, the caches have room for a number, both sizes fit 64 bits and the old data are bytes.
  pub patch_by_clip-list_patch :
      (m : Machine H W O) (l : Lists) (new_data : List ℕ)
      → Ready m.covers.cover_count m l []
      → m.out_cache.write_to_pos ≡ 0
      → list_patch m.covers.cover_count new_size old l ≡ some new_data
      → (m' : Machine H W O) × (patch_by_clip read write read_old new_size (length old) size m
          ≡ some m')
        × Written m'.out_cache.dst_stream new_data
  unfolding patch_by_clip
  patch_by_clip-list_patch m l new_data h start e =
      let at_start : Ready m.covers.cover_count (record m { new_pos_back = 0 }) l [] = record {
        streams = record {
          out_is = h.streams.out_is;
          news_has = h.streams.news_has;
          loader_has = h.streams.loader_has;
          old_holds = h.streams.old_holds;
        };
        covers_are = h.covers_are;
        new_pos_is = h.all_size;
        all_size = h.all_size;
        inside = h.inside;
      } in
      let new_data_size : (new_size + 2 ^ 64 - m.out_cache.write_to_pos) % 2 ^ 64 ≡ new_size =
        omega arith in
      let (m', e', written) =
        clip_rounds-list_patch m.covers.cover_count (record m { new_pos_back = 0 }) l [] new_data
          at_start e in
      (m', rw new_data_size e', written)
