-- ===== src/Lite/Head/Tests.antt =====
-- Runs of hpatch_lite_open, and its theorem at a head in memory.
use hdiff_patch.Prelude.{◌≡◌, refl, some, none, Option, [], ◌∷◌, ◌++◌, List, ℕ, arith, take, drop}
use hdiff_patch.Lite.Head.{lite_head, hpatch_lite_open, saved_size_bytes, save_size}
use hdiff_patch.Lite.Head.RoundTrip.{hpatch_lite_open-lite_head}

abbrev memory_read : List ℕ → ℕ → Option (List ℕ) × List ℕ
memory_read stream n = (some (take n stream), drop n stream)

head_300 : lite_head 1 300 0 ≡ 104 ∷ 73 ∷ 1 ∷ 66 ∷ 44 ∷ 1 ∷ []
unfolding lite_head saved_size_bytes save_size
head_300 = refl

open_300 :
    hpatch_lite_open memory_read (104 ∷ 73 ∷ 1 ∷ 66 ∷ 44 ∷ 1 ∷ 7 ∷ []) ≡ some (1, 300, 0, 7 ∷ [])
unfolding hpatch_lite_open
open_300 = refl

open_other_type : hpatch_lite_open memory_read (104 ∷ 74 ∷ 1 ∷ 66 ∷ 44 ∷ 1 ∷ 7 ∷ []) ≡ none
unfolding hpatch_lite_open
open_other_type = refl

-- A head that ends inside the new size is accepted, with a size of the bytes that are there.
open_cut_off : hpatch_lite_open memory_read (104 ∷ 73 ∷ 1 ∷ 66 ∷ 44 ∷ []) ≡ some (1, 44, 0, [])
unfolding hpatch_lite_open
open_cut_off = refl

hpatch_lite_open-lite_head_example :
    (stream : List ℕ) × (hpatch_lite_open memory_read (lite_head 1 300 70000 ++ 7 ∷ [])
      ≡ some (1, 300, 70000, stream))
    × (stream ≡ 7 ∷ [])
hpatch_lite_open-lite_head_example =
    hpatch_lite_open-lite_head memory_read (λ stream. stream) 1 300 70000 (7 ∷ [])
      (lite_head 1 300 70000 ++ 7 ∷ []) (λ stream n. (drop n stream, refl, refl)) (omega arith)
      (omega arith) refl
