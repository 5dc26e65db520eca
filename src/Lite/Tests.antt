-- ===== src/Lite/Tests.antt =====
-- A run of hpatch_lite_patch, and its theorems at a diff in memory.
use hdiff_patch.Prelude.{
  ◌≡◌, refl, sym, some, none, [], ◌∷◌, ◌++◌, List, ℕ, arith, take, drop, length-take,
  take-append-drop,
}
use hdiff_patch.Prelude.Related.{Related}
use hdiff_patch.MemPatch.{add_data}
use hdiff_patch.Lite.{Listener, hpatch_lite_patch}
use hdiff_patch.Lite.Spec.{old_bytes}
use hdiff_patch.Lite.Cache.{IsServed}
use hdiff_patch.Lite.Transparent.{Appends}
use hdiff_patch.Lite.Enough.{new_data_of, hpatch_lite_patch-new_data_of}

abbrev old_data : List ℕ
old_data = 9 ∷ 200 ∷ 3 ∷ 8 ∷ []

-- one cover of length 3 from old position 1, behind one new byte
abbrev diff : List ℕ
diff = 1 ∷ 3 ∷ 1 ∷ 1 ∷ 77 ∷ 0 ∷ 1 ∷ 0 ∷ []

-- The diff, the old data and the new data in memory.
abbrev in_memory : Listener (List ℕ) (List ℕ)
in_memory = record {
  read_diff = λ stream n. (some (take n stream), drop n stream);
  read_old = old_bytes old_data;
  write_new = λ out bytes. some (out ++ bytes);
}

in_memory-IsServed : IsServed in_memory (λ stream. stream) (λ out. out) old_data
in_memory-IsServed = record {
  reads = λ stream n. (
    take n stream,
    drop n stream,
    refl,
    sym (take-append-drop n stream),
    omega (arith, length-take n stream),
    λ asked left. omega (arith, length-take n stream),
  );
  reads_old = λ pos n. refl;
  writes = λ out bytes. (out ++ bytes, refl, refl);
}

run : hpatch_lite_patch in_memory 9 4 6 diff [] ≡ some (77 ∷ 200 ∷ 4 ∷ 8 ∷ [])
unfolding hpatch_lite_patch add_data
run = refl

run_small_cache : hpatch_lite_patch in_memory 9 4 2 diff [] ≡ some (77 ∷ 200 ∷ 4 ∷ 8 ∷ [])
unfolding hpatch_lite_patch add_data
run_small_cache = refl

run_cut_off : hpatch_lite_patch in_memory 9 4 6 (1 ∷ 3 ∷ 1 ∷ 1 ∷ 77 ∷ 0 ∷ []) [] ≡ none
unfolding hpatch_lite_patch add_data
run_cut_off = refl

hpatch_lite_patch-new_data_of_example :
    Related
      (Appends in_memory (λ stream. stream) (λ out. out) old_data in_memory-IsServed [])
      (hpatch_lite_patch in_memory 9 4 6 diff [])
      (new_data_of 4 old_data diff)
hpatch_lite_patch-new_data_of_example =
    hpatch_lite_patch-new_data_of in_memory (λ stream. stream) (λ out. out) old_data
      in_memory-IsServed 9 4 6 diff [] (omega arith) (omega arith) (omega arith)
