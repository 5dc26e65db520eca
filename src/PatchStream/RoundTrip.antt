-- ===== src/PatchStream/RoundTrip.antt =====
-- Patching by streams restores the new data from what serialize_diff wrote.
use hdiff_patch.Prelude.{
  ℕ, ◌+◌, ◌-◌, ◌*◌, ◌/◌, ◌^◌, ◌≤◌, ◌<◌, ◌≡◌, refl, sym, ap, ◌∙◌, subst, true, Option, none, some,
  List, [], ◌∷◌, arith, length, All, length-append, le→ltb,
}
use hdiff_patch.Varint.{IsByte}
use hdiff_patch.Rle.Runs.{
  Run, run_data, IsRun, ctrl_of, code_of, data_of, length-run_data, length-ctrl_of, encode,
}
use hdiff_patch.Rle.Encoder.{bytes_rle_save}
use hdiff_patch.Rle.Encoder.Restore.{bytes_rle_save-encode}
use hdiff_patch.MemPatch.Serialize.{
  Cover, length_buf, inc_new_pos_buf, inc_old_pos_buf, new_data_diff, new_data_sub_diff,
  serialize_diff, CoversFit,
}
use hdiff_patch.MemPatch.Restore.{length-new_data_sub_diff}
use hdiff_patch.OutCache.Writes.{Accepts}
use hdiff_patch.RleStream.Spec.{bytes_left}
use hdiff_patch.PatchStream.{Machine}
use hdiff_patch.PatchStream.Adds.{Random}
use hdiff_patch.PatchStream.Written.{list_patch-lists_at}
use hdiff_patch.PatchStream.Encoded.{IsShort, runs_left-runs}
use hdiff_patch.PatchStream.Open.{patch_stream_with_cache}
use hdiff_patch.PatchStream.Stream.{Parts, diff_of}
use hdiff_patch.PatchStream.Restores.{patch_stream_with_cache-list_patch}

IsShort-runs : (rs : List Run) → All IsRun rs → length (data_of rs) < 2 ^ 64 → All IsShort rs
IsShort-runs [] h fits = tt
IsShort-runs (r ∷ rs) ((lo, hi), h) fits =
    let sizes = length-append (run_data r) (data_of rs) in
    ((lo, omega (arith, sizes, length-run_data r)), IsShort-runs rs h (omega (arith, sizes)))

-- The parts of a diff.
abbrev parts_of : (new old : List ℕ) (covers : List Cover) (rs : List Run) → Parts
parts_of new old covers rs = record {
  count = length covers;
  lengths = length_buf covers;
  inc_new = inc_new_pos_buf 0 covers;
  inc_old = inc_old_pos_buf 0 covers;
  news = new_data_diff 0 covers new;
  ctrl = ctrl_of rs;
  code = code_of rs;
}

diff_of-parts_of :
    (new old : List ℕ) (covers : List Cover) (rs : List Run)
    → bytes_rle_save 1 (new_data_sub_diff old 0 covers new) ≡ encode rs
    → diff_of (parts_of new old covers rs) ≡ serialize_diff new old covers
unfolding serialize_diff
diff_of-parts_of new old covers rs e = rw e refl

bytes_left-runs :
    (rs : List Run)
    → All IsRun rs
    → length (data_of rs) < 2 ^ 64
    → bytes_left (length (ctrl_of rs)) (record {
      copy_length = 0;
      set_length = 0;
      set_value = 0;
      ctrl = ctrl_of rs;
      code = code_of rs;
    })
      ≡ (data_of rs, true)
unfolding bytes_left
bytes_left-runs rs h fits =
    rw (le→ltb (length (code_of rs)) 0 (omega arith))
      (runs_left-runs rs (length (ctrl_of rs)) (IsShort-runs rs h fits) (length-ctrl_of rs h))

module _ {H W O : Type 0} (read : H → ℕ → ℕ → Option (List ℕ × H)) (Holds : H → List ℕ → Type 0)
    (random : Random read Holds) (write : W → ℕ → List ℕ → Option W) (Written : W → List ℕ → Type 0)
    (read_old : O → ℕ → ℕ → Option (List ℕ × O)) (HoldsOld : O → List ℕ → Type 0)
    (random_old : Random read_old HoldsOld) where
  abbrev Restored :
      (struct_size new_size old_size : ℕ) (out : W) (o : O) (stream : H)
      (temp_cache temp_cache_end : ℕ) (new diff : List ℕ)
      → Type 0
  Restored struct_size new_size old_size out o stream temp_cache temp_cache_end new diff =
      (m : Machine H W O) × (patch_stream_with_cache read (length diff) write read_old struct_size
          new_size old_size out o stream none temp_cache temp_cache_end
        ≡ some m)
      × Written m.out_cache.dst_stream new

  -- _patch_stream_with_cache succeeds on what serialize_diff wrote, and the written stream then has
  -- the new data: for every list of covers that lie in the order of the new data, do not overlap there
  -- and stay inside both data, when both are lists of bytes, the size of the old data fits 64 bits,
  -- there are fewer than 2 ^ 60 new bytes and fewer than 2 ^ 60 covers, the diff has fewer than 2 ^ 64
  -- bytes, and the memory for the caches has room for the struct of the covers. The streams deliver and
  -- take every part that lies inside them.
  pub patch_stream_with_cache-serialize_diff :
      (new old : List ℕ) (covers : List Cover) (struct_size : ℕ) (out : W) (o : O) (stream : H)
      (temp_cache temp_cache_end : ℕ)
      → Accepts write Written (length new)
      → Holds stream (serialize_diff new old covers)
      → HoldsOld o old
      → Written out []
      → All IsByte new
      → All IsByte old
      → length old < 2 ^ 64
      → length new < 2 ^ 60
      → CoversFit (length old) (length new) 0 covers
      → length covers < 2 ^ 60
      → length (serialize_diff new old covers) < 2 ^ 64
      → struct_size + 40 ≤ 3 * ((temp_cache_end - temp_cache) / 8)
      → (m : Machine H W O) × (patch_stream_with_cache read
            (length (serialize_diff new old covers))
            write
            read_old
            struct_size
            (length new)
            (length old)
            out
            o
            stream
            none
            temp_cache
            temp_cache_end
          ≡ some m)
        × Written m.out_cache.dst_stream new
  patch_stream_with_cache-serialize_diff new old covers struct_size out o stream temp_cache
        temp_cache_end accepts has has_old empty bn bo so sn fit few fits room =
      let front : 0 + length new ≡ length new = omega arith in
      let deltas : List ℕ = new_data_sub_diff old 0 covers new in
      let size : length deltas ≡ length new =
        length-new_data_sub_diff old 0 covers new (rw front fit) in
      let (rs, valid, code, back, ctrl_fits) =
        bytes_rle_save-encode 1 deltas (omega (arith, size)) in
      let runs = bytes_left-runs rs valid (omega (arith, ap (λ l. length l) back, size)) in
      let same : serialize_diff new old covers ≡ diff_of (parts_of new old covers rs) =
        sym (diff_of-parts_of new old covers rs code) in
      subst
        (λ d.
          Restored struct_size (length new) (length old) out o stream temp_cache temp_cache_end new
            d)
        (sym same)
        (patch_stream_with_cache-list_patch read Holds random write Written (length new) accepts
          (omega arith) read_old HoldsOld random_old old so bo (parts_of new old covers rs)
          (subst (λ d. length d < 2 ^ 64) same fits) (omega arith) struct_size out o stream
          temp_cache temp_cache_end deltas new (subst (λ d. Holds stream d) same has) has_old empty
          room (runs ∙ ap (λ b. (b, true)) (sym back))
          (list_patch-lists_at (length new) old 0 0 covers new (omega arith) bo bn so (omega arith)
            front fit))
