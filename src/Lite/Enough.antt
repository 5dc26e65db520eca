-- ===== src/Lite/Enough.antt =====
-- hpatch_lite_patch with enough fuel, against the format without fuel.
use hdiff_patch.Prelude.{ℕ, suc, ◌^◌, ◌≤◌, ◌<◌, List, Option, arith, length, subst}
use hdiff_patch.Prelude.Related.{Related}
use hdiff_patch.Lite.{Listener, hpatch_lite_patch, min_cache_size}
use hdiff_patch.Lite.Spec.{lite_new_data}
use hdiff_patch.Lite.Cache.{IsServed}
use hdiff_patch.Lite.Fuel.{lite_new_data_fuel}
use hdiff_patch.Lite.Transparent.{Appends, hpatch_lite_patch-lite_new_data}

-- The new data that a diff stands for, with the fuel that its size gives.
abbrev pub new_data_of : (new_size : ℕ) (old diff : List ℕ) → Option (List ℕ)
new_data_of new_size old diff = lite_new_data (suc (length diff)) new_size old diff

-- hpatch_lite_patch with a cache of at least two bytes returns true exactly when the diff stands for
-- new data of the given size, and then it has written just these: whatever the cache size, and
-- however many bytes each read of the diff delivers, when the old data has fewer than 2 ^ 32 bytes
-- and the fuel is above the size of the diff.
pub hpatch_lite_patch-new_data_of :
    {H W : Type 0} (listener : Listener H W) (contents : H → List ℕ) (written : W → List ℕ)
    (old : List ℕ) (served : IsServed listener contents written old)
    (fuel new_size temp_cache_size : ℕ) (diff_data : H) (out : W)
    → length old < 2 ^ 32
    → min_cache_size ≤ temp_cache_size
    → length (contents diff_data) < fuel
    → Related
        (Appends listener contents written old served out)
        (hpatch_lite_patch listener fuel new_size temp_cache_size diff_data out)
        (new_data_of new_size old (contents diff_data))
hpatch_lite_patch-new_data_of listener contents written old served fuel new_size size diff_data out
      small enough fuel_fits =
    subst
      (λ r.
        Related (Appends listener contents written old served out)
          (hpatch_lite_patch listener fuel new_size size diff_data out) r)
      (lite_new_data_fuel fuel (suc (length (contents diff_data))) new_size old (contents diff_data)
        fuel_fits (omega arith))
      (hpatch_lite_patch-lite_new_data listener contents written old served fuel new_size size
        diff_data out small enough)
