-- ===== src/Adler/Tests.antt =====
-- Runs of adler32_roll, and its theorem at concrete bytes.
use hdiff_patch.Prelude.{◌≡◌, refl, [], ◌∷◌, ◌++◌, arith}
use hdiff_patch.Adler.{adler32_roll, adler32_by_combine}
use hdiff_patch.Adler.Combine.{adler32_by_combine-adler32}
use hdiff_patch.Adler.Roll.{adler32, adler32_roll-adler32}

-- the checksum of the letters of "abc"
adler32_abc : adler32 (97 ∷ 98 ∷ 99 ∷ []) ≡ 0x024d0127
unfolding adler32
adler32_abc = refl

roll_abc : adler32_roll 0x024d0127 3 97 100 ≡ adler32 (98 ∷ 99 ∷ 100 ∷ [])
unfolding adler32_roll adler32
roll_abc = refl

adler32_roll-adler32_example :
    adler32_roll (adler32 (97 ∷ 98 ∷ 99 ∷ [])) 3 97 100 ≡ adler32 ((98 ∷ 99 ∷ []) ++ 100 ∷ [])
adler32_roll-adler32_example =
    adler32_roll-adler32 97 (98 ∷ 99 ∷ []) 100 (omega arith) (omega arith) (omega arith)

combine_abc : adler32_by_combine (adler32 (97 ∷ [])) (adler32 (98 ∷ 99 ∷ [])) 2 ≡ 0x024d0127
unfolding adler32_by_combine adler32
combine_abc = refl

adler32_by_combine-adler32_example :
    adler32_by_combine (adler32 (97 ∷ [])) (adler32 (98 ∷ 99 ∷ [])) 2
    ≡ adler32 ((97 ∷ []) ++ 98 ∷ 99 ∷ [])
adler32_by_combine-adler32_example = adler32_by_combine-adler32 (97 ∷ []) (98 ∷ 99 ∷ [])
