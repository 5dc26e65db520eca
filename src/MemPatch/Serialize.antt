-- ===== src/MemPatch/Serialize.antt =====
-- Writing a diff: serialize_diff of libHDiffPatch/HDiff/diff.cpp, with the bytes that its streams
-- TNewDataDiffStream and TNewDataSubDiffStream_mem deliver from their first to their last.
use hdiff_patch.Prelude.{
  ℕ, ◌+◌, ◌-◌, ◌%◌, ◌^◌, ◌≤◌, List, [], ◌∷◌, ◌++◌, ltb, if◌then◌else◌, length, take, drop,
  replicate,
}
use hdiff_patch.Varint.RoundTrip.{packed}
use hdiff_patch.Rle.Encoder.{bytes_rle_save}

-- hpatch_TCover
pub record Cover : Type 0 where
  pub old_pos : ℕ
  pub new_pos : ℕ
  pub len : ℕ

-- length_buf
abbrev pub length_buf : List Cover → List ℕ
length_buf [] = []
length_buf (c ∷ cs) = packed c.len 0 0 ++ length_buf cs

-- inc_newPos_buf, from lastNewEnd on
abbrev pub inc_new_pos_buf : (last_new_end : ℕ) → List Cover → List ℕ
inc_new_pos_buf last_new_end [] = []
inc_new_pos_buf last_new_end (c ∷ cs) =
    packed (c.new_pos - last_new_end) 0 0 ++ inc_new_pos_buf (c.new_pos + c.len) cs

-- the code of one step from oldPosBack: the distance, and its direction as the tag
abbrev pub inc_old_pos_code : (old_pos_back old_pos : ℕ) → List ℕ
inc_old_pos_code old_pos_back old_pos =
    if ltb old_pos old_pos_back
    then packed (old_pos_back - old_pos) 1 1
    else packed (old_pos - old_pos_back) 0 1

-- inc_oldPos_buf, from oldPosBack on
abbrev pub inc_old_pos_buf : (old_pos_back : ℕ) → List Cover → List ℕ
inc_old_pos_buf old_pos_back [] = []
inc_old_pos_buf old_pos_back (c ∷ cs) =
    inc_old_pos_code old_pos_back c.old_pos ++ inc_old_pos_buf c.old_pos cs

-- TNewDataDiffStream: the new bytes outside the covers. `new_rest` is the new data from
-- lastNewEnd on.
abbrev pub new_data_diff : (last_new_end : ℕ) → List Cover → (new_rest : List ℕ) → List ℕ
new_data_diff last_new_end [] new_rest = new_rest
new_data_diff last_new_end (c ∷ cs) new_rest =
    take (c.new_pos - last_new_end) new_rest
    ++ new_data_diff (c.new_pos + c.len) cs (drop c.len (drop (c.new_pos - last_new_end) new_rest))

-- new bytes less old bytes
unfoldable pub sub_data : (new old : List ℕ) → List ℕ
sub_data [] old = []
sub_data (n ∷ new) [] = n ∷ new
sub_data (n ∷ new) (o ∷ old) = (n + 2 ^ 8 - o) % 2 ^ 8 ∷ sub_data new old

-- TNewDataSubDiffStream_mem: the differences inside the covers, and 0 outside.
abbrev pub new_data_sub_diff :
    (old : List ℕ) (last_new_end : ℕ) → List Cover → (new_rest : List ℕ) → List ℕ
new_data_sub_diff old last_new_end [] new_rest = replicate (length new_rest) 0
new_data_sub_diff old last_new_end (c ∷ cs) new_rest =
    replicate (c.new_pos - last_new_end) 0
    ++ (sub_data (take c.len (drop (c.new_pos - last_new_end) new_rest))
          (take c.len (drop c.old_pos old))
        ++ new_data_sub_diff old (c.new_pos + c.len) cs
            (drop c.len (drop (c.new_pos - last_new_end) new_rest)))

-- serialize_diff: the sizes, the four code streams, and the run-length code at kRle_bestSize.
unfoldable pub serialize_diff : (new old : List ℕ) (covers : List Cover) → List ℕ
unfolding sub_data
serialize_diff new old covers =
    packed (length covers) 0 0
    ++ (packed (length (length_buf covers)) 0 0
        ++ (packed (length (inc_new_pos_buf 0 covers)) 0 0
            ++ (packed (length (inc_old_pos_buf 0 covers)) 0 0
                ++ (packed (length (new_data_diff 0 covers new)) 0 0
                    ++ (length_buf covers
                        ++ (inc_new_pos_buf 0 covers
                            ++ (inc_old_pos_buf 0 covers
                                ++ (new_data_diff 0 covers new
                                    ++ bytes_rle_save 1 (new_data_sub_diff old 0 covers new)))))))))

-- Covers in the order of the new data, inside both data, that do not overlap in the new data.
abbrev pub CoversFit : (old_size new_size last_new_end : ℕ) → List Cover → Type 0
CoversFit old_size new_size last_new_end [] = last_new_end ≤ new_size
CoversFit old_size new_size last_new_end (c ∷ cs) =
    (last_new_end ≤ c.new_pos)
    × (c.old_pos + c.len ≤ old_size)
    × CoversFit old_size new_size (c.new_pos + c.len) cs
