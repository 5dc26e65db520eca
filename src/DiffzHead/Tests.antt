-- ===== src/DiffzHead/Tests.antt =====
-- The head of a compressed diff, at a stream on memory.
use hdiff_patch.Prelude.{ℕ, ◌-◌, ◌<◌, ◌^◌, ◌≡◌, refl, some, List, [], ◌∷◌, ◌++◌, arith, length}
use hdiff_patch.Varint.RoundTrip.{packed}
use hdiff_patch.DiffzHead.{pushed_type, out_type, read_diffz_head}
use hdiff_patch.DiffzHead.Reading.{
  Numbers, numbers_part, sizes_part, info_of, head_of, read_diffz_head-out_type,
}
use hdiff_patch.MemStream.{read_mem_stream}
use hdiff_patch.MemStream.Access.{read_mem_stream-Random}

abbrev numbers : Numbers
numbers = record {
  new_data_size = 1000;
  old_data_size = 900;
  cover_count = 3;
  cover_buf = 12;
  compress_cover_buf = 0;
  rle_ctrl_buf = 200;
  compress_rle_ctrl_buf = 150;
  rle_code_buf = 7;
  compress_rle_code_buf = 0;
  diff_buf = 300;
  compress_diff_buf = 280;
}

-- "zlib"
abbrev zlib : List ℕ
zlib = 122 ∷ 108 ∷ 105 ∷ 98 ∷ []

abbrev diff : List ℕ
diff = pushed_type zlib ++ numbers_part numbers (1 ∷ 2 ∷ 3 ∷ [])

diff_size : length diff < 2 ^ 64
unfolding packed
diff_size = omega arith

zlib_accepted : out_type zlib ≡ some (pushed_type zlib)
unfolding out_type
zlib_accepted = refl

read_diffz_head-out_type_example :
    read_diffz_head read_mem_stream (length diff) diff
    ≡ some (
      info_of numbers zlib,
      head_of numbers 13
          (length diff - length (sizes_part numbers (1 ∷ 2 ∷ 3 ∷ [])))
          (length diff - 3),
    )
read_diffz_head-out_type_example =
    read_diffz_head-out_type read_mem_stream (λ src whole. src ≡ whole) read_mem_stream-Random diff
      zlib (pushed_type zlib) numbers (1 ∷ 2 ∷ 3 ∷ []) zlib_accepted refl
      (refl, (refl, (refl, (refl, tt)))) (omega arith) diff_size
