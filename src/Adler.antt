-- ===== src/Adler.antt =====
-- The rolling checksum: adler32_roll and adler32_by_combine, the macros _adler_roll and
-- _adler_by_combine with 32 bits, of libHDiffPatch/HDiff/private_diff/limit_mem_diff/adler_roll.c,
-- with a size_t of 64 bits.
pub mod Roll
pub mod Combine
mod Tests
use hdiff_patch.Prelude.{
  ℕ, zero, suc, ◌+◌, ◌-◌, ◌*◌, ◌/◌, ◌%◌, ◌^◌, List, [], ◌∷◌, ltb, if◌then◌else◌, length, bit_and,
  bit_or,
}

-- _adler32_BASE
abbrev pub adler_base : ℕ
adler_base = 65521

-- _adler_border1
abbrev pub border1 : ℕ → ℕ
border1 v = if ltb v adler_base then v else v - adler_base

-- _adler_border2
unfoldable pub border2 : ℕ → ℕ
border2 v = border1 (border1 v)

-- adler_roll_kBestBlockSize
abbrev pub best_block_size : ℕ
best_block_size = (2 ^ 64 - 1) / 255

-- `blockSize=(blockSize<=kBestBlockSize)?blockSize:mod(blockSize,BASE);`
unfoldable pub block_factor : ℕ → ℕ
block_factor block_size =
    if ltb best_block_size block_size then block_size % adler_base else block_size

-- `adler` behind the first border2
unfoldable pub roll_adler : (adler out_data in_data : ℕ) → ℕ
roll_adler adler out_data in_data = border2 ((adler + (in_data + (adler_base - out_data))) % 2 ^ 32)

-- `sum` behind the second border2
unfoldable pub roll_sum : (sum adler block_size out_data : ℕ) → ℕ
roll_sum sum adler block_size out_data = border2 (
    (sum + adler + ((adler_base - 1) - block_factor block_size * out_data % 2 ^ 64 % adler_base))
    % 2 ^ 32)

-- adler32_roll
unfoldable pub adler32_roll : (adler block_size out_data in_data : ℕ) → ℕ
unfolding border2 block_factor roll_adler roll_sum
adler32_roll adler block_size out_data in_data =
    let low = roll_adler (bit_and adler (2 ^ 16 - 1)) out_data in_data in
    let sum = roll_sum (adler / 2 ^ 16) low block_size out_data in
    bit_or low (sum * 2 ^ 16 % 2 ^ 32)

-- _adler_border1 with twice the base, then with the base: _adler_border3
unfoldable pub border3 : ℕ → ℕ
border3 v = border1 (if ltb v (adler_base * 2) then v else v - adler_base * 2)

-- `sum` of _adler_by_combine before its border3: the lengths of the right part enter by `rem`.
unfoldable pub combined_sum : (rem adler sum_left sum_right : ℕ) → ℕ
combined_sum rem adler sum_left sum_right =
    border3 (
      (rem * adler % 2 ^ 32 % adler_base + (sum_left + sum_right + (adler_base - rem) * 1))
      % 2 ^ 32)

-- `adler` of _adler_by_combine
unfoldable pub combined_adler : (adler_left adler_right : ℕ) → ℕ
combined_adler adler_left adler_right =
    border2 ((adler_left + (adler_right + (adler_base - 1))) % 2 ^ 32)

-- adler32_by_combine, the macro _adler_by_combine with 32 bits
unfoldable pub adler32_by_combine : (adler_left adler_right len_right : ℕ) → ℕ
unfolding border2 border3 combined_sum combined_adler
adler32_by_combine adler_left adler_right len_right =
    let low_left = bit_and adler_left (2 ^ 16 - 1) in
    let low = combined_adler low_left (bit_and adler_right (2 ^ 16 - 1)) in
    let sum =
      combined_sum (len_right % adler_base) low_left (adler_left / 2 ^ 16) (adler_right / 2 ^ 16) in
    bit_or low (sum * 2 ^ 16 % 2 ^ 32)
