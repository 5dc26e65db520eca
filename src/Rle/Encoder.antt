-- ===== src/Rle/Encoder.antt =====
-- The run-length encoder: packUIntWithTag of libHDiffPatch/HDiff/private_diff/pack_uint.h, and
-- rle_pushSame, TStreamRLE and bytesRLE_save of libHDiffPatch/HDiff/private_diff/bytes_rle.cpp.
-- A std::vector is a list whose end is the vector's end.
pub mod Buffers
pub mod Steps
pub mod Restore
use hdiff_patch.Prelude.{
  ℕ, zero, suc, ◌+◌, ◌-◌, ◌^◌, ◌<◌, ◌≤◌, Bool, true, false, ◌||◌, List, [], ◌∷◌, ◌++◌, arith, ltb,
  ◌==◌, if◌then◌else◌, length, take, drop, replicate, dite, dec_lt,
}
use hdiff_patch.Prelude.Wf.{lt_wf}
use hdiff_patch.Varint.RoundTrip.{packed}
use hdiff_patch.Rle.{byte_rle_type_bit}
use mathlib.Core.WellFounded.{Acc}

-- packUIntWithTag into a vector. Its buffer has hpatch_kMaxPackedUIntBytes bytes, which every value
-- of 64 bits fits, so that the exception for a full buffer is not raised.
abbrev pub push_uint_with_tag : List ℕ → (value high_tag tag_bit : ℕ) → List ℕ
push_uint_with_tag out_code value high_tag tag_bit = out_code ++ packed value high_tag tag_bit

-- kMaxBytesRleLen
abbrev pub max_bytes_rle_len : ℕ
max_bytes_rle_len = 2 ^ 31 - 1

-- ctrlBuf, codeBuf, sameCur, sameCount, notSameCount of TStreamRLE
pub record StreamRle : Type 0 where
  pub ctrl_buf : List ℕ
  pub code_buf : List ℕ
  pub same_cur : ℕ
  pub same_count : ℕ
  pub not_same_count : ℕ

-- rle_pushSame behind its loop: one control code, and the byte itself if it is not 0 or 255.
pub push_run : (cur count : ℕ) (ctrl code : List ℕ) → List ℕ × List ℕ
push_run cur count ctrl code =
    if cur == 0
    then (push_uint_with_tag ctrl (count - 1) 0 byte_rle_type_bit, code)
    else if cur == 255
    then (push_uint_with_tag ctrl (count - 1) 1 byte_rle_type_bit, code)
    else (push_uint_with_tag ctrl (count - 1) 2 byte_rle_type_bit, code ++ cur ∷ [])

pub long_run_shrinks : (max_len count : ℕ) → suc max_len < count → count - suc max_len < count
long_run_shrinks max_len count h = omega arith

-- `while (count>kMaxBytesRleLen) { rle_pushSame(…,kMaxBytesRleLen); count-=kMaxBytesRleLen; }`
-- with `suc max_len` for the constant
pub push_same_loop : (max_len cur count : ℕ) → Acc ◌<◌ count → List ℕ → List ℕ → List ℕ × List ℕ
push_same_loop max_len cur count (Acc.intro _ smaller) ctrl code =
    dite (dec_lt (suc max_len) count)
      (λ long.
        let (ctrl', code') = push_run cur (suc max_len) ctrl code in
        push_same_loop max_len cur (count - suc max_len)
          (smaller _ (long_run_shrinks max_len count long)) ctrl' code')
      (λ _. push_run cur count ctrl code)

-- rle_pushSame on the two buffers of an encoder
pub push_same : StreamRle → (cur count : ℕ) → StreamRle
push_same s cur count =
    let (ctrl, code) =
      push_same_loop (max_bytes_rle_len - 1) cur count (lt_wf.apply count) s.ctrl_buf s.code_buf in
    record s { ctrl_buf = ctrl; code_buf = code }

-- `codeBuf.back()` and `codeBuf.pop_back()`
abbrev pub back : List ℕ → ℕ
back [] = 0
back (x ∷ []) = x
back (x ∷ y ∷ ys) = back (y ∷ ys)

abbrev pub pop_back : List ℕ → List ℕ
pop_back [] = []
pop_back (x ∷ []) = []
pop_back (x ∷ y ∷ ys) = x ∷ pop_back (y ∷ ys)

-- TStreamRLE::endNoSame
pub end_no_same : StreamRle → StreamRle
end_no_same s =
    if ltb 1 s.not_same_count
    then record s {
      ctrl_buf = push_uint_with_tag s.ctrl_buf (s.not_same_count - 1) 3 byte_rle_type_bit;
      not_same_count = 0;
    }
    else if s.not_same_count == 1
    then push_same (record s { not_same_count = 0; code_buf = pop_back s.code_buf })
        (back s.code_buf) 1
    else s

-- `sign` of TStreamRLE::endSame: 1 for the bytes 0 and 255, whose runs take no data byte.
abbrev pub run_sign : ℕ → ℕ
run_sign cur = if cur == 0 || cur == 255 then 1 else 0

-- TStreamRLE::endSame. The loop `while (sameCount--)` leaves the largest size_t in sameCount.
pub end_same : (min_same_size : ℕ) → StreamRle → StreamRle
end_same min_same_size s =
    if ltb min_same_size (s.same_count + run_sign s.same_cur)
    then record (push_same (end_no_same s) s.same_cur s.same_count) { same_count = 0 }
    else record s {
      not_same_count = s.not_same_count + s.same_count;
      code_buf = s.code_buf ++ replicate s.same_count s.same_cur;
      same_count = 2 ^ 64 - 1;
    }

-- the `while` of TStreamRLE::append
pub append_loop : (min_same_size : ℕ) → StreamRle → List ℕ → StreamRle
append_loop min_same_size s [] = s
append_loop min_same_size s (cur ∷ rest) =
    append_loop min_same_size
      (if cur == s.same_cur
        then record s { same_count = s.same_count + 1 }
        else record (end_same min_same_size s) { same_cur = cur; same_count = 1 })
      rest

-- TStreamRLE::append
pub append : (min_same_size : ℕ) → StreamRle → List ℕ → StreamRle
append min_same_size s [] = s
append min_same_size s (cur ∷ rest) =
    if s.same_count == 0
    then append_loop min_same_size (record s { same_cur = cur; same_count = 1 }) rest
    else append_loop min_same_size s (cur ∷ rest)

-- TStreamRLE::finishAppend
pub finish_append : (min_same_size : ℕ) → StreamRle → StreamRle
finish_append min_same_size s = end_no_same (end_same min_same_size s)

abbrev pub empty_rle : StreamRle
empty_rle = record {
  ctrl_buf = [];
  code_buf = [];
  same_cur = 0;
  same_count = 0;
  not_same_count = 0;
}

-- bytesRLE_save from memory: kRleMinSameSize is the parameter plus 1.
unfoldable pub bytes_rle_save : (rle_parameter : ℕ) (src : List ℕ) → List ℕ
unfolding finish_append append append_loop end_same end_no_same push_same push_same_loop push_run
bytes_rle_save rle_parameter src =
    let s = finish_append (rle_parameter + 1) (append (rle_parameter + 1) empty_rle src) in
    push_uint_with_tag [] (length s.ctrl_buf) 0 0 ++ (s.ctrl_buf ++ s.code_buf)
