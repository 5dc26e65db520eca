-- ===== src/DiffzHead/Reading.antt =====
-- read_diffz_head finds what stands at the head of a compressed diff.
use hdiff_patch.Prelude.{
  ℕ, zero, suc, ◌+◌, ◌-◌, ◌%◌, ◌^◌, ◌≤◌, ◌<◌, ◌≡◌, refl, sym, ap, ◌∙◌, subst, Bool, true, false,
  Option, some, List, [], ◌∷◌, ◌++◌, arith, ltb, ◌==◌, if◌then◌else◌, length, take, drop, ◌>>◌,
  check, All, length-append, append_assoc, drop-append_of, leb, not, >>=-eq-some, bind_some,
}
use hdiff_patch.Varint.{IsU64, max_packed_uint_bytes}
use hdiff_patch.Varint.RoundTrip.{packed}
use hdiff_patch.Clip.{
  Clip, at_most, clip_init, leave_size, find_end, read_str_end, read_pos_of_src_stream,
}
use hdiff_patch.Clip.Reads.{at_most_lem, leave_size-length, access_data-some, skip-IsClip}
use hdiff_patch.PatchStream.Adds.{Random}
use hdiff_patch.PatchStream.Open.{stream_cache_size}
use hdiff_patch.PatchStream.Heads.{
  AtEnd, Random-AtEnd, clip_init-IsClip, HeadClip, read_number, read_pos-rest,
}
use hdiff_patch.DiffzHead.{
  CompressedDiffInfo, Head, hdiff_version_type, max_plugin_type_length, pushed_type, out_type,
  same_string, has_char, is_compressed, read_type_end, read_diffz_head,
}

-- A text without the tag.
abbrev pub Without : (tag : ℕ) → List ℕ → Type 0
Without tag text = All (λ b. (b == tag) ≡ false) text

find_end-take :
    (tag n : ℕ) (text rest : List ℕ)
    → Without tag text
    → length text < n
    → find_end tag (take n (text ++ (tag ∷ rest))) ≡ some text
unfolding find_end
find_end-take tag zero text rest h fits = absurd (omega arith)
find_end-take tag (suc n) [] rest h fits = rw (tag_found tag) refl
  where
    tag_found : (tag : ℕ) → (tag == tag) ≡ true
    tag_found tag = ground arith
find_end-take tag (suc n) (b ∷ text) rest (other, h) fits =
    rw (other, find_end-take tag n text rest h (omega arith)) refl

module _ {H : Type 0} (read : H → ℕ → ℕ → Option (List ℕ × H)) (Holds : H → List ℕ → Type 0)
    (random : Random read Holds) (whole : List ℕ) where
  -- A text up to its tag.
  pub read_type_end-some :
      (size : ℕ) (c : Clip H) (tag : ℕ) (text rest : List ℕ)
      → HeadClip read Holds random whole size c (text ++ (tag ∷ rest))
      → Without tag text
      → length text ≤ max_plugin_type_length
      → max_plugin_type_length + 1 ≤ size
      → (c' : Clip H) × (read_type_end read (length whole) c tag ≡ some (text, c'))
        × HeadClip read Holds random whole size c' rest
  unfolding read_str_end
  read_type_end-some size c tag text rest h without fits room =
      let serves = Random-AtEnd read Holds whole random in
      let n : ℕ = at_most (max_plugin_type_length + 1) (leave_size read c) in
      let total = length-append text (tag ∷ rest) in
      let n_is = at_most_lem (max_plugin_type_length + 1) (leave_size read c) in
      let left = leave_size-length read (AtEnd Holds whole) serves h in
      let (c', e, h', there) =
        access_data-some read (AtEnd Holds whole) serves n h (omega arith) (omega arith) in
      let (_, same) = skip-IsClip read (AtEnd Holds whole) serves n h' there in
      let (h'', _) =
        skip-IsClip read (AtEnd Holds whole) serves (length text + 1) h' (omega arith) in
      let behind : drop (length text + 1) (text ++ (tag ∷ rest)) ≡ rest =
        ap (λ l. drop (length text + 1) l) (sym (append_assoc text (tag ∷ []) rest))
        ∙ drop-append_of (length text + 1) (text ++ (tag ∷ [])) rest
            (length-append text (tag ∷ [])) in
      (
        record c' { cached = drop (length text + 1) c'.cached },
        rw (e, same, find_end-take tag n text rest without (omega arith)) refl,
        subst
            (λ l.
              HeadClip read Holds random whole size
                (record c' { cached = drop (length text + 1) c'.cached }) l)
            behind h'',
      )

-- The eleven numbers of a head.
pub record Numbers : Type 0 where
  pub new_data_size : ℕ
  pub old_data_size : ℕ
  pub cover_count : ℕ
  pub cover_buf : ℕ
  pub compress_cover_buf : ℕ
  pub rle_ctrl_buf : ℕ
  pub compress_rle_ctrl_buf : ℕ
  pub rle_code_buf : ℕ
  pub compress_rle_code_buf : ℕ
  pub diff_buf : ℕ
  pub compress_diff_buf : ℕ

abbrev pub number : ℕ → List ℕ → List ℕ
number value rest = packed value 0 0 ++ rest

-- The sizes of the streams, and what is in front of them.
abbrev pub sizes_part : Numbers → (rest : List ℕ) → List ℕ
sizes_part n rest = number n.cover_buf (
    number n.compress_cover_buf (
      number n.rle_ctrl_buf (
        number n.compress_rle_ctrl_buf (
          number n.rle_code_buf (
            number n.compress_rle_code_buf
              (number n.diff_buf (number n.compress_diff_buf rest)))))))

abbrev pub numbers_part : Numbers → (rest : List ℕ) → List ℕ
numbers_part n rest =
    number n.new_data_size (number n.old_data_size (number n.cover_count (sizes_part n rest)))

abbrev pub AreU64 : Numbers → Type 0
AreU64 n =
    IsU64 n.new_data_size
    × IsU64 n.old_data_size
    × IsU64 n.cover_count
    × IsU64 n.cover_buf
    × IsU64 n.compress_cover_buf
    × IsU64 n.rle_ctrl_buf
    × IsU64 n.compress_rle_ctrl_buf
    × IsU64 n.rle_code_buf
    × IsU64 n.compress_rle_code_buf
    × IsU64 n.diff_buf
    × IsU64 n.compress_diff_buf

abbrev pub info_of : Numbers → (compress_type : List ℕ) → CompressedDiffInfo
info_of n compress_type = record {
  new_data_size = n.new_data_size;
  old_data_size = n.old_data_size;
  compressed_count =
      is_compressed n.compress_cover_buf
      + is_compressed n.compress_rle_ctrl_buf
      + is_compressed n.compress_rle_code_buf
      + is_compressed n.compress_diff_buf;
  compress_type = compress_type;
}

-- The head whose parts end at the three positions.
abbrev pub head_of : Numbers → (types_end sizes_begin head_end : ℕ) → Head
head_of n types_end sizes_begin head_end = record {
  cover_count = n.cover_count;
  cover_buf_size = n.cover_buf;
  compress_cover_buf_size = n.compress_cover_buf;
  rle_ctrl_buf_size = n.rle_ctrl_buf;
  compress_rle_ctrl_buf_size = n.compress_rle_ctrl_buf;
  rle_code_buf_size = n.rle_code_buf;
  compress_rle_code_buf_size = n.compress_rle_code_buf;
  new_data_diff_size = n.diff_buf;
  compress_new_data_diff_size = n.compress_diff_buf;
  types_end_pos = types_end;
  compress_size_begin_pos = sizes_begin;
  head_end_pos = head_end;
  cover_end_pos =
      if ltb 0 n.compress_cover_buf
      then (head_end + n.compress_cover_buf) % 2 ^ 64
      else (head_end + n.cover_buf) % 2 ^ 64;
}

abbrev found :
    Numbers
    → (compress_type : List ℕ) → (types_end sizes_begin head_end : ℕ)
    → Option (CompressedDiffInfo × Head)
found n compress_type types_end sizes_begin head_end =
    some (info_of n compress_type, head_of n types_end sizes_begin head_end)

same_head :
    (n : Numbers) (compress_type : List ℕ) {a a' b b' c c' : ℕ}
    → a ≡ a'
    → b ≡ b'
    → c ≡ c'
    → found n compress_type a b c ≡ found n compress_type a' b' c'
same_head n compress_type p q r = rw (p, q, r) refl

check_some :
    {B : Type 0} (b : Bool) (k : Option B) {r : Option B} → b ≡ true → k ≡ r → (check b >> k) ≡ r
check_some b k e h = rw e h

same_version : same_string hdiff_version_type hdiff_version_type ≡ true
unfolding same_string
same_version = refl

number_room : max_packed_uint_bytes ≤ stream_cache_size
number_room = omega arith

text_room : max_plugin_type_length + 1 ≤ stream_cache_size
text_room = omega arith

version_short : length hdiff_version_type ≤ max_plugin_type_length
version_short = omega arith

position : (pos left whole : ℕ) → pos + left ≡ whole → pos ≡ whole - left
position pos left whole e = omega arith

position_of :
    (pos : ℕ) (front rest : List ℕ)
    → pos + length rest ≡ length (front ++ rest)
    → pos ≡ length front
position_of pos front rest e = omega (arith, length-append front rest)

-- A type that _outType accepts is pushed, and is not long.
out_type-some :
    (compress_type types : List ℕ)
    → out_type compress_type ≡ some types
    → (pushed_type compress_type ≡ types) × (length compress_type ≤ 259)
unfolding out_type
out_type-some compress_type types e =
    let (_, short, k) = >>=-eq-some (check (leb (length compress_type) 259)) _ e in
    let (_, clean, k') = >>=-eq-some (check (not (has_char compress_type 38))) _ k in
    (cc, ground (arith, short))

module _ {H : Type 0} (read : H → ℕ → ℕ → Option (List ℕ × H)) (Holds : H → List ℕ → Type 0)
    (random : Random read Holds) where
  -- The head behind a type that is pushed.
  read_diffz_head-pushed_type :
      (stream : H) (compress_type : List ℕ) (n : Numbers) (rest : List ℕ)
      → Holds stream (pushed_type compress_type ++ numbers_part n rest)
      → Without 0 compress_type
      → length compress_type ≤ 259
      → AreU64 n
      → length (pushed_type compress_type ++ numbers_part n rest) < 2 ^ 64
      → read_diffz_head read (length (pushed_type compress_type ++ numbers_part n rest)) stream
        ≡ some (
          info_of n compress_type,
          head_of n
              (length (pushed_type compress_type))
              (length (pushed_type compress_type ++ numbers_part n rest)
                - length (sizes_part n rest))
              (length (pushed_type compress_type ++ numbers_part n rest) - length rest),
        )
  unfolding read_diffz_head
  read_diffz_head-pushed_type stream compress_type n rest has without short
        (u1, u2, u3, u4, u5, u6, u7, u8, u9, u10, u11) fits =
      let whole : List ℕ = pushed_type compress_type ++ numbers_part n rest in
      let k : ℕ = stream_cache_size in
      let start : HeadClip read Holds random whole k (clip_init read stream 0 (length whole) k)
          whole =
        clip_init-IsClip read (AtEnd Holds whole) stream 0 (length whole) k whole
          (has, refl, omega arith) (omega arith) fits in
      let joined : whole
          ≡ hdiff_version_type ++ (38 ∷ (compress_type ++ (0 ∷ numbers_part n rest))) =
        ap (λ l. hdiff_version_type ++ (38 ∷ l))
          (append_assoc compress_type (0 ∷ []) (numbers_part n rest)) in
      let (ca, ea, ha) =
        read_type_end-some read Holds random whole k (clip_init read stream 0 (length whole) k) 38
          hdiff_version_type (compress_type ++ (0 ∷ numbers_part n rest))
          (subst
            (λ l. HeadClip read Holds random whole k (clip_init read stream 0 (length whole) k) l)
            joined start)
          (refl, (refl, (refl, (refl, (refl, (refl, (refl, tt))))))) version_short text_room in
      let (cb, eb, hb) =
        read_type_end-some read Holds random whole k ca 0 compress_type (numbers_part n rest) ha
          without short text_room in
      let (c1, e1, h1) =
        read_number read Holds random whole k cb n.new_data_size _ hb u1 number_room in
      let (c2, e2, h2) =
        read_number read Holds random whole k c1 n.old_data_size _ h1 u2 number_room in
      let (c3, e3, h3) =
        read_number read Holds random whole k c2 n.cover_count (sizes_part n rest) h2 u3
          number_room in
      let (c4, e4, h4) = read_number read Holds random whole k c3 n.cover_buf _ h3 u4 number_room in
      let (c5, e5, h5) =
        read_number read Holds random whole k c4 n.compress_cover_buf _ h4 u5 number_room in
      let (c6, e6, h6) =
        read_number read Holds random whole k c5 n.rle_ctrl_buf _ h5 u6 number_room in
      let (c7, e7, h7) =
        read_number read Holds random whole k c6 n.compress_rle_ctrl_buf _ h6 u7 number_room in
      let (c8, e8, h8) =
        read_number read Holds random whole k c7 n.rle_code_buf _ h7 u8 number_room in
      let (c9, e9, h9) =
        read_number read Holds random whole k c8 n.compress_rle_code_buf _ h8 u9 number_room in
      let (c10, e10, h10) =
        read_number read Holds random whole k c9 n.diff_buf _ h9 u10 number_room in
      let (c11, e11, h11) =
        read_number read Holds random whole k c10 n.compress_diff_buf rest h10 u11 number_room in
      let types_end : read_pos_of_src_stream read cb ≡ length (pushed_type compress_type) =
        position_of (read_pos_of_src_stream read cb) (pushed_type compress_type)
          (numbers_part n rest)
          (read_pos-rest read Holds random whole k cb (numbers_part n rest) hb) in
      let sizes_begin : read_pos_of_src_stream read c3 ≡ length whole - length (sizes_part n rest) =
        position (read_pos_of_src_stream read c3) (length (sizes_part n rest)) (length whole)
          (read_pos-rest read Holds random whole k c3 (sizes_part n rest) h3) in
      let head_end : read_pos_of_src_stream read c11 ≡ length whole - length rest =
        position (read_pos_of_src_stream read c11) (length rest) (length whole)
          (read_pos-rest read Holds random whole k c11 rest h11) in
      bind_some _ _ ea (
        check_some _ _ same_version (
          bind_some _ _ eb (
            bind_some _ _ e1 (
              bind_some _ _ e2 (
                bind_some _ _ e3 (
                  bind_some _ _ e4 (
                    bind_some _ _ e5 (
                      bind_some _ _ e6 (
                        bind_some _ _ e7 (
                          bind_some _ _ e8 (
                            bind_some _ _ e9 (
                              bind_some _ _ e10 (
                                bind_some _ _ e11 (
                                  same_head n compress_type types_end sizes_begin
                                    head_end))))))))))))))

  -- read_diffz_head reads back the type of the compression, the sizes and the positions of a head that
  -- begins with what _outType writes, with any bytes behind it: for a type without 0 that _outType
  -- accepts, numbers of 64 bits and a diff of fewer than 2 ^ 64 bytes, from a stream that delivers every
  -- part that lies inside it. The end of the covers is modulo 2 ^ 64.
  pub read_diffz_head-out_type :
      (stream : H) (compress_type types : List ℕ) (n : Numbers) (rest : List ℕ)
      → out_type compress_type ≡ some types
      → Holds stream (types ++ numbers_part n rest)
      → Without 0 compress_type
      → AreU64 n
      → length (types ++ numbers_part n rest) < 2 ^ 64
      → read_diffz_head read (length (types ++ numbers_part n rest)) stream
        ≡ some (
          info_of n compress_type,
          head_of n
              (length types)
              (length (types ++ numbers_part n rest) - length (sizes_part n rest))
              (length (types ++ numbers_part n rest) - length rest),
        )
  read_diffz_head-out_type stream compress_type types n rest accepted has without sizes fits =
      let (same, short) = out_type-some compress_type types accepted in
      from types same short has fits
    where
      from :
          (types : List ℕ)
          → pushed_type compress_type ≡ types
          → length compress_type ≤ 259
          → Holds stream (types ++ numbers_part n rest)
          → length (types ++ numbers_part n rest) < 2 ^ 64
          → read_diffz_head read (length (types ++ numbers_part n rest)) stream
            ≡ some (
              info_of n compress_type,
              head_of n
                  (length types)
                  (length (types ++ numbers_part n rest) - length (sizes_part n rest))
                  (length (types ++ numbers_part n rest) - length rest),
            )
      from types same short has fits =
          subst
            (λ l.
              read_diffz_head read (length (l ++ numbers_part n rest)) stream
              ≡ some (
                info_of n compress_type,
                head_of n (length l)
                    (length (l ++ numbers_part n rest) - length (sizes_part n rest))
                    (length (l ++ numbers_part n rest) - length rest),
              ))
            same
            (read_diffz_head-pushed_type stream compress_type n rest
              (subst (λ l. Holds stream (l ++ numbers_part n rest)) (sym same) has) without short
              sizes (subst (λ l. length (l ++ numbers_part n rest) < 2 ^ 64) (sym same) fits))
