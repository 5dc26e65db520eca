-- ===== src/PatchStream/Stream.antt =====
-- _patch_stream_with_cache on a diff whose streams are known.
use hdiff_patch.Prelude.{ℕ, refl, true, List, ◌++◌, arith, length}
use hdiff_patch.Varint.RoundTrip.{packed}
use hdiff_patch.PatchStream.Spec.{Lists}
use hdiff_patch.PatchStream.Heads.{Suffix, suffix_behind}

-- The parts of a diff: the number of covers, the five streams, and the run-length code in two parts.
pub record Parts : Type 0 where
  pub count : ℕ
  pub lengths : List ℕ
  pub inc_new : List ℕ
  pub inc_old : List ℕ
  pub news : List ℕ
  pub ctrl : List ℕ
  pub code : List ℕ

abbrev pub rle_part : Parts → List ℕ
rle_part p = packed (length p.ctrl) 0 0 ++ (p.ctrl ++ p.code)

abbrev pub streams_part : Parts → List ℕ
streams_part p = p.lengths ++ (p.inc_new ++ (p.inc_old ++ (p.news ++ rle_part p)))

-- The whole diff.
abbrev pub diff_of : Parts → List ℕ
diff_of p =
    packed p.count 0 0
    ++ (packed (length p.lengths) 0 0
        ++ (packed (length p.inc_new) 0 0
            ++ (packed (length p.inc_old) 0 0 ++ (packed (length p.news) 0 0 ++ streams_part p))))

abbrev pub lists_of : Parts → (deltas : List ℕ) → Lists
lists_of p deltas = record {
  lengths = p.lengths;
  inc_new = p.inc_new;
  inc_old = p.inc_old;
  news = p.news;
  deltas = deltas;
  ends = true;
  old_pos_back = 0;
  new_pos_back = 0;
}

-- Where the streams are in the diff.
pub record IsPlaced (whole : List ℕ) (p : Parts) : Type 0 where
  pub at_lengths : Suffix whole (streams_part p)
  pub at_inc_new : Suffix whole (p.inc_new ++ (p.inc_old ++ (p.news ++ rle_part p)))
  pub at_inc_old : Suffix whole (p.inc_old ++ (p.news ++ rle_part p))
  pub at_news : Suffix whole (p.news ++ rle_part p)
  pub at_rle : Suffix whole (rle_part p)
  pub at_ctrl : Suffix whole (p.ctrl ++ p.code)
  pub at_code : Suffix whole p.code

pub diff_of-IsPlaced : (p : Parts) → IsPlaced (diff_of p) p
diff_of-IsPlaced p =
    let whole : List ℕ = diff_of p in
    let s0 : Suffix whole whole = (0, refl, omega arith) in
    let s1 = suffix_behind whole (packed p.count 0 0) _ s0 in
    let s2 = suffix_behind whole (packed (length p.lengths) 0 0) _ s1 in
    let s3 = suffix_behind whole (packed (length p.inc_new) 0 0) _ s2 in
    let s4 = suffix_behind whole (packed (length p.inc_old) 0 0) _ s3 in
    let s5 = suffix_behind whole (packed (length p.news) 0 0) _ s4 in
    let s6 = suffix_behind whole p.lengths _ s5 in
    let s7 = suffix_behind whole p.inc_new _ s6 in
    let s8 = suffix_behind whole p.inc_old _ s7 in
    let s9 = suffix_behind whole p.news _ s8 in
    let s10 = suffix_behind whole (packed (length p.ctrl) 0 0) _ s9 in
    let s11 = suffix_behind whole p.ctrl _ s10 in
    record {
      at_lengths = s5;
      at_inc_new = s6;
      at_inc_old = s7;
      at_news = s8;
      at_rle = s9;
      at_ctrl = s10;
      at_code = s11;
    }
