-- ===== src/PatchStream/Rounds.antt =====
-- The parts of a round of patchByClip on streams whose bytes are known.
use hdiff_patch.Prelude.{
  ℕ, zero, suc, ◌+◌, ◌-◌, ◌%◌, ◌^◌, ◌≤◌, ◌<◌, ◌≡◌, refl, sym, ap, ◌∙◌, subst, Bool, Option, some,
  List, ◌++◌, arith, ltb, if◌then◌else◌, length, take, drop, append-nil, lt→ltb, le→ltb,
}
use hdiff_patch.Prelude.Related.{Related-some}
use hdiff_patch.Varint.{max_packed_uint_bytes}
use hdiff_patch.MemPatch.{add_data, cut}
use hdiff_patch.MemPatch.Serialize.{Cover}
use hdiff_patch.Clip.{Clip}
use hdiff_patch.Clip.Reads.{Serves, IsClip}
use hdiff_patch.Clip.Skips.{cut-some}
use hdiff_patch.OutCache.{OutCache, copy_from_clip}
use hdiff_patch.OutCache.Writes.{Accepts, IsOut}
use hdiff_patch.OutCache.Copies.{Copied, copy_from_clip-cut}
use hdiff_patch.RleStream.Steps.{IsLoader, AreBytes}
use hdiff_patch.PatchStream.{Machine, copy_new_data, add_old_data}
use hdiff_patch.PatchStream.Adds.{Random, part, rle_decode_skip-some, patch_add_old_with_rle-some}

-- The streams of a machine: `all` is written, the new bytes `news` and the differences `deltas` are
-- left, and the old data is `old`.
pub record IsStreams {H W O : Type 0} (Left : H → ℕ → List ℕ → Type 0)
    (Written : W → List ℕ → Type 0) (Holds : O → List ℕ → Type 0) (size : ℕ) (old : List ℕ)
    (m : Machine H W O) (all news deltas : List ℕ) (ends : Bool) : Type 0 where
  pub out_is : IsOut Written size m.out_cache all
  pub news_has : IsClip Left size m.code_new_data_diff_clip news
  pub loader_has : IsLoader Left size m.rle_loader (deltas, ends)
  pub old_holds : Holds m.old_data old

module _ {H W O : Type 0} (read : H → ℕ → ℕ → Option (List ℕ × H)) (Left : H → ℕ → List ℕ → Type 0)
    (serves : Serves read Left) (size : ℕ) (room_for_number : max_packed_uint_bytes ≤ size)
    (write : W → ℕ → List ℕ → Option W) (Written : W → List ℕ → Type 0) (new_size : ℕ)
    (accepts : Accepts write Written new_size) (new_fits : new_size < 2 ^ 64)
    (read_old : O → ℕ → ℕ → Option (List ℕ × O)) (Holds : O → List ℕ → Type 0)
    (random : Random read_old Holds) (old : List ℕ) (old_fits : length old < 2 ^ 64)
    (old_bytes : AreBytes old) where
  copy_from_clip-some :
      (out : OutCache W) (all : List ℕ) (src : Clip H) (rest : List ℕ) (n : ℕ)
      → IsOut Written size out all
      → IsClip Left size src rest
      → n ≤ length rest
      → length all + n ≤ new_size
      → (out' : OutCache W) × (src' : Clip H) × (copy_from_clip write read n out src n
          ≡ some (out', src'))
        × IsOut Written size out' (all ++ take n rest)
        × IsClip Left size src' (drop n rest)
  copy_from_clip-some out all src rest n h k there fits =
      let ((out', src'), e, (h', k')) =
        Related-some (Copied write Written new_size accepts new_fits read Left serves size size all)
          (copy_from_clip write read n out src n) (cut n rest) (take n rest, drop n rest)
          (copy_from_clip-cut write Written new_size accepts new_fits read Left serves n n h k
            (omega arith) (omega arith) fits)
          (cut-some n rest there) in
      (out', src', e, h', k')

  -- The new bytes of a gap, and the differences that are skipped there.
  pub copy_new_data-some :
      (m : Machine H W O) (all news deltas : List ℕ) (ends : Bool) (n : ℕ)
      → IsStreams Left Written Holds size old m all news deltas ends
      → n ≤ length news
      → n ≤ length deltas
      → length all + n ≤ new_size
      → (m' : Machine H W O) × (copy_new_data read write read_old n m ≡ some m')
        × IsStreams Left Written Holds size old m'
            (all ++ take n news)
            (drop n news)
            (drop n deltas)
            ends
        × (m'.covers ≡ m.covers)
        × (m'.new_pos_back ≡ m.new_pos_back)
  unfolding copy_new_data
  copy_new_data-some m all news deltas ends n h some_news some_deltas fits =
      let (out, clip, e, out_is, news_has) =
        copy_from_clip-some m.out_cache all m.code_new_data_diff_clip news n h.out_is h.news_has
          some_news fits in
      let (loader, e', loader_has) =
        rle_decode_skip-some read Left serves size room_for_number n m.rle_loader n deltas ends
          h.loader_has some_deltas (omega arith) in
      (
        record m { out_cache = out; code_new_data_diff_clip = clip; rle_loader = loader },
        rw (e, e') refl,
        record {
          out_is = out_is;
          news_has = news_has;
          loader_has = loader_has;
          old_holds = h.old_holds;
        },
        refl,
        refl,
      )

  -- `if (newPosBack<cover.newPos)`, and the like behind the loop.
  pub gap-some :
      (m : Machine H W O) (all news deltas : List ℕ) (ends : Bool) (n until : ℕ)
      → IsStreams Left Written Holds size old m all news deltas ends
      → m.new_pos_back + n ≡ until
      → n ≤ length news
      → n ≤ length deltas
      → length all + n ≤ new_size
      → (m' : Machine H W O) × ((if ltb m.new_pos_back until
            then copy_new_data read write read_old (until - m.new_pos_back) m
            else some m)
          ≡ some m')
        × IsStreams Left Written Holds size old m'
            (all ++ take n news)
            (drop n news)
            (drop n deltas)
            ends
        × (m'.covers ≡ m.covers)
        × (m'.new_pos_back ≡ m.new_pos_back)
  gap-some m all news deltas ends zero until h at some_news some_deltas fits = (
    m,
    rw (le→ltb m.new_pos_back until (omega arith)) refl,
    subst (λ a. IsStreams Left Written Holds size old m a news deltas ends) (sym (append-nil all))
        h,
    refl,
    refl,
  )
  gap-some m all news deltas ends (suc n) until h at some_news some_deltas fits =
      let (m', e, h', same, same') =
        copy_new_data-some m all news deltas ends (suc n) h some_news some_deltas fits in
      let gap : until - m.new_pos_back ≡ suc n = omega arith in
      (
        m',
        rw (lt→ltb m.new_pos_back until (omega arith))
            (ap (λ k. copy_new_data read write read_old k m) gap ∙ e),
        h',
        same,
        same',
      )

  -- The old bytes of a cover with their differences.
  pub add_old_data-some :
      (m : Machine H W O) (all news deltas : List ℕ) (ends : Bool) (c : Cover) (cache_size : ℕ)
      → IsStreams Left Written Holds size old m all news deltas ends
      → 0 < cache_size
      → c.old_pos + c.len ≤ length old
      → c.len ≤ length deltas
      → length all + c.len ≤ new_size
      → (m' : Machine H W O) × (add_old_data read write read_old cache_size c m ≡ some m')
        × IsStreams Left Written Holds size old m'
            (all ++ add_data (part c.old_pos c.len old) (take c.len deltas))
            news
            (drop c.len deltas)
            ends
        × (m'.covers ≡ m.covers)
        × (m'.new_pos_back ≡ (c.new_pos + c.len) % 2 ^ 64)
  unfolding add_old_data
  add_old_data-some m all news deltas ends c cache_size h some_cache inside there fits =
      let (out, loader, o, e, out_is, loader_has, holds) =
        patch_add_old_with_rle-some read Left serves size room_for_number write Written new_size
          accepts new_fits read_old Holds random old old_fits old_bytes c.len m.out_cache all
          m.rle_loader m.old_data c.old_pos c.len cache_size deltas ends h.out_is h.loader_has
          h.old_holds (omega arith) some_cache inside there fits in
      (
        record m {
          out_cache = out;
          rle_loader = loader;
          old_data = o;
          new_pos_back = (c.new_pos + c.len) % 2 ^ 64;
        },
        rw e refl,
        record {
          out_is = out_is;
          news_has = h.news_has;
          loader_has = loader_has;
          old_holds = holds;
        },
        refl,
        refl,
      )
