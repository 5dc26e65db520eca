-- ===== src/PatchStream/Tail.antt =====
-- The end of patchByClip: the last new bytes, the flush and the tests; and the whole of it.
use hdiff_patch.Prelude.{
  ℕ, ◌+◌, ◌-◌, ◌^◌, ◌≤◌, ◌<◌, ◌≡◌, refl, sym, ap, ◌∙◌, subst, inl, inr, Bool, true, false, ◌&&◌,
  Option, some, List, [], ◌∷◌, ◌++◌, arith, ltb, ◌==◌, if◌then◌else◌, length, take, drop, ◌>>=◌,
  check, Bool-cases, length-append, length-take, ltb→le, >>=-eq-some, append-nil,
}
use hdiff_patch.Varint.{max_packed_uint_bytes}
use hdiff_patch.MemPatch.{cut, is_empty}
use hdiff_patch.Clip.{Clip, is_finish}
use hdiff_patch.Clip.Reads.{Serves, IsClip, leave_size-length}
use hdiff_patch.OutCache.{OutCache, flush, out_is_finish}
use hdiff_patch.OutCache.Writes.{Accepts, IsOut, flush-IsOut}
use hdiff_patch.RleStream.Steps.{AreBytes}
use hdiff_patch.RleStream.Finish.{over, loader_is_finish-over}
use hdiff_patch.PatchStream.{Machine, copy_new_data, clip_tail}
use hdiff_patch.PatchStream.Spec.{Lists, list_tail}
use hdiff_patch.PatchStream.Adds.{Random}
use hdiff_patch.PatchStream.Parts.{cut-parts, check-true}
use hdiff_patch.PatchStream.Rounds.{IsStreams, gap-some}
use hdiff_patch.PatchStream.Refine.{IsMachine}

-- A tail that gives `bytes`.
pub record IsTail (new_size : ℕ) (l : Lists) (bytes : List ℕ) : Type 0 where
  pub some_news : new_size - l.new_pos_back ≤ length l.news
  pub some_deltas : new_size - l.new_pos_back ≤ length l.deltas
  pub bytes_are : bytes ≡ take (new_size - l.new_pos_back) l.news
  pub deltas_over : over (drop (new_size - l.new_pos_back) l.deltas, l.ends) ≡ true
  pub no_lengths : length l.lengths ≡ 0
  pub no_inc_new : length l.inc_new ≡ 0
  pub no_inc_old : length l.inc_old ≡ 0
  pub no_news : length (drop (new_size - l.new_pos_back) l.news) ≡ 0

both_true : (a b : Bool) → (a && b) ≡ true → (a ≡ true) × (b ≡ true)
both_true true b e = (refl, e)
both_true false b e = absurd (ground (arith, e))

length-is_empty : (xs : List ℕ) → is_empty xs ≡ true → length xs ≡ 0
length-is_empty [] e = refl
length-is_empty (x ∷ xs) e = absurd (ground (arith, e))

same-eq : (a b : ℕ) → a ≡ b → (a == b) ≡ true
same-eq a b e = ground arith

some_same : (a b : List ℕ) → some a ≡ some b → a ≡ b
some_same a b e = cc

pub list_tail-IsTail :
    (new_size : ℕ) (l : Lists) (bytes : List ℕ)
    → list_tail new_size l ≡ some bytes
    → IsTail new_size l bytes
unfolding list_tail
list_tail-IsTail new_size l bytes e =
    let n : ℕ = new_size - l.new_pos_back in
    let ((copied, news), e1, k1) = >>=-eq-some (cut n l.news) _ e in
    let ((skipped, deltas), e2, k2) = >>=-eq-some (cut n l.deltas) _ k1 in
    let (p1, q1, r1) = cut-parts n l.news copied news e1 in
    let (p2, q2, r2) = cut-parts n l.deltas skipped deltas e2 in
    let all_used : Bool =
      is_empty deltas
      && l.ends
      && is_empty l.lengths
      && is_empty l.inc_new
      && is_empty l.inc_old
      && is_empty news in
    let (u, e3, k3) = >>=-eq-some (check all_used) _ k2 in
    let (t1, no_news) = both_true _ (is_empty news) (check-true all_used u e3) in
    let (t2, no_inc_old) = both_true _ (is_empty l.inc_old) t1 in
    let (t3, no_inc_new) = both_true _ (is_empty l.inc_new) t2 in
    let (t4, no_lengths) = both_true _ (is_empty l.lengths) t3 in
    record {
      some_news = p1;
      some_deltas = p2;
      bytes_are = some_same bytes copied (sym k3) ∙ q1;
      deltas_over = ap (λ d. is_empty d && l.ends) (sym r2) ∙ t4;
      no_lengths = length-is_empty l.lengths no_lengths;
      no_inc_new = length-is_empty l.inc_new no_inc_new;
      no_inc_old = length-is_empty l.inc_old no_inc_old;
      no_news = ap (λ d. length d) (sym r1) ∙ length-is_empty news no_news;
    }

module _ {H W O : Type 0} (read : H → ℕ → ℕ → Option (List ℕ × H)) (Left : H → ℕ → List ℕ → Type 0)
    (serves : Serves read Left) (size cover_size : ℕ)
    (room_for_number : max_packed_uint_bytes ≤ size)
    (cover_room : max_packed_uint_bytes ≤ cover_size) (write : W → ℕ → List ℕ → Option W)
    (Written : W → List ℕ → Type 0) (new_size : ℕ) (accepts : Accepts write Written new_size)
    (new_fits : new_size < 2 ^ 64) (read_old : O → ℕ → ℕ → Option (List ℕ × O))
    (Holds : O → List ℕ → Type 0) (random : Random read_old Holds) (old : List ℕ)
    (old_fits : length old < 2 ^ 64) (old_bytes : AreBytes old) where
  -- `if (newPosBack<newDataSize)`
  last-some :
      (m : Machine H W O) (all news deltas : List ℕ) (ends : Bool) (n : ℕ)
      → IsStreams Left Written Holds size old m all news deltas ends
      → m.new_pos_back + n ≡ new_size
      → n ≤ length news
      → n ≤ length deltas
      → length all + n ≤ new_size
      → (m' : Machine H W O) × ((if ltb m.new_pos_back new_size
            then (copy_new_data read write read_old (new_size - m.new_pos_back) m >>= λ m'.
                some (record m' { new_pos_back = new_size }))
            else some m)
          ≡ some m')
        × IsStreams Left Written Holds size old m'
            (all ++ take n news)
            (drop n news)
            (drop n deltas)
            ends
        × (m'.covers ≡ m.covers)
        × (m'.new_pos_back ≡ new_size)
  last-some m all news deltas ends n h at some_news some_deltas fits =
      let (m', e, h', same, same') =
        gap-some read Left serves size room_for_number write Written new_size accepts new_fits
          read_old Holds random old old_fits old_bytes m all news deltas ends n new_size h at
          some_news some_deltas fits in
      elim (Bool-cases (ltb m.new_pos_back new_size)) [
        | inl more ↦
            let copied : copy_new_data read write read_old (new_size - m.new_pos_back) m ≡ some m' =
              rw more at e in
            (
              record m' { new_pos_back = new_size },
              rw (more, copied) refl,
              record {
                out_is = h'.out_is;
                news_has = h'.news_has;
                loader_has = h'.loader_has;
                old_holds = h'.old_holds;
              },
              same,
              refl,
            )
        | inr no_more ↦ (
          m',
          rw no_more (rw no_more at e),
          h',
          same,
          omega (arith, same', ltb→le m.new_pos_back new_size no_more),
        )
      ]

  -- A clip that is used up.
  finished :
      {clip_size : ℕ} (c : Clip H) (rest : List ℕ)
      → IsClip Left clip_size c rest
      → length rest ≡ 0
      → is_finish read c ≡ true
  finished c rest h e = ground (arith, leave_size-length read Left serves h)

  flush-all :
      (out : OutCache W) (all : List ℕ)
      → IsOut Written size out all
      → length all ≡ new_size
      → (out' : OutCache W) × (flush write out ≡ some out')
        × Written out'.dst_stream all
        × (out_is_finish write new_size out' ≡ true)
  flush-all out all h full =
      let (out', e, h', none_cached) =
        flush-IsOut write Written new_size accepts new_fits size out h.done h.written h.pos
          (omega (arith, ap (λ a. length a) h.whole, length-append h.done out.cached)) (omega arith)
          h.cache_size h.has_buf in
      let all_done : h'.done ≡ all =
        sym (append-nil h'.done) ∙ ap (λ a. h'.done ++ a) (sym none_cached) ∙ h'.whole ∙ h.whole in
      (
        out',
        e,
        subst (λ a. Written out'.dst_stream a) all_done h'.written,
        ground (arith, h'.pos, ap (λ a. length a) all_done),
      )

  -- Behind the loop of patchByClip.
  pub clip_tail-list_tail :
      (m : Machine H W O) (l : Lists) (all bytes : List ℕ)
      → IsMachine read Left serves size cover_size room_for_number cover_room write Written new_size
          accepts new_fits read_old Holds random old old_fits old_bytes 0 m l all
      → IsTail new_size l bytes
      → (m' : Machine H W O) × (clip_tail read write read_old new_size new_size m ≡ some m')
        × Written m'.out_cache.dst_stream (all ++ bytes)
  unfolding clip_tail
  clip_tail-list_tail m l all bytes h t =
      let n : ℕ = new_size - l.new_pos_back in
      let inside = h.inside in
      let (m1, e1, streams1, same, pos1) =
        last-some m all l.news l.deltas l.ends n h.streams (omega (arith, h.new_pos_is)) t.some_news
          t.some_deltas (omega (arith, h.all_size)) in
      let (out, e2, written, full) = flush-all m1.out_cache (all ++ take n l.news) streams1.out_is (
        omega (
          arith,
          h.all_size,
          length-append all (take n l.news),
          length-take n l.news,
          t.some_news,
        )) in
      let covers = h.covers_are in
      (
        record m1 { out_cache = out },
        rw
            (
              e1,
              e2,
              loader_is_finish-over read Left serves size m1.rle_loader (drop n l.deltas, l.ends)
                  streams1.loader_has,
              t.deltas_over,
              same,
              finished m.covers.code_lengths_clip l.lengths covers.lengths_has t.no_lengths,
              finished m.covers.code_inc_new_pos_clip l.inc_new covers.new_has t.no_inc_new,
              finished m.covers.code_inc_old_pos_clip l.inc_old covers.old_has t.no_inc_old,
              full,
              finished m1.code_new_data_diff_clip (drop n l.news) streams1.news_has t.no_news,
              same-eq m1.new_pos_back new_size pos1,
            )
            refl,
        subst (λ b. Written out.dst_stream (all ++ b)) (sym t.bytes_are) written,
      )
