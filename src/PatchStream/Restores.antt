-- ===== src/PatchStream/Restores.antt =====
-- _patch_stream_with_cache restores the new data.
use hdiff_patch.Prelude.{
  ℕ, ◌+◌, ◌-◌, ◌*◌, ◌/◌, ◌^◌, ◌≤◌, ◌<◌, ◌≡◌, refl, sym, subst, true, Option, none, some, List, [],
  ◌++◌, arith, length, length-append, append-nil, le→ltb,
}
use hdiff_patch.Varint.{IsU64, max_packed_uint_bytes}
use hdiff_patch.Clip.{Clip, clip_init, read_pos_of_src_stream, clip_unpack_uint_with_tag}
use hdiff_patch.OutCache.{out_init}
use hdiff_patch.OutCache.Writes.{Accepts}
use hdiff_patch.MemStream.Access.{Random-Serves}
use hdiff_patch.RleStream.{loader_init}
use hdiff_patch.RleStream.Spec.{bytes_left}
use hdiff_patch.RleStream.Steps.{AreBytes}
use hdiff_patch.PatchStream.{Machine, patch_by_clip}
use hdiff_patch.PatchStream.Adds.{Random}
use hdiff_patch.PatchStream.Spec.{list_patch}
use hdiff_patch.PatchStream.Whole.{patch_by_clip-list_patch}
use hdiff_patch.PatchStream.Open.{cache_pat_count, open_covers, patch_stream_with_cache}
use hdiff_patch.PatchStream.Heads.{Suffix, AtEnd, clip_init-IsClip, read_number, read_pos-rest}
use hdiff_patch.PatchStream.Stream.{Parts, rle_part, diff_of, lists_of, diff_of-IsPlaced}
use hdiff_patch.PatchStream.Opened.{
  At, base, opened_covers, head, sizes, part-IsClip, opened_covers-IsCovers,
  packed_covers_open-some,
}

module _ {H W O : Type 0} (read : H → ℕ → ℕ → Option (List ℕ × H)) (Holds : H → List ℕ → Type 0)
    (random : Random read Holds) (write : W → ℕ → List ℕ → Option W) (Written : W → List ℕ → Type 0)
    (new_size : ℕ) (accepts : Accepts write Written new_size) (new_fits : new_size < 2 ^ 64)
    (read_old : O → ℕ → ℕ → Option (List ℕ × O)) (HoldsOld : O → List ℕ → Type 0)
    (random_old : Random read_old HoldsOld) (old : List ℕ) (old_fits : length old < 2 ^ 64)
    (old_bytes : AreBytes old) (p : Parts) (fits : length (diff_of p) < 2 ^ 64)
    (count_fits : IsU64 p.count) where
  -- The head of the run-length code.
  rle_head-some :
      (stream : H) (pos : ℕ)
      → Holds stream (diff_of p)
      → pos + length (rle_part p) ≡ length (diff_of p)
      → (clip : Clip H) × (clip_unpack_uint_with_tag read
            (clip_init read stream pos (length (diff_of p)) max_packed_uint_bytes)
            0
          ≡ some (length p.ctrl, clip))
        × (read_pos_of_src_stream read clip + length (p.ctrl ++ p.code) ≡ length (diff_of p))
  rle_head-some stream pos has here =
      let (k, e, at) = (diff_of-IsPlaced p).at_rle in
      let (j, e', at') = (diff_of-IsPlaced p).at_ctrl in
      let same : k ≡ pos = omega arith in
      let start : AtEnd Holds (diff_of p) stream pos (rle_part p) =
        subst (λ q. AtEnd Holds (diff_of p) stream q (rle_part p)) same (has, e, at) in
      let (clip, e'', h) =
        read_number read Holds random (diff_of p) max_packed_uint_bytes
          (clip_init read stream pos (length (diff_of p)) max_packed_uint_bytes) (length p.ctrl)
          (p.ctrl ++ p.code)
          (clip_init-IsClip read (AtEnd Holds (diff_of p)) stream pos (length (diff_of p))
            max_packed_uint_bytes (rle_part p) start here fits)
          (omega (arith, length-append p.ctrl p.code)) (omega arith) in
      (
        clip,
        e'',
        read_pos-rest read Holds random (diff_of p) max_packed_uint_bytes clip (p.ctrl ++ p.code) h,
      )

  news_pos : ℕ
  news_pos =
      base read Holds random write Written new_size accepts new_fits read_old HoldsOld random_old
        old old_fits old_bytes p fits count_fits
      + length p.lengths
      + length p.inc_new
      + length p.inc_old

  -- What patchByClip is called with.
  opened_machine : (out : W) (o : O) (stream : H) (size cover_size pos : ℕ) → Machine H W O
  opened_machine out o stream size cover_size pos = record {
    out_cache = out_init write out true size;
    old_data = o;
    covers =
        opened_covers read Holds random write Written new_size accepts new_fits read_old HoldsOld
          random_old old old_fits old_bytes p fits count_fits stream cover_size;
    code_new_data_diff_clip = clip_init read stream news_pos (news_pos + length p.news) size;
    rle_loader =
        loader_init read (clip_init read stream pos (pos + length p.ctrl) size)
          (clip_init read stream (pos + length p.ctrl) (length (diff_of p)) size);
    new_pos_back = 0;
  }

  opened_machine-some :
      (out : W) (o : O) (stream : H) (size cover_size pos : ℕ) (deltas new_data : List ℕ)
      → Holds stream (diff_of p)
      → HoldsOld o old
      → Written out []
      → max_packed_uint_bytes ≤ size
      → max_packed_uint_bytes ≤ cover_size
      → pos + length (p.ctrl ++ p.code) ≡ length (diff_of p)
      → bytes_left
          (length p.ctrl)
          (record { copy_length = 0; set_length = 0; set_value = 0; ctrl = p.ctrl; code = p.code })
        ≡ (deltas, true)
      → list_patch p.count new_size old (lists_of p deltas) ≡ some new_data
      → (m : Machine H W O) × (patch_by_clip read write read_old new_size
            (length old)
            size
            (opened_machine out o stream size cover_size pos)
          ≡ some m)
        × Written m.out_cache.dst_stream new_data
  unfolding opened_machine opened_covers news_pos base
  opened_machine-some out o stream size cover_size pos deltas new_data has has_old empty size_room
        cover_room at runs e =
      let placed = diff_of-IsPlaced p in
      let (inside, total) =
        sizes read Holds random write Written new_size accepts new_fits read_old HoldsOld random_old
          old old_fits old_bytes p fits count_fits in
      let behind = length-append p.ctrl p.code in
      patch_by_clip-list_patch read
        (At read Holds random write Written new_size accepts new_fits read_old HoldsOld random_old
          old old_fits old_bytes p fits count_fits)
        (Random-Serves read Holds (diff_of p) random) size cover_size size_room cover_room write
        Written new_size accepts new_fits read_old HoldsOld random_old old old_fits old_bytes
        (opened_machine out o stream size cover_size pos) (lists_of p deltas) new_data
        (record {
          streams = record {
            out_is = record {
              done = [];
              written = empty;
              pos = refl;
              whole = refl;
              not_full = omega arith;
              cache_size = refl;
              has_buf = refl;
            };
            news_has =
                part-IsClip read Holds random write Written new_size accepts new_fits read_old
                  HoldsOld random_old old old_fits old_bytes p fits count_fits stream news_pos
                  (news_pos + length p.news) size p.news (rle_part p) has placed.at_news
                  (omega (arith, inside, total, length-append p.news (rle_part p))) refl;
            loader_has = record {
              ctrl = p.ctrl;
              code = p.code;
              fuel = length p.ctrl;
              ctrl_holds =
                  part-IsClip read Holds random write Written new_size accepts new_fits read_old
                    HoldsOld random_old old old_fits old_bytes p fits count_fits stream pos
                    (pos + length p.ctrl) size p.ctrl p.code has placed.at_ctrl at refl;
              code_holds =
                  part-IsClip read Holds random write Written new_size accepts new_fits read_old
                    HoldsOld random_old old old_fits old_bytes p fits count_fits stream
                    (pos + length p.ctrl) (length (diff_of p)) size p.code [] has
                    (subst (λ l. Suffix (diff_of p) l) (sym (append-nil p.code)) placed.at_code)
                    (omega (arith, at, behind, length-append p.code []))
                    (omega (arith, at, behind));
              enough = omega arith;
              bytes_are = runs;
            };
            old_holds = has_old;
          };
          covers_are =
              opened_covers-IsCovers read Holds random write Written new_size accepts new_fits
                read_old HoldsOld random_old old old_fits old_bytes p fits count_fits stream
                cover_size deltas has;
          new_pos_is = refl;
          all_size = refl;
          inside = omega arith;
        })
        refl e

  -- _patch_stream_with_cache succeeds and has written the new data that the streams of the diff stand
  -- for, when the three caches behind the first five have room for _TPackedCovers and 40 bytes, and
  -- all sizes fit 64 bits.
  pub patch_stream_with_cache-list_patch :
      (struct_size : ℕ) (out : W) (o : O) (stream : H) (temp_cache temp_cache_end : ℕ)
      (deltas new_data : List ℕ)
      → Holds stream (diff_of p)
      → HoldsOld o old
      → Written out []
      → struct_size + 40 ≤ 3 * ((temp_cache_end - temp_cache) / 8)
      → bytes_left
          (length p.ctrl)
          (record { copy_length = 0; set_length = 0; set_value = 0; ctrl = p.ctrl; code = p.code })
        ≡ (deltas, true)
      → list_patch p.count new_size old (lists_of p deltas) ≡ some new_data
      → (m : Machine H W O) × (patch_stream_with_cache read
            (length (diff_of p))
            write
            read_old
            struct_size
            new_size
            (length old)
            out
            o
            stream
            none
            temp_cache
            temp_cache_end
          ≡ some m)
        × Written m.out_cache.dst_stream new_data
  unfolding patch_stream_with_cache open_covers head base news_pos opened_machine
  patch_stream_with_cache-list_patch struct_size out o stream temp_cache temp_cache_end deltas
        new_data has has_old empty room runs e =
      let size : ℕ = (temp_cache_end - temp_cache) / 8 in
      let (inside, total) =
        sizes read Holds random write Written new_size accepts new_fits read_old HoldsOld random_old
          old old_fits old_bytes p fits count_fits in
      let (cover_size, opened, cover_room) =
        packed_covers_open-some read Holds random write Written new_size accepts new_fits read_old
          HoldsOld random_old old old_fits old_bytes p fits count_fits struct_size stream
          (temp_cache + size * (cache_pat_count - 3)) temp_cache_end has (omega arith) in
      let (clip, rle_head, at) =
        rle_head-some stream (news_pos + length p.news) has (omega (arith, inside, total)) in
      let pos : ℕ = read_pos_of_src_stream read clip in
      let (m, e', written) =
        opened_machine-some out o stream size cover_size pos deltas new_data has has_old empty
          (omega arith) cover_room at runs e in
      (
        m,
        rw
            (
              opened,
              le→ltb size max_packed_uint_bytes (omega arith),
              rle_head,
              le→ltb (length (diff_of p) - pos) (length p.ctrl)
                  (omega (arith, at, length-append p.ctrl p.code)),
            )
            e',
        written,
      )
