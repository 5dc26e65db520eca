-- ===== src/RleStream/Runs.antt =====
-- The next control byte of a loader.
use hdiff_patch.Prelude.{
  ℕ, ◌+◌, ◌-◌, ◌/◌, ◌%◌, ◌^◌, ◌≤◌, ◌<◌, ◌≡◌, refl, ap, subst, Option, some, List, [], ◌∷◌, ◌++◌,
  arith, length, take, drop, replicate, >>=-eq-some, length-append, length-take, length-drop,
}
use hdiff_patch.Prelude.Related.{Related, Related->>=}
use hdiff_patch.Varint.{unpack_uint_with_tag, unpack_within, max_packed_uint_bytes}
use hdiff_patch.Varint.Decode.{unpack_takes}
use hdiff_patch.Rle.{ByteRleType, rle0, rle255, rle, unrle, byte_rle_type, byte_rle_type_bit}
use hdiff_patch.Clip.{clip_unpack_uint_with_tag}
use hdiff_patch.Clip.Reads.{Serves, IsClip, SameBytes, access_data-some, clip_unpack-unpack_within}
use hdiff_patch.Clip.Skips.{read_data-some, read_data-none}
use hdiff_patch.RleStream.{Loader, first, switch_type, next_run}
use hdiff_patch.RleStream.Spec.{Pending, start_run, read_run}

-- Where the bytes of a cache begin.
pub first-cached :
    (cached more rest : List ℕ) (x : ℕ)
    → cached ++ more ≡ x ∷ rest
    → 1 ≤ length cached
    → first cached ≡ some x
first-cached [] more rest x e h = absurd (omega arith)
first-cached (y ∷ cached) more rest x e h = ap first e

-- A number leaves fewer bytes.
unpack_within-less :
    (limit : ℕ) (src : List ℕ) (tag_bit v : ℕ) (rest : List ℕ)
    → unpack_within limit src tag_bit ≡ some (v, rest)
    → length rest < length src
unfolding unpack_within
unpack_within-less limit src tag_bit v rest e =
    let ((v', rest'), e1, e2) = >>=-eq-some (unpack_uint_with_tag (take limit src) tag_bit) _ e in
    let (_, less) = unpack_takes (take limit src) tag_bit v' rest' e1 in
    ground (
      arith,
      e2,
      length-append rest' (drop limit src),
      length-take limit src,
      length-drop limit src,
    )

start_run-ctrl :
    (t : ByteRleType) (n : ℕ) (ctrl code : List ℕ) (p : Pending)
    → start_run t n ctrl code ≡ some p
    → length p.ctrl ≡ length ctrl
unfolding start_run
start_run-ctrl rle0 n ctrl code p e = ground arith
start_run-ctrl rle255 n ctrl code p e = ground arith
start_run-ctrl rle n ctrl [] p e = ground arith
start_run-ctrl rle n ctrl (x ∷ code) p e = ground arith
start_run-ctrl unrle n ctrl code p e = ground arith

-- A run takes a control byte at least.
pub read_run-less :
    (byte : ℕ) (ctrl code : List ℕ) (p : Pending)
    → read_run byte ctrl code ≡ some p
    → length p.ctrl ≤ length ctrl
unfolding read_run
read_run-less byte ctrl code p e =
    let ((len, ctrl'), e1, e2) =
      >>=-eq-some (unpack_within max_packed_uint_bytes (byte ∷ ctrl) byte_rle_type_bit) _ e in
    omega (
      arith,
      unpack_within-less max_packed_uint_bytes (byte ∷ ctrl) byte_rle_type_bit len ctrl' e1,
      start_run-ctrl (byte_rle_type (byte / 2 ^ (8 - byte_rle_type_bit))) ((len + 1) % 2 ^ 64) ctrl'
          code p e2,
    )

module _ {H : Type 0} (read : H → ℕ → ℕ → Option (List ℕ × H)) (Left : H → ℕ → List ℕ → Type 0)
    (serves : Serves read Left) (size : ℕ) where
  -- A loader whose run and streams are those of `p`.
  pub record IsPending (l : Loader H) (p : Pending) : Type 0 where
    pub ctrl_has : IsClip Left size l.ctrl_clip p.ctrl
    pub code_has : IsClip Left size l.rle_code_clip p.code
    pub copies : l.mem_copy_length ≡ p.copy_length
    pub sets : replicate l.mem_set_length l.mem_set_value ≡ replicate p.set_length p.set_value

  pub switch_type-start_run :
      (t : ByteRleType) (n : ℕ) (l : Loader H) (ctrl code : List ℕ)
      → l.mem_copy_length ≡ 0
      → l.mem_set_length ≡ 0
      → IsClip Left size l.ctrl_clip ctrl
      → IsClip Left size l.rle_code_clip code
      → 1 ≤ size
      → Related IsPending (switch_type read t n l) (start_run t n ctrl code)
  unfolding switch_type start_run
  switch_type-start_run rle0 n l ctrl code no_copy no_set h k fits = record {
    ctrl_has = h;
    code_has = k;
    copies = no_copy;
    sets = refl;
  }
  switch_type-start_run rle255 n l ctrl code no_copy no_set h k fits = record {
    ctrl_has = h;
    code_has = k;
    copies = no_copy;
    sets = refl;
  }
  switch_type-start_run rle n l ctrl [] no_copy no_set h k fits =
      rw (read_data-none read Left serves 1 k (omega arith)) tt
  switch_type-start_run rle n l ctrl (x ∷ code) no_copy no_set h k fits =
      let (clip, e, k') = read_data-some read Left serves 1 k fits (omega arith) in
      rw e (record { ctrl_has = h; code_has = k'; copies = no_copy; sets = refl })
  switch_type-start_run unrle n l ctrl code no_copy no_set h k fits = record {
    ctrl_has = h;
    code_has = k;
    copies = refl;
    sets = ap (λ j. replicate j l.mem_set_value) no_set;
  }

  pub next_run-read_run :
      (l : Loader H) (byte : ℕ) (ctrl code : List ℕ)
      → l.mem_copy_length ≡ 0
      → l.mem_set_length ≡ 0
      → IsClip Left size l.ctrl_clip (byte ∷ ctrl)
      → IsClip Left size l.rle_code_clip code
      → max_packed_uint_bytes ≤ size
      → Related IsPending (next_run read l) (read_run byte ctrl code)
  unfolding next_run read_run
  next_run-read_run l byte ctrl code no_copy no_set h k fits =
      let (clip, e, h', there) =
        access_data-some read Left serves 1 h (omega arith) (omega arith) in
      rw (e, first-cached clip.cached h'.more ctrl byte h'.whole there)
        (Related->>= (SameBytes read Left serves size) IsPending
          (clip_unpack_uint_with_tag read clip byte_rle_type_bit)
          (unpack_within max_packed_uint_bytes (byte ∷ ctrl) byte_rle_type_bit) _ _
          (clip_unpack-unpack_within read Left serves byte_rle_type_bit h' fits)
          λ (len, clip') (len', ctrl') (same, h'').
            subst
              (λ v.
                Related IsPending
                  (switch_type read (byte_rle_type (byte / 2 ^ (8 - byte_rle_type_bit)))
                    ((len + 1) % 2 ^ 64) (record l { ctrl_clip = clip' }))
                  (start_run (byte_rle_type (byte / 2 ^ (8 - byte_rle_type_bit))) ((v + 1) % 2 ^ 64)
                    ctrl' code))
              same
              (switch_type-start_run (byte_rle_type (byte / 2 ^ (8 - byte_rle_type_bit)))
                ((len + 1) % 2 ^ 64) (record l { ctrl_clip = clip' }) ctrl' code no_copy no_set h''
                k (omega arith)))
