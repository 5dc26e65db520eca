-- ===== src/MemPatch/Sizes.antt =====
-- The sizes of the streams that serialize_diff writes.
use hdiff_patch.Prelude.{
  ℕ, ◌+◌, ◌-◌, ◌*◌, ◌^◌, ◌≤◌, ◌<◌, List, [], ◌∷◌, arith, ltb, length, take, drop, length-append,
  length-take, length-drop, Bool-cases, inl, inr,
}
use hdiff_patch.Varint.{IsU64}
use hdiff_patch.Varint.RoundTrip.{packed}
use hdiff_patch.Varint.Decode.{length-packed}
use hdiff_patch.MemPatch.Serialize.{
  Cover, length_buf, inc_new_pos_buf, inc_old_pos_code, inc_old_pos_buf, new_data_diff, CoversFit,
}
use hdiff_patch.MemPatch.Rounds.{after}

pub CoversFit-le :
    (old_size new_size last : ℕ) (cs : List Cover)
    → CoversFit old_size new_size last cs
    → last ≤ new_size
CoversFit-le old_size new_size last [] h = h
CoversFit-le old_size new_size last (c ∷ cs) (h1, h2, h3) =
    omega (arith, CoversFit-le old_size new_size (c.new_pos + c.len) cs h3)

-- A cover takes at most eleven bytes of each of its three streams.
pub length-length_buf :
    (old_size new_size last : ℕ) (cs : List Cover)
    → CoversFit old_size new_size last cs
    → old_size < 2 ^ 64
    → length (length_buf cs) ≤ 11 * length cs
length-length_buf old_size new_size last [] h so = omega arith
length-length_buf old_size new_size last (c ∷ cs) (h1, h2, h3) so = omega (
  arith,
  length-append (packed c.len 0 0) (length_buf cs),
  length-packed c.len 0 0 (omega arith),
  length-length_buf old_size new_size (c.new_pos + c.len) cs h3 so,
)

pub length-inc_new_pos_buf :
    (old_size new_size last : ℕ) (cs : List Cover)
    → CoversFit old_size new_size last cs
    → new_size < 2 ^ 64
    → length (inc_new_pos_buf last cs) ≤ 11 * length cs
length-inc_new_pos_buf old_size new_size last [] h sn = omega arith
length-inc_new_pos_buf old_size new_size last (c ∷ cs) (h1, h2, h3) sn = omega (
  arith,
  length-append (packed (c.new_pos - last) 0 0) (inc_new_pos_buf (c.new_pos + c.len) cs),
  CoversFit-le old_size new_size (c.new_pos + c.len) cs h3,
  length-packed (c.new_pos - last) 0 0
      (omega (arith, CoversFit-le old_size new_size (c.new_pos + c.len) cs h3)),
  length-inc_new_pos_buf old_size new_size (c.new_pos + c.len) cs h3 sn,
)

length-inc_old_pos_code :
    (back pos : ℕ) → IsU64 back → IsU64 pos → length (inc_old_pos_code back pos) ≤ 11
length-inc_old_pos_code back pos hb hp = elim (Bool-cases (ltb pos back)) [
  | inl down ↦ rw down (length-packed (back - pos) 1 1 (omega arith))
  | inr up ↦ rw up (length-packed (pos - back) 0 1 (omega arith))
]

pub length-inc_old_pos_buf :
    (old_size new_size last back : ℕ) (cs : List Cover)
    → CoversFit old_size new_size last cs
    → IsU64 back
    → old_size < 2 ^ 64
    → length (inc_old_pos_buf back cs) ≤ 11 * length cs
length-inc_old_pos_buf old_size new_size last back [] h hb so = omega arith
length-inc_old_pos_buf old_size new_size last back (c ∷ cs) (h1, h2, h3) hb so = omega (
  arith,
  length-append (inc_old_pos_code back c.old_pos) (inc_old_pos_buf c.old_pos cs),
  length-inc_old_pos_code back c.old_pos hb (omega arith),
  length-inc_old_pos_buf old_size new_size (c.new_pos + c.len) c.old_pos cs h3 (omega arith) so,
)

pub length-new_data_diff :
    (last : ℕ) (cs : List Cover) (new_rest : List ℕ)
    → length (new_data_diff last cs new_rest) ≤ length new_rest
length-new_data_diff last [] new_rest = omega arith
length-new_data_diff last (c ∷ cs) new_rest = omega (
  arith,
  length-append (take (c.new_pos - last) new_rest)
      (new_data_diff (c.new_pos + c.len) cs (after last c new_rest)),
  length-take (c.new_pos - last) new_rest,
  length-drop c.len (drop (c.new_pos - last) new_rest),
  length-drop (c.new_pos - last) new_rest,
  length-new_data_diff (c.new_pos + c.len) cs (after last c new_rest),
)
