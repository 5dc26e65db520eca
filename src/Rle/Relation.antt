-- ===== src/Rle/Relation.antt =====
-- _bytesRle_load against the rounds that its code allows.
use hdiff_patch.Prelude.{
  ℕ, zero, suc, ◌+◌, ◌-◌, ◌/◌, ◌^◌, ◌≤◌, ◌<◌, ◌≡◌, refl, subst, some, List, [], ◌∷◌, ◌++◌, ltb,
  length, take, drop, check, not, arith, length-take, >>=-eq-some, lt→ltb, le→ltb,
}
use mathlib.Core.Logic.{◌↔◌}
use hdiff_patch.Varint.{unpack_uint_with_tag}
use hdiff_patch.Varint.Decode.{unpack_takes}
use hdiff_patch.Rle.{byte_rle_type, run_bytes, load_loop, bytes_rle_load, byte_rle_type_bit}

-- The rounds on the control bytes `ctrl` and the data bytes `code` that write `out`, `room` bytes: a
-- round reads a length at the control bytes, and goes on behind it and behind the data of its run. At
-- the end nothing is left.
pub data Loads : (ctrl code : List ℕ) (room : ℕ) (out : List ℕ) → Type 0 where
  over : Loads [] [] 0 []
  run :
      (c : ℕ) (ctrl ctrl' code code' : List ℕ) (len room : ℕ) (bytes rest : List ℕ)
      → unpack_uint_with_tag (c ∷ ctrl) byte_rle_type_bit ≡ some (len, ctrl')
      → len < room
      → run_bytes (byte_rle_type (c / 2 ^ (8 - byte_rle_type_bit))) (len + 1) code
        ≡ some (bytes, code')
      → Loads ctrl' code' (room - (len + 1)) rest
      → Loads (c ∷ ctrl) code room (bytes ++ rest)

Loads-load_loop :
    (fuel : ℕ) {ctrl code : List ℕ} {room : ℕ} {out : List ℕ}
    → Loads ctrl code room out
    → length ctrl ≤ fuel
    → load_loop fuel ctrl code room ≡ some out
unfolding load_loop
Loads-load_loop fuel over h = refl
Loads-load_loop zero (run c ctrl ctrl' code code' len room bytes rest e fits k loads) h =
    absurd (omega arith)
Loads-load_loop (suc fuel) (run c ctrl ctrl' code code' len room bytes rest e fits k loads) h =
    rw
      (
        e,
        lt→ltb len room fits,
        k,
        Loads-load_loop fuel loads
            (omega (arith, unpack_takes (c ∷ ctrl) byte_rle_type_bit len ctrl' e)),
      )
      refl

load_loop-Loads :
    (fuel : ℕ) (ctrl code : List ℕ) (room : ℕ) {out : List ℕ}
    → load_loop fuel ctrl code room ≡ some out
    → Loads ctrl code room out
unfolding load_loop
load_loop-Loads fuel [] [] zero e = subst (λ l. Loads [] [] 0 l) (ground (arith, e)) over
load_loop-Loads fuel [] [] (suc room) e = absurd (ground (arith, e))
load_loop-Loads fuel [] (x ∷ code) room e = absurd (ground (arith, e))
load_loop-Loads zero (c ∷ ctrl) code room e = absurd (ground (arith, e))
load_loop-Loads (suc fuel) (c ∷ ctrl) code room e =
    let ((len, ctrl'), e1, k1) =
      >>=-eq-some (unpack_uint_with_tag (c ∷ ctrl) byte_rle_type_bit) _ e in
    let (_, e2, k2) = >>=-eq-some (check (ltb len room)) _ k1 in
    let ((bytes, code'), e3, k3) = >>=-eq-some (run_bytes _ (len + 1) code) _ k2 in
    let (rest, e4, k4) = >>=-eq-some (load_loop fuel ctrl' code' (room - (len + 1))) _ k3 in
    subst (λ l. Loads (c ∷ ctrl) code room l) (some_same k4)
      (run c ctrl ctrl' code code' len room bytes rest e1 (ground (arith, e2)) e3
        (load_loop-Loads fuel ctrl' code' (room - (len + 1)) e4))
  where
    some_same : {xs ys : List ℕ} → some xs ≡ some ys → xs ≡ ys
    some_same e = cc

-- A run-length code that stands for `out`: the size of its control bytes, these bytes and the data.
pub record Stands (room : ℕ) (code out : List ℕ) : Type 0 where
  pub ctrl_size : ℕ
  pub rle_code : List ℕ
  pub size_is : unpack_uint_with_tag code 0 ≡ some (ctrl_size, rle_code)
  pub inside : ctrl_size ≤ length rle_code
  pub loads : Loads (take ctrl_size rle_code) (drop ctrl_size rle_code) room out

-- _bytesRle_load succeeds with the bytes that the rounds of its code write, and only with these: the
-- fuel that it is given never ends a loop whose rounds come to an end.
pub bytes_rle_load-Stands :
    (room : ℕ) (code out : List ℕ) → (bytes_rle_load room code ≡ some out) ↔ Stands room code out
unfolding bytes_rle_load
bytes_rle_load-Stands room code out = (
  λ e.
      let ((size, rle_code), e1, k1) = >>=-eq-some (unpack_uint_with_tag code 0) _ e in
      let (_, e2, k2) = >>=-eq-some (check (not (ltb (length rle_code) size))) _ k1 in
      record {
        ctrl_size = size;
        rle_code = rle_code;
        size_is = e1;
        inside = ground (arith, e2);
        loads = load_loop-Loads size (take size rle_code) (drop size rle_code) room k2;
      },
  λ s.
      rw (s.size_is, le→ltb (length s.rle_code) s.ctrl_size s.inside)
        (Loads-load_loop s.ctrl_size s.loads (omega (arith, length-take s.ctrl_size s.rle_code))),
)
