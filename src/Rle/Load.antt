-- ===== src/Rle/Load.antt =====
-- _bytesRle_load on any input.
use hdiff_patch.Prelude.{
  ℕ, zero, suc, ◌+◌, ◌-◌, ◌≡◌, some, List, [], ◌∷◌, ltb, length, take, drop, check, not, arith,
  length-append, length-take, length-replicate, >>=-eq-some,
}
use hdiff_patch.Varint.{unpack_uint_with_tag}
use hdiff_patch.Rle.{
  ByteRleType, rle0, rle255, rle, unrle, run_bytes, load_loop, bytes_rle_load, byte_rle_type_bit,
}

length-run_bytes :
    (t : ByteRleType) (n : ℕ) (code bytes code' : List ℕ)
    → run_bytes t n code ≡ some (bytes, code')
    → length bytes ≡ n
unfolding run_bytes
length-run_bytes rle0 n code bytes code' e = ground (arith, length-replicate {A = ℕ} n 0)
length-run_bytes rle255 n code bytes code' e = ground (arith, length-replicate {A = ℕ} n 255)
length-run_bytes rle n [] bytes code' e = ground arith
length-run_bytes rle n (x ∷ code) bytes code' e = ground (arith, length-replicate n x)
length-run_bytes unrle n code bytes code' e = ground (arith, length-take n code)

length-load_loop :
    (f : ℕ) (ctrl code : List ℕ) (room : ℕ) {out : List ℕ}
    → load_loop f ctrl code room ≡ some out
    → length out ≡ room
unfolding load_loop
length-load_loop f [] code room e = ground arith
length-load_loop zero (c ∷ ctrl) code room e = ground arith
length-load_loop (suc f) (c ∷ ctrl) code room {out} e =
    let ((len, ctrl'), e1, k1) =
      >>=-eq-some (unpack_uint_with_tag (c ∷ ctrl) byte_rle_type_bit) _ e in
    let (_, e2, k2) = >>=-eq-some (check (ltb len room)) _ k1 in
    let ((bytes, code'), e3, k3) = >>=-eq-some (run_bytes _ (len + 1) code) _ k2 in
    let (rest, e4, k4) = >>=-eq-some (load_loop f ctrl' code' (room - (len + 1))) _ k3 in
    ground (
      arith,
      e2,
      k4,
      length-append bytes rest,
      length-run_bytes _ (len + 1) code bytes code' e3,
      length-load_loop f ctrl' code' (room - (len + 1)) e4,
    )

-- A load that succeeds has written every byte of the buffer.
pub length-bytes_rle_load :
    (room : ℕ) (code : List ℕ) {out : List ℕ}
    → bytes_rle_load room code ≡ some out
    → length out ≡ room
unfolding bytes_rle_load
length-bytes_rle_load room code e =
    let ((size, rle_code), e1, k1) = >>=-eq-some (unpack_uint_with_tag code 0) _ e in
    let (_, e2, k2) = >>=-eq-some (check (not (ltb (length rle_code) size))) _ k1 in
    length-load_loop size (take size rle_code) (drop size rle_code) room k2
