-- ===== src/Lite/Fuel.antt =====
-- The fuel of hpatch_lite_patch bounds the bytes of one number: more than the bytes of the diff is
-- enough, since behind the end every byte is 0 and ends the number.
use hdiff_patch.Prelude.{
  ℕ, zero, suc, ◌-◌, ◌*◌, ◌/◌, ◌%◌, ◌^◌, ◌≤◌, ◌<◌, ◌≡◌, ◌≢◌, refl, Bool, true, false, not, none,
  some, List, [], ◌∷◌, arith, ltb, length, check, bit_and, bit_or, >>=-eq-some, >>=-congr,
  length-drop,
}
use hdiff_patch.Lite.{LiteCover}
use hdiff_patch.Lite.Spec.{
  Source, byte_of, read_byte, read_uint, take_bytes, cover_bytes, next_cover_at, next_cover,
  new_covers, lite_new_data,
}

byte_of-takes : (s : Source) (bytes : List ℕ) → length (byte_of s bytes).1.bytes ≤ length bytes
byte_of-takes s [] = omega arith
byte_of-takes s (b ∷ bytes) = omega arith

read_byte-takes : (s : Source) → length (read_byte s).1.bytes ≤ length s.bytes
unfolding read_byte
read_byte-takes s = byte_of-takes s s.bytes

read_uint-takes :
    (f : ℕ) (s : Source) (v k w : ℕ) (s' : Source)
    → read_uint f s v k ≡ some (w, s')
    → length s'.bytes ≤ length s.bytes
unfolding read_uint
read_uint-takes f s v zero w s' e = ground arith
read_uint-takes zero s v (suc k) w s' e = ground arith
read_uint-takes (suc f) s v (suc k) w s' e =
    omega (arith, read_byte-takes s, read_uint-takes f (read_byte s).1 _ _ w s' e)

-- Behind one byte: there are fewer bytes left, or the byte is 0 and ends the number.
number_goes_on :
    (f g : ℕ) (s : Source) (v : ℕ) (bytes : List ℕ)
    → length bytes < suc f
    → length bytes < suc g
    → ((s' : Source) (v k : ℕ)
        → length s'.bytes < f
        → length s'.bytes < g
        → read_uint f s' v k ≡ read_uint g s' v k)
    → let (b, s') = byte_of s bytes in
      read_uint f s' (bit_or v (bit_and b 127)) (b / 2 ^ 7)
      ≡ read_uint g s' (bit_or v (bit_and b 127)) (b / 2 ^ 7)
unfolding read_uint
number_goes_on f g s v [] hf hg ih = refl
number_goes_on f g s v (b ∷ bytes) hf hg ih =
    ih (record s { bytes = bytes }) _ _ (omega arith) (omega arith)

pub read_uint_fuel :
    (f g : ℕ) (s : Source) (v k : ℕ)
    → length s.bytes < f
    → length s.bytes < g
    → read_uint f s v k ≡ read_uint g s v k
unfolding read_uint read_byte
read_uint_fuel f g s v zero hf hg = refl
read_uint_fuel zero g s v (suc k) hf hg = absurd (omega arith)
read_uint_fuel (suc f) zero s v (suc k) hf hg = absurd (omega arith)
read_uint_fuel (suc f) (suc g) s v (suc k) hf hg =
    number_goes_on f g s (v * 2 ^ 7 % 2 ^ 32) s.bytes hf hg (read_uint_fuel f g)

-- With that much fuel a number is always read.
number_ends :
    (f : ℕ) (s : Source) (v : ℕ) (bytes : List ℕ)
    → length bytes < suc f
    → ((s' : Source) (v k : ℕ) → length s'.bytes < f → read_uint f s' v k ≢ none)
    → let (b, s') = byte_of s bytes in read_uint f s' (bit_or v (bit_and b 127)) (b / 2 ^ 7) ≢ none
unfolding read_uint
number_ends f s v [] hf ih = λ e. absurd (ground (arith, e))
number_ends f s v (b ∷ bytes) hf ih = ih (record s { bytes = bytes }) _ _ (omega arith)

pub read_uint-some : (f : ℕ) (s : Source) (v k : ℕ) → length s.bytes < f → read_uint f s v k ≢ none
unfolding read_uint read_byte
read_uint-some f s v zero hf = λ e. absurd (ground (arith, e))
read_uint-some zero s v (suc k) hf = absurd (omega arith)
read_uint-some (suc f) s v (suc k) hf =
    number_ends f s (v * 2 ^ 7 % 2 ^ 32) s.bytes hf (read_uint-some f)

take_bytes-takes :
    (n : ℕ) (s : Source) (out : List ℕ) (s' : Source)
    → take_bytes n s ≡ some (out, s')
    → length s'.bytes ≤ length s.bytes
unfolding take_bytes
take_bytes-takes n s out s' e = ground (arith, length-drop n s.bytes)

cover_bytes-takes :
    (old : List ℕ) (same : Bool) (pos n : ℕ) (s : Source) (out : List ℕ) (s' : Source)
    → cover_bytes old same pos n s ≡ some (out, s')
    → length s'.bytes ≤ length s.bytes
unfolding cover_bytes
cover_bytes-takes old same pos zero s out s' e = ground arith
cover_bytes-takes old true pos (suc n) s out s' e = ground arith
cover_bytes-takes old false pos (suc n) s out s' e =
    let ((added, s1), e1, k1) = >>=-eq-some (take_bytes (suc n) s) _ e in
    ground (arith, k1, take_bytes-takes (suc n) s added s1 e1)

next_cover_at_fuel :
    (f g back new_back n tag : ℕ) (s : Source)
    → length s.bytes < f
    → length s.bytes < g
    → next_cover_at f back new_back n tag s ≡ next_cover_at g back new_back n tag s
unfolding next_cover_at
next_cover_at_fuel f g back new_back n tag s hf hg =
    rw (read_uint_fuel f g s (bit_and tag 31) (bit_and tag 32) hf hg) (
      >>=-congr (read_uint g s (bit_and tag 31) (bit_and tag 32)) _ _ λ (step, s1) e.
        let fewer = read_uint-takes g s _ _ step s1 e in
        rw (read_uint_fuel f g s1 0 1 (omega arith) (omega arith)) refl)

next_cover_fuel :
    (f g back new_back : ℕ) (s : Source)
    → length s.bytes < f
    → length s.bytes < g
    → next_cover f back new_back s ≡ next_cover g back new_back s
unfolding next_cover
next_cover_fuel f g back new_back s hf hg = rw (read_uint_fuel f g s 0 1 hf hg) (
    >>=-congr (read_uint g s 0 1) _ _ λ (n, s1) e.
      let fewer = read_uint-takes g s _ _ n s1 e in
      let fewer' = read_byte-takes s1 in
      next_cover_at_fuel f g back new_back n _ _ (omega arith) (omega arith))

next_cover-takes :
    (f back new_back : ℕ) (s : Source) (c : LiteCover) (s' : Source)
    → next_cover f back new_back s ≡ some (c, s')
    → length s'.bytes ≤ length s.bytes
unfolding next_cover next_cover_at
next_cover-takes f back new_back s c s' e =
    let ((n, s1), e1, k1) = >>=-eq-some (read_uint f s 0 1) _ e in
    let ((step, s2), e2, k2) = >>=-eq-some (read_uint f (read_byte s1).1 _ _) _ k1 in
    let ((gap, s3), e3, k3) = >>=-eq-some (read_uint f s2 0 1) _ k2 in
    ground (
      arith,
      k3,
      read_uint-takes f s _ _ n s1 e1,
      read_byte-takes s1,
      read_uint-takes f (read_byte s1).1 _ _ step s2 e2,
      read_uint-takes f s2 _ _ gap s3 e3,
    )

new_covers_fuel :
    (f g : ℕ) (old : List ℕ) (count back new_back : ℕ) (s : Source)
    → length s.bytes < f
    → length s.bytes < g
    → new_covers f old count back new_back s ≡ new_covers g old count back new_back s
unfolding new_covers
new_covers_fuel f g old zero back new_back s hf hg = refl
new_covers_fuel f g old (suc count) back new_back s hf hg =
    rw (next_cover_fuel f g back new_back s hf hg) (
      >>=-congr (next_cover g back new_back s) _ _ λ (c, s1) e1.
        >>=-congr (check (not (ltb c.cover_new_pos new_back))) _ _ λ _ _.
          >>=-congr (take_bytes (c.cover_new_pos - new_back) s1) _ _ λ (copied, s2) e2.
            >>=-congr (cover_bytes old c.is_not_need_sub_diff c.cover_old_pos c.cover_length s2) _ _
              λ (added, s3) e3.
                let fewer = next_cover-takes g back new_back s c s1 e1 in
                let fewer' = take_bytes-takes _ s1 copied s2 e2 in
                let fewer'' = cover_bytes-takes old _ _ _ s2 added s3 e3 in
                rw (new_covers_fuel f g old count _ _ s3 (omega arith) (omega arith)) refl)

-- Any two amounts of fuel above the size of the diff give the same new data.
pub lite_new_data_fuel :
    (f g new_size : ℕ) (old diff : List ℕ)
    → length diff < f
    → length diff < g
    → lite_new_data f new_size old diff ≡ lite_new_data g new_size old diff
unfolding lite_new_data
lite_new_data_fuel f g new_size old diff hf hg =
    let start : Source = record { bytes = diff; is_over = false } in
    rw (read_uint_fuel f g start 0 1 hf hg) (
      >>=-congr (read_uint g start 0 1) _ _ λ (n, s) e.
        let fewer = read_uint-takes g start 0 1 n s e in
        rw (new_covers_fuel f g old n 0 0 s (omega arith) (omega arith)) refl)
