-- ===== src/Rle/Encoder/Steps.antt =====
-- Ending a run and reading a byte, as steps of the encoder that keep what its buffers stand for.
use hdiff_patch.Prelude.{
  ℕ, ◌+◌, ◌^◌, ◌≤◌, ◌<◌, ◌≡◌, refl, sym, ap, ◌∙◌, List, [], ◌∷◌, ◌++◌, arith, ltb, ◌==◌,
  if◌then◌else◌, length, replicate, All, append-nil, append_assoc, length-append, length-replicate,
  Bool-cases, inl, inr, lt→ltb, ==_iff,
}
use hdiff_patch.Rle.Runs.{Run, copied, IsRun, ctrl_of, code_of, data_of}
use hdiff_patch.Rle.Encoder.{
  StreamRle, back, pop_back, end_no_same, end_same, append_loop, run_sign,
}
use hdiff_patch.Rle.Encoder.Buffers.{
  replicate_add, ctrl_of-append, code_of-append, data_of-append, All-append, IsFlushed,
  push_same-IsFlushed,
}

back-append : (xs : List ℕ) (x : ℕ) → back (xs ++ x ∷ []) ≡ x
back-append [] x = refl
back-append (y ∷ []) x = refl
back-append (y ∷ z ∷ xs) x = back-append (z ∷ xs) x

pop_back-append : (xs : List ℕ) (x : ℕ) → pop_back (xs ++ x ∷ []) ≡ xs
pop_back-append [] x = refl
pop_back-append (y ∷ []) x = refl
pop_back-append (y ∷ z ∷ xs) x = ap (◌∷◌ y) (pop_back-append (z ∷ xs) x)

-- The code buffer ends with bytes that no control code covers yet.
pub record Pending (rs : List Run) (tail : List ℕ) (s : StreamRle) (src : List ℕ) : Type 0 where
  pub valid : All IsRun rs
  pub ctrl_is : s.ctrl_buf ≡ ctrl_of rs
  pub code_is : s.code_buf ≡ code_of rs ++ tail
  pub count_is : s.not_same_count ≡ length tail
  pub src_is : src ≡ data_of rs ++ tail

pub end_no_same-IsFlushed :
    (rs : List Run) (tail : List ℕ) (s : StreamRle) (src : List ℕ)
    → Pending rs tail s src
    → length tail ≤ 2 ^ 64
    → IsFlushed (end_no_same s) src
unfolding end_no_same
end_no_same-IsFlushed rs [] s src p fits = rw p.count_is (
  (
    rs,
    record {
      valid = p.valid;
      ctrl_is = p.ctrl_is;
      code_is = p.code_is ∙ append-nil (code_of rs);
      data_is = p.src_is ∙ append-nil (data_of rs);
    },
  ),
  refl,
)
end_no_same-IsFlushed rs (x ∷ []) s src p fits = rw p.count_is (
    rw (p.code_is, back-append (code_of rs) x, pop_back-append (code_of rs) x, p.src_is)
      (push_same-IsFlushed (record s { not_same_count = 0; code_buf = code_of rs }) (data_of rs) x 1
        (
          (rs, record { valid = p.valid; ctrl_is = p.ctrl_is; code_is = refl; data_is = refl }),
          refl,
        )
        (omega arith)))
end_no_same-IsFlushed rs (x ∷ y ∷ ys) s src p fits =
    rw (p.count_is, lt→ltb 1 (length (x ∷ y ∷ ys)) (omega arith))
      (
        (
          rs ++ copied (x ∷ y ∷ ys) ∷ [],
          record {
            valid = All-append rs _ p.valid (omega arith);
            ctrl_is = rw (p.ctrl_is, ctrl_of-append);
            code_is = p.code_is ∙ sym (code_of-append rs (copied (x ∷ y ∷ ys)));
            data_is = p.src_is ∙ sym (data_of-append rs (copied (x ∷ y ∷ ys)));
          },
        ),
        refl,
      )

-- The state after `src`, whose last bytes are the run that is being counted.
pub record IsOpen (s : StreamRle) (src : List ℕ) : Type 0 where
  pub runs : List Run
  pub tail : List ℕ
  pub front : List ℕ
  pub pending : Pending runs tail s front
  pub src_is : src ≡ front ++ replicate s.same_count s.same_cur
  pub some_same : 1 ≤ s.same_count

IsOpen-tail :
    (s : StreamRle) (src : List ℕ) (o : IsOpen s src) → length src < 2 ^ 64 → length o.tail ≤ 2 ^ 64
IsOpen-tail s src o fits = omega (
  arith,
  ap (λ l. length l) o.src_is,
  ap (λ l. length l) o.pending.src_is,
  length-append o.front (replicate s.same_count s.same_cur),
  length-append (data_of o.runs) o.tail,
)

-- Ending the counted run keeps the bytes, all of them now before it.
abbrev pub IsEnded : StreamRle → List ℕ → Type 0
IsEnded s src = (rs : List Run) × (tail : List ℕ) × Pending rs tail s src

pub end_same-IsEnded :
    (k : ℕ) (s : StreamRle) (src : List ℕ)
    → IsOpen s src
    → length src < 2 ^ 64
    → IsEnded (end_same k s) src
unfolding end_same
end_same-IsEnded k s src o fits = elim (Bool-cases (ltb k (s.same_count + run_sign s.same_cur))) [
  | inl long ↦
      let flushed =
        end_no_same-IsFlushed o.runs o.tail s o.front o.pending (IsOpen-tail s src o fits) in
      let ((rs, h), e) =
        push_same-IsFlushed (end_no_same s) o.front s.same_cur s.same_count flushed o.some_same in
      rw (long, o.src_is)
        (
          rs,
          [],
          record {
            valid = h.valid;
            ctrl_is = h.ctrl_is;
            code_is = h.code_is ∙ sym (append-nil (code_of rs));
            count_is = e;
            src_is = h.data_is ∙ sym (append-nil (data_of rs));
          },
        )
  | inr short ↦
      let same_bytes : List ℕ = replicate s.same_count s.same_cur in
      rw (short, o.src_is)
        (
          o.runs,
          o.tail ++ same_bytes,
          record {
            valid = o.pending.valid;
            ctrl_is = o.pending.ctrl_is;
            code_is =
                ap (λ t. t ++ same_bytes) o.pending.code_is
                ∙ append_assoc (code_of o.runs) o.tail same_bytes;
            count_is = omega (
              arith,
              o.pending.count_is,
              length-append o.tail same_bytes,
              length-replicate s.same_count s.same_cur,
            );
            src_is =
                ap (λ t. t ++ same_bytes) o.pending.src_is
                ∙ append_assoc (data_of o.runs) o.tail same_bytes;
          },
        )
]

-- The next byte either lengthens the counted run or ends it and opens another.
snoc_replicate : (n x : ℕ) → replicate (n + 1) x ≡ replicate n x ++ x ∷ []
snoc_replicate n x = replicate_add n 1 x

append_step-IsOpen :
    (k : ℕ) (s : StreamRle) (src : List ℕ) (cur : ℕ)
    → IsOpen s src
    → length src < 2 ^ 64
    → IsOpen
        (if cur == s.same_cur
          then record s { same_count = s.same_count + 1 }
          else record (end_same k s) { same_cur = cur; same_count = 1 })
        (src ++ cur ∷ [])
append_step-IsOpen k s src cur o fits = elim (Bool-cases (cur == s.same_cur)) [
  | inl same_byte ↦ rw same_byte (record {
    runs = o.runs;
    tail = o.tail;
    front = o.front;
    pending = record {
      valid = o.pending.valid;
      ctrl_is = o.pending.ctrl_is;
      code_is = o.pending.code_is;
      count_is = o.pending.count_is;
      src_is = o.pending.src_is;
    };
    src_is = rw (o.src_is, (==_iff cur s.same_cur).0 same_byte, snoc_replicate, append_assoc);
    some_same = omega arith;
  })
  | inr other ↦
      let (rs, tail, p) = end_same-IsEnded k s src o fits in
      rw other (record {
        runs = rs;
        tail = tail;
        front = src;
        pending = record {
          valid = p.valid;
          ctrl_is = p.ctrl_is;
          code_is = p.code_is;
          count_is = p.count_is;
          src_is = p.src_is;
        };
        src_is = refl;
        some_same = omega arith;
      })
]

pub append_loop-IsOpen :
    (k : ℕ) (rest : List ℕ) (s : StreamRle) (src : List ℕ)
    → IsOpen s src
    → length (src ++ rest) < 2 ^ 64
    → IsOpen (append_loop k s rest) (src ++ rest)
unfolding append_loop
append_loop-IsOpen k [] s src o fits = rw (append-nil src) o
append_loop-IsOpen k (cur ∷ rest) s src o fits =
    let e : (src ++ cur ∷ []) ++ rest ≡ src ++ cur ∷ rest = append_assoc src (cur ∷ []) rest in
    rw (sym e) (
      append_loop-IsOpen k rest _ (src ++ cur ∷ [])
        (append_step-IsOpen k s src cur o (omega (arith, fits, length-append src (cur ∷ rest))))
        (rw e fits))
