-- ===== src/Rle/Encoder/Buffers.antt =====
-- The buffers of the encoder hold the code of a sequence of runs.
use hdiff_patch.Prelude.{
  ℕ, zero, suc, ◌+◌, ◌-◌, ◌^◌, ◌≤◌, ◌<◌, ◌≡◌, sym, ap, ◌∙◌, List, [], ◌∷◌, ◌++◌, arith, ◌==◌,
  if◌then◌else◌, replicate, dec_lt, All, append-nil, append_assoc,
}
use hdiff_patch.Prelude.Wf.{lt_wf}
use hdiff_patch.Rle.Runs.{
  Run, zeros, ones, same, IsRun, run_ctrl, run_code, run_data, ctrl_of, code_of, data_of,
}
use hdiff_patch.Rle.Encoder.{StreamRle, push_run, push_same_loop, long_run_shrinks, push_same}
use native.Mathlib.Bridge.{le_prop}
use mathlib.Core.Logic.{dif_pos, dif_neg}
use mathlib.Core.WellFounded.{Acc}

pub ctrl_of-append : (rs : List Run) (r : Run) → ctrl_of (rs ++ r ∷ []) ≡ ctrl_of rs ++ run_ctrl r
ctrl_of-append [] r = append-nil (run_ctrl r)
ctrl_of-append (x ∷ rs) r = simp (ctrl_of-append rs, append_assoc)

pub code_of-append : (rs : List Run) (r : Run) → code_of (rs ++ r ∷ []) ≡ code_of rs ++ run_code r
code_of-append [] r = append-nil (run_code r)
code_of-append (x ∷ rs) r = simp (code_of-append rs, append_assoc)

pub data_of-append : (rs : List Run) (r : Run) → data_of (rs ++ r ∷ []) ≡ data_of rs ++ run_data r
data_of-append [] r = append-nil (run_data r)
data_of-append (x ∷ rs) r = simp (data_of-append rs, append_assoc)

pub All-append : (rs : List Run) (r : Run) → All IsRun rs → IsRun r → All IsRun (rs ++ r ∷ [])
All-append [] r h k = (k, tt)
All-append (x ∷ rs) r (h, hs) k = (h, All-append rs r hs k)

pub replicate_add : (m n x : ℕ) → replicate (m + n) x ≡ replicate m x ++ replicate n x
replicate_add zero n x = ap (λ k. replicate k x) zero_add
  where
    zero_add : zero + n ≡ n
    zero_add = omega arith
replicate_add (suc m) n x = ap (λ k. replicate k x) suc_add ∙ ap (◌∷◌ x) (replicate_add m n x)
  where
    suc_add : suc m + n ≡ suc (m + n)
    suc_add = omega arith

replicate_split :
    (src : List ℕ) (x m n : ℕ)
    → m ≤ n
    → src ++ replicate n x ≡ (src ++ replicate m x) ++ replicate (n - m) x
replicate_split src x m n h =
    let whole : n ≡ m + (n - m) = omega arith in
    ap (λ k. src ++ replicate k x) whole
    ∙ ap (λ t. src ++ t) (replicate_add m (n - m) x)
    ∙ sym (append_assoc src (replicate m x) (replicate (n - m) x))

-- The two buffers hold just the runs of `rs`.
pub record Holds (rs : List Run) (ctrl code src : List ℕ) : Type 0 where
  pub valid : All IsRun rs
  pub ctrl_is : ctrl ≡ ctrl_of rs
  pub code_is : code ≡ code_of rs
  pub data_is : src ≡ data_of rs

Holds-append :
    {rs : List Run} {ctrl code src : List ℕ} (r : Run)
    → Holds rs ctrl code src
    → IsRun r
    → Holds (rs ++ r ∷ []) (ctrl ++ run_ctrl r) (code ++ run_code r) (src ++ run_data r)
Holds-append {rs} r h k = record {
  valid = All-append rs r h.valid k;
  ctrl_is = rw (h.ctrl_is, ctrl_of-append);
  code_is = rw (h.code_is, code_of-append);
  data_is = rw (h.data_is, data_of-append);
}

-- The run that the encoder chooses for equal bytes.
run_of : (cur count : ℕ) → Run
run_of cur count =
    if cur == 0 then zeros count else if cur == 255 then ones count else same cur count

push_run_lem :
    (cur count : ℕ) (ctrl code : List ℕ)
    → push_run cur count ctrl code
      ≡ (ctrl ++ run_ctrl (run_of cur count), code ++ run_code (run_of cur count))
unfolding push_run run_of
push_run_lem cur count ctrl code = ground (arith, append-nil code)

run_of_data : (cur count : ℕ) → run_data (run_of cur count) ≡ replicate count cur
unfolding run_of
run_of_data cur count = ground arith

run_of-IsRun : (cur count : ℕ) → 1 ≤ count → count ≤ 2 ^ 64 → IsRun (run_of cur count)
unfolding run_of
run_of-IsRun cur count lo hi = ground arith

abbrev pub HoldsSome : List ℕ × List ℕ → List ℕ → Type 0
HoldsSome (ctrl, code) src = (rs : List Run) × Holds rs ctrl code src

push_run-HoldsSome :
    {rs : List Run} {ctrl code src : List ℕ} (cur count : ℕ)
    → Holds rs ctrl code src
    → 1 ≤ count
    → count ≤ 2 ^ 64
    → HoldsSome (push_run cur count ctrl code) (src ++ replicate count cur)
push_run-HoldsSome {rs} {ctrl} {code} {src} cur count h lo hi =
    rw (push_run_lem cur count ctrl code, ← run_of_data cur count)
      (
        rs ++ run_of cur count ∷ [],
        Holds-append (run_of cur count) h (run_of-IsRun cur count lo hi),
      )

-- The loop over a long run splits it into runs, none of which is too long.
push_same_loop-HoldsSome :
    (max_len cur count : ℕ) (w : Acc ◌<◌ count) {rs : List Run} {ctrl code src : List ℕ}
    → Holds rs ctrl code src
    → suc max_len ≤ 2 ^ 64
    → 1 ≤ count
    → HoldsSome (push_same_loop max_len cur count w ctrl code) (src ++ replicate count cur)
unfolding push_same_loop
push_same_loop-HoldsSome max_len cur count (Acc.intro _ smaller) {rs} {ctrl} {code} {src} h hm lo =
    elim (dec_lt (suc max_len) count) [
      | yes long ↦
          let (rs', h') = push_run-HoldsSome cur (suc max_len) h (omega arith) hm in
          rw (dif_pos _ le_prop long _ _) (
            rw (replicate_split src cur (suc max_len) count (omega arith)) (
              push_same_loop-HoldsSome max_len cur (count - suc max_len)
                (smaller (count - suc max_len) (long_run_shrinks max_len count long)) h' hm
                (omega arith)))
      | no short ↦ rw (dif_neg _ short _ _) (push_run-HoldsSome cur count h lo (omega arith))
    ]

-- An encoder with nothing pending.
abbrev pub IsFlushed : StreamRle → List ℕ → Type 0
IsFlushed s src = HoldsSome (s.ctrl_buf, s.code_buf) src × (s.not_same_count ≡ 0)

pub push_same-IsFlushed :
    (s : StreamRle) (src : List ℕ) (cur count : ℕ)
    → IsFlushed s src
    → 1 ≤ count
    → IsFlushed (push_same s cur count) (src ++ replicate count cur)
unfolding push_same
push_same-IsFlushed s src cur count ((rs, h), e) lo =
    (push_same_loop-HoldsSome _ cur count (lt_wf.apply count) h (omega arith) lo, e)
