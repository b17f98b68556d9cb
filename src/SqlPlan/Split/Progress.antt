-- ===== src/SqlPlan/Split/Progress.antt =====
-- The rounds of the splitter (sqlplan/split.go) and its fuel.
use nuzur_cli.Base.{
  ℕ, zero, suc, ◌≤◌, ◌<◌, ◌≡◌, refl, [], ◌∷◌, some, List, not, false, inl, inr, arith, length,
  length-drop, Option-cases, is_nil, take, drop,
}
use nuzur_cli.SqlPlan.Split.{
  Splitter, skip_at, read_delimiter_directive, step_code, step, run, start, split,
}
use nuzur_cli.SqlPlan.Split.Scan.{scan_dollar_quoted, end_of_line}
use nuzur_cli.SqlPlan.Types.{Engine, is_postgres}
use nuzur_cli.Text.{Text, trim_func, trim_space}

scan_dollar_quoted_pos : (rest : Text) (n : ℕ) → scan_dollar_quoted rest ≡ some n → 0 < n
unfolding scan_dollar_quoted
scan_dollar_quoted_pos rest n h = ground arith

skip_at_pos : (s : Splitter) (c : ℕ) (rest : Text) → 0 < (skip_at s c rest).0
unfolding skip_at end_of_line
skip_at_pos s c rest = ground (arith, scan_dollar_quoted_pos (c ∷ rest))

-- What a directive that is taken says of its line.
pub read_delimiter_directive_line :
    (s : Splitter) (rest : Text) (d : Text) (n : ℕ)
    → read_delimiter_directive s rest ≡ some (d, n)
    → (d ≡ trim_space (drop 9 (take n rest))) × (is_nil d ≡ false)
unfolding read_delimiter_directive
read_delimiter_directive_line s rest d n h = ground arith

read_delimiter_directive_pos :
    (n : ℕ) (s : Splitter) (rest : Text) (d : Text)
    → read_delimiter_directive s rest ≡ some (d, n)
    → 0 < n
unfolding trim_func
read_delimiter_directive_pos zero s rest d h =
    let (e, f) = read_delimiter_directive_line s rest d 0 h in cc
read_delimiter_directive_pos (suc n) s rest d h = omega arith

step_code_shorter :
    (s : Splitter) (c : ℕ) (rest : Text) → length (step_code s c rest).1 ≤ length rest
unfolding step_code
step_code_shorter s c rest = ground (
  arith,
  skip_at_pos s c rest,
  length-drop (length s.delimiter) (c ∷ rest),
  length-drop (skip_at s c rest).0 (c ∷ rest),
)

step_shorter : (s : Splitter) (c : ℕ) (rest : Text) → length (step s c rest).1 ≤ length rest
unfolding step
step_shorter s c rest = elim (Option-cases (read_delimiter_directive s (c ∷ rest))) [
  | inl e ↦ ground (arith, step_code_shorter s c rest)
  | inr ((d, n), e) ↦ ground (
    arith,
    step_code_shorter s c rest,
    read_delimiter_directive_pos n s (c ∷ rest) d e,
    length-drop n (c ∷ rest),
  )
]

-- With as many rounds as there are characters left the loop ends.
pub run_total :
    (fuel : ℕ) (s : Splitter) (rest : Text)
    → length rest ≤ fuel
    → (ws : List Text) × (run fuel s rest ≡ some ws)
unfolding run
run_total zero s [] h = (_, refl)
run_total (suc fuel) s [] h = (_, refl)
run_total zero s (c ∷ rest) h = absurd (omega arith)
run_total (suc fuel) s (c ∷ rest) h =
    run_total fuel (step s c rest).0 (step s c rest).1 (omega (arith, step_shorter s c rest))

-- With as many rounds as the script has characters the loop ends, and its result is what `split`
-- returns.
pub run-split :
    (apply_sql : Text) (engine : Engine)
    → run (length apply_sql) (start (not (is_postgres engine))) apply_sql
      ≡ some (split apply_sql engine)
unfolding split
run-split apply_sql engine =
    let (ws, e) =
      run_total (length apply_sql) (start (not (is_postgres engine))) apply_sql (omega arith) in
    rw e
