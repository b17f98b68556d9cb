-- ===== src/SqlPlan/Split/Substrings.antt =====
-- Where the statements that `Split` returns stand in the script (sqlplan/split.go).
use mathlib.Core.List.{reverse, reverse-append, reverse-reverse}
use mathlib.Core.Option.{some-injective}
use nuzur_cli.Base.{
  ℕ, zero, suc, ◌≡◌, ◌≢◌, refl, sym, ap, ◌∙◌, subst, ◌&&◌, inl, inr, Bool, false, List, [], ◌∷◌,
  ◌++◌, append-nil, append_assoc, none, some, not, if◌then◌else◌, arith, length, is_nil, drop,
  take-append-drop, All, All-append, Bool-cases, Option-cases,
}
use nuzur_cli.SqlPlan.Split.{
  Splitter, behind, flush, advance, move_start, read_delimiter_directive, step_code, step, run,
  start, split,
}
use nuzur_cli.SqlPlan.Split.Progress.{run-split}
use nuzur_cli.SqlPlan.Types.{Engine, is_postgres}
use nuzur_cli.Text.{Text, has_prefix, trim_space, is_space}
use nuzur_cli.Text.Trim.{StartsClear, EndsClear, trim_func_infix, trim_func_clear}

-- The texts stand in `src`, in this order and without overlap.
abbrev pub InOrder : List Text → Text → Type 0
InOrder [] src = Unit
InOrder (w ∷ ws) src = (gap : Text) × (rest : Text) × (src ≡ gap ++ (w ++ rest)) × InOrder ws rest

InOrder-append : (ws : List Text) (s t : Text) → InOrder ws s → InOrder ws (s ++ t)
InOrder-append [] s t h = tt
InOrder-append (w ∷ ws) s t (gap, rest, e, h) =
    (gap, rest ++ t, rw e (simp append_assoc), InOrder-append ws rest t h)

InOrder-concat :
    (ws : List Text) (s a w b : Text)
    → InOrder ws s
    → InOrder (ws ++ (w ∷ [])) (s ++ (a ++ (w ++ b)))
InOrder-concat [] s a w b h = (s ++ a, b, simp append_assoc, tt)
InOrder-concat (v ∷ ws) s a w b (gap, rest, e, h) =
    (gap, rest ++ (a ++ (w ++ b)), rw e (simp append_assoc), InOrder-concat ws rest a w b h)

-- Not empty, and with no white space at either end.
pub record IsStatement (w : Text) : Type 0 where
  pub ne_nil : w ≢ []
  pub starts_clear : StartsClear is_space w
  pub ends_clear : EndsClear is_space w

record Inv (s : Splitter) : Type 0 where
  ordered : InOrder s.out (reverse s.done)
  statements : All IsStatement s.out

-- The whole script, of which the splitter has `rest` left.
abbrev whole : Splitter → Text → Text
whole s rest = reverse (behind s) ++ rest

whole-advance :
    (n : ℕ) (s : Splitter) (rest : Text) → whole (advance n rest s) (drop n rest) ≡ whole s rest
unfolding advance
whole-advance n s rest = simp (reverse-append, reverse-reverse, append_assoc, take-append-drop)

trim_space-IsStatement : (s : Text) → is_nil (trim_space s) ≡ false → IsStatement (trim_space s)
trim_space-IsStatement s h =
    let (l, r) = trim_func_clear is_space s in
    record { ne_nil = λ e. cc (ap is_nil e); starts_clear = l; ends_clear = r }

flush-Inv : (s : Splitter) → Inv s → Inv (flush s)
unfolding flush
flush-Inv s v =
    let statement = trim_space (reverse s.cur) in
    elim (Bool-cases (s.has_code && not (is_nil statement))) [
      | inl kept ↦
          let (a, b, e) = trim_func_infix is_space (reverse s.cur) in
          let stated = trim_space-IsStatement (reverse s.cur) (ground arith) in
          record {
            ordered =
                rw (kept, reverse-append)
                  (subst (λ t. InOrder (s.out ++ (statement ∷ [])) (reverse s.done ++ t)) (sym e)
                    (InOrder-concat s.out (reverse s.done) a statement b v.ordered));
            statements = rw kept (All-append IsStatement s.out _ v.statements (stated, tt));
          }
      | inr dropped ↦ record {
        ordered = rw (dropped, reverse-append) (InOrder-append s.out (reverse s.done) _ v.ordered);
        statements = rw dropped v.statements;
      }
    ]

move_start-Inv : (s : Splitter) → Inv s → Inv (move_start s)
unfolding move_start
move_start-Inv s v = record {
  ordered = rw reverse-append (InOrder-append s.out (reverse s.done) _ v.ordered);
  statements = v.statements;
}

-- A round keeps the invariant, and the whole script.
record Keeps (s : Splitter) (rest : Text) (next : Splitter × Text) : Type 0 where
  inv : Inv next.0
  whole_eq : whole next.0 next.1 ≡ whole s rest

advance-Inv : (n : ℕ) (rest : Text) (s : Splitter) → Inv s → Inv (advance n rest s)
unfolding advance
advance-Inv n rest s v = record { ordered = v.ordered; statements = v.statements }

whole-move_start : (s : Splitter) (rest : Text) → whole (move_start s) rest ≡ whole s rest
unfolding move_start
whole-move_start s rest = refl

whole-flush : (s : Splitter) (rest : Text) → whole (flush s) rest ≡ whole s rest
unfolding flush
whole-flush s rest = refl

cuts-Keeps :
    (n : ℕ) (s : Splitter) (rest : Text)
    → Inv s
    → Keeps s rest (move_start (advance n rest (flush s)), drop n rest)
cuts-Keeps n s rest v = record {
  inv = move_start-Inv (advance n rest (flush s)) (advance-Inv n rest (flush s) (flush-Inv s v));
  whole_eq =
      whole-move_start (advance n rest (flush s)) (drop n rest)
      ∙ whole-advance n (flush s) rest
      ∙ whole-flush s rest;
}

passes-Keeps :
    (n : ℕ) (b : Bool) (s : Splitter) (rest : Text)
    → Inv s
    → Keeps s rest (advance n rest (record s { has_code = b }), drop n rest)
passes-Keeps n b s rest v = record {
  inv =
      advance-Inv n rest (record s { has_code = b })
        (record { ordered = v.ordered; statements = v.statements });
  whole_eq = whole-advance n (record s { has_code = b }) rest;
}

directs-Keeps :
    (n : ℕ) (d : Text) (s : Splitter) (rest : Text)
    → Inv s
    → Keeps s rest (move_start (advance n rest (record s { delimiter = d })), drop n rest)
directs-Keeps n d s rest v = record {
  inv = move_start-Inv (advance n rest (record s { delimiter = d })) (
      advance-Inv n rest (record s { delimiter = d })
        (record { ordered = v.ordered; statements = v.statements }));
  whole_eq =
      whole-move_start (advance n rest (record s { delimiter = d })) (drop n rest)
      ∙ whole-advance n (record s { delimiter = d }) rest;
}

step_code-Keeps :
    (s : Splitter) (c : ℕ) (rest : Text) → Inv s → Keeps s (c ∷ rest) (step_code s c rest)
unfolding step_code
step_code-Keeps s c rest v =
    elim (Bool-cases (not (is_nil s.delimiter) && has_prefix (c ∷ rest) s.delimiter)) [
      | inl cuts ↦ rw (cuts, step_code) (cuts-Keeps (length s.delimiter) s (c ∷ rest) v)
      | inr goes ↦ rw (goes, step_code) (passes-Keeps _ _ s (c ∷ rest) v)
    ]

step-Keeps : (s : Splitter) (c : ℕ) (rest : Text) → Inv s → Keeps s (c ∷ rest) (step s c rest)
unfolding step
step-Keeps s c rest v =
    elim (Option-cases
      (if not s.has_code && s.mysql then read_delimiter_directive s (c ∷ rest) else none)) [
        | inl e ↦ rw (e, step) (step_code-Keeps s c rest v)
        | inr ((d, n), e) ↦ rw (e, step) (directs-Keeps n d s (c ∷ rest) v)
      ]

-- What the loop returns from a state, for a script `src`.
pub record IsSplit (src : Text) (ws : List Text) : Type 0 where
  pub ordered : InOrder ws src
  pub statements : All IsStatement ws

end-IsSplit : (s : Splitter) → Inv s → IsSplit (whole s []) (flush s).out
unfolding flush
end-IsSplit s v =
    let w = flush-Inv s v in record { ordered = rw append-nil w.ordered; statements = w.statements }

run-IsSplit :
    (fuel : ℕ) (s : Splitter) (rest : Text) (ws : List Text)
    → Inv s
    → run fuel s rest ≡ some ws
    → IsSplit (whole s rest) ws
unfolding run
run-IsSplit zero s [] ws v e = subst (IsSplit (whole s [])) (some-injective _ _ e) (end-IsSplit s v)
run-IsSplit (suc fuel) s [] ws v e =
    subst (IsSplit (whole s [])) (some-injective _ _ e) (end-IsSplit s v)
run-IsSplit zero s (c ∷ rest) ws v e = cc
run-IsSplit (suc fuel) s (c ∷ rest) ws v e =
    let k = step-Keeps s c rest v in
    rw (← k.whole_eq) (run-IsSplit fuel (step s c rest).0 (step s c rest).1 ws k.inv e)

-- For every script and engine, the statements stand in the script in the order of the list and
-- without overlap; none is empty, and none has white space at an end.
pub split-IsSplit :
    (apply_sql : Text) (engine : Engine) → IsSplit apply_sql (split apply_sql engine)
split-IsSplit apply_sql engine =
    run-IsSplit (length apply_sql) (start (not (is_postgres engine))) apply_sql _
      (record { ordered = tt; statements = tt }) (run-split apply_sql engine)
