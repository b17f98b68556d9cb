-- ===== src/ExtensionRun/Poll/Distinct.antt =====
-- The steps that a run of the poll loop answers (extensionrun/run.go).
use nuzur_cli.Base.{
  ◌≡◌, List, [], ◌∷◌, Bool-cases, inl, inr, Bool, Option, none, some, true, false, refl, arith,
  length, length-append,
}
use nuzur_cli.ExtensionRun.Poll.{
  outcome, Decider, Session, Report, poll_once, poll, StepPrompt, StepDecision, answer,
  confirmation, contains, open_session,
}
use nuzur_cli.ExtensionRun.Poll.Invariant.{poll_keeps}
use nuzur_cli.Text.{Text}

-- No identifier stands in the list twice.
abbrev pub Distinct : List Text → Type 0
Distinct [] = Unit
Distinct (x ∷ xs) = (contains x xs ≡ false) × Distinct xs

module _ {S : Type 0} (decide : Decider S) where
  abbrev IsOnce : Session S → Type 0
  IsOnce s = Distinct s.submitted × (length s.submitted ≡ length s.steps)

  answer-IsOnce :
      (s : Session S) (prompt : StepPrompt) (accepted : Bool) (state : S) (d : Option StepDecision)
      → contains prompt.step_identifier s.submitted ≡ false
      → IsOnce s
      → IsOnce (answer s prompt accepted state d).0
  unfolding answer
  answer-IsOnce s prompt accepted state none new v = v
  answer-IsOnce s prompt false state (some d) new v = v
  answer-IsOnce s prompt true state (some d) new v =
      ((new, v.0), ground (arith, v.1, length-append s.steps (outcome prompt d ∷ [])))

  poll_once-IsOnce : (s : Session S) (r : Report) → IsOnce s → IsOnce (poll_once decide s r).0
  unfolding poll_once
  poll_once-IsOnce s (confirmation prompt accepted) v =
      elim (Bool-cases (contains prompt.step_identifier s.submitted)) [
        | inl again ↦ rw (again, poll_once) v
        | inr new ↦ rw (new, poll_once) (answer-IsOnce s prompt accepted _ _ new v)
      ]
  poll_once-IsOnce s _ v = v

  -- In every run no step is submitted twice, and as many steps are recorded as were submitted.
  pub poll-Distinct :
      (state : S) (reports : List Report)
      → Distinct (poll decide (open_session state) reports).0.submitted
        × (length (poll decide (open_session state) reports).0.submitted
            ≡ length (poll decide (open_session state) reports).0.steps)
  poll-Distinct state reports =
      poll_keeps decide IsOnce poll_once-IsOnce reports (open_session state) (tt, refl)
