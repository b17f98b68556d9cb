-- ===== src/ExtensionRun/Poll/Invariant.antt =====
-- The runs of the poll loop (extensionrun/run.go), from what one round keeps.
use nuzur_cli.Base.{
  ◌≡◌, List, [], ◌∷◌, Option-cases, inl, inr, some, All, Bool, Bool-cases, Option, All-append, none,
  true, false, refl,
}
use nuzur_cli.ExtensionRun.Poll.{
  Decider, Session, Report, poll_once, poll, StepOutcome, StepPrompt, StepDecision, outcome, answer,
  confirmation, contains,
}

module _ {S : Type 0} (decide : Decider S) (P : Session S → Type 0)
    (keeps : (s : Session S) (r : Report) → P s → P (poll_once decide s r).0) where
  pub poll_keeps : (rs : List Report) (s : Session S) → P s → P (poll decide s rs).0
  unfolding poll
  poll_keeps [] s p = p
  poll_keeps (r ∷ rs) s p = elim (Option-cases (poll_once decide s r).1) [
    | inl more ↦ rw (more, poll) (poll_keeps rs (poll_once decide s r).0 (keeps s r p))
    | inr (e, done) ↦ rw (done, poll) (keeps s r p)
  ]

-- A round keeps what its decision keeps, and what it adds to the answers sent.
module _ {S : Type 0} (decide : Decider S) (Q : StepOutcome → Type 0)
    (agrees : (state : S) (prompt : StepPrompt) (d : StepDecision)
      → (decide state prompt).1 ≡ some d
      → Q (outcome prompt d)) where
  answer-sent :
      (s : Session S) (prompt : StepPrompt) (accepted : Bool) (state : S) (d : Option StepDecision)
      → ((d' : StepDecision) → d ≡ some d' → Q (outcome prompt d'))
      → All Q s.sent
      → All Q (answer s prompt accepted state d).0.sent
  unfolding answer
  answer-sent s prompt accepted state none q a = a
  answer-sent s prompt true state (some d) q a = All-append Q s.sent _ a (q d refl, tt)
  answer-sent s prompt false state (some d) q a = All-append Q s.sent _ a (q d refl, tt)

  poll_once-sent : (s : Session S) (r : Report) → All Q s.sent → All Q (poll_once decide s r).0.sent
  unfolding poll_once
  poll_once-sent s (confirmation prompt accepted) a =
      elim (Bool-cases (contains prompt.step_identifier s.submitted)) [
        | inl again ↦ rw (again, poll_once) a
        | inr new ↦
            rw (new, poll_once)
              (answer-sent s prompt accepted _ _ (λ d e. agrees s.state prompt d e) a)
      ]
  poll_once-sent s _ a = a

  -- Every answer that a run sends is one of the decider's.
  pub poll-sent :
      (rs : List Report) (s : Session S) → All Q s.sent → All Q (poll decide s rs).0.sent
  poll-sent rs s a = poll_keeps decide (λ t. All Q t.sent) poll_once-sent rs s a
