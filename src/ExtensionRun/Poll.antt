-- ===== src/ExtensionRun/Poll.antt =====
-- extensionrun/run.go: `pollExtensionExecution`, the loop that follows an execution and answers its
-- confirmation steps. The server's answers to the polls are a list of reports; the waits, the token
-- and the printed lines are left out.
pub mod Invariant
pub mod Distinct
use nuzur_cli.Base.{
  ℕ, Bool, true, false, ◌||◌, List, [], ◌∷◌, ◌++◌, Option, none, some, if◌then◌else◌,
}
use nuzur_cli.Text.{Text, equal}

pub record StepPrompt : Type 0 where
  pub step_identifier : Text
  pub content : Text

pub record StepDecision : Type 0 where
  pub confirm : Bool
  pub reason : Text

pub record StepOutcome : Type 0 where
  pub prompt : StepPrompt
  pub confirmed : Bool
  pub reason : Text

-- A decider answers a prompt, or fails with `none`; it may keep a state.
abbrev pub Decider : Type 0 → Type 0
Decider S = S → StepPrompt → S × Option StepDecision

-- What a poll brings. A confirmation says too whether the server will accept the answer; a success
-- says whether the final data is there and good.
pub data Report : Type 0 where
  poll_failed : Report
  execution_succeeded : Bool → Report
  execution_failed : Report
  execution_cancelled : Report
  confirmation : StepPrompt → Bool → Report
  in_progress : Report

-- How the loop returns.
pub data Ending : Type 0 where
  succeeded : Ending
  failed : Ending
  cancelled : Ending

pub record Session (S : Type 0) : Type 0 where
  pub state : S
  pub submitted : List Text
  pub steps : List StepOutcome
  -- every answer handed to `submitStep`, accepted or not
  pub sent : List StepOutcome

unfoldable pub contains : Text → List Text → Bool
unfolding equal
contains id [] = false
contains id (x ∷ xs) = equal x id || contains id xs

abbrev pub outcome : StepPrompt → StepDecision → StepOutcome
outcome prompt d = record { prompt = prompt; confirmed = d.confirm; reason = d.reason }

module _ {S : Type 0} where
  -- The answer to a step that was not answered before.
  unfoldable pub answer :
      Session S → StepPrompt → Bool → S → Option StepDecision → Session S × Option Ending
  answer s prompt accepted state none = (record s { state = state }, some failed)
  answer s prompt accepted state (some d) =
      if accepted
      then (
        record s {
          state = state;
          submitted = prompt.step_identifier ∷ s.submitted;
          steps = s.steps ++ (outcome prompt d ∷ []);
          sent = s.sent ++ (outcome prompt d ∷ []);
        },
        none,
      )
      else (record s { state = state; sent = s.sent ++ (outcome prompt d ∷ []) }, some failed)

  -- One round of the loop; `none` goes round again.
  unfoldable pub poll_once : Decider S → Session S → Report → Session S × Option Ending
  unfolding contains answer
  poll_once decide s poll_failed = (s, some failed)
  poll_once decide s (execution_succeeded final) = (s, some (if final then succeeded else failed))
  poll_once decide s execution_failed = (s, some failed)
  poll_once decide s execution_cancelled = (s, some cancelled)
  poll_once decide s (confirmation prompt accepted) =
      let decided = decide s.state prompt in
      if contains prompt.step_identifier s.submitted
      then (s, none)
      else answer s prompt accepted decided.0 decided.1
  poll_once decide s in_progress = (s, none)

  -- The loop over the reports; `none` means that it still waits for the next one.
  unfoldable pub poll : Decider S → Session S → List Report → Session S × Option Ending
  unfolding poll_once
  poll decide s [] = (s, none)
  poll decide s (r ∷ rs) =
      let next = poll_once decide s r in
      elim next.1 [ some e ↦ (next.0, some e) | none ↦ poll decide next.0 rs ]

  abbrev pub open_session : S → Session S
  open_session state = record { state = state; submitted = []; steps = []; sent = [] }
