-- ===== src/Agent/Daemon.antt =====
-- agent/daemon.go (the loop of `Run`, `nextBackoff`, `runOnce`) and agent/version.go. The comparison of
-- versions of golang.org/x/mod/semver is an argument, a duration is in nanoseconds, and what the
-- stream gives is a list. An error is its text, with the status that `status.FromError` finds in it.
pub mod Waits
mod Tests
use nuzur_cli.Base.{
  ℕ, zero, suc, ◌*◌, ◌^◌, Bool, true, false, not, ◌&&◌, ◌||◌, List, [], ◌∷◌, ◌++◌, Option, none,
  some, if◌then◌else◌, is_nil, ltb, ◌==◌,
}
use nuzur_cli.Text.{Text, codes, equal, has_prefix, index}

-- `semver.IsValid`, and whether `semver.Compare` of two texts is not negative.
pub record Semver : Type 0 where
  pub is_valid : Text → Bool
  pub at_least : Text → Text → Bool

unfoldable pub normalize_semver : Text → Text
unfolding has_prefix
normalize_semver s = if has_prefix s (codes "v") then s else codes "v" ++ s

unfoldable pub cli_version_at_least : Semver → Text → Text → Bool
unfolding normalize_semver equal
cli_version_at_least semver cli_version min_version =
    if equal min_version []
      || (equal min_version (codes "0.0.0") || equal min_version (codes "v0.0.0"))
    then true
    else if equal cli_version []
    then false
    else let v = normalize_semver cli_version in
      let m = normalize_semver min_version in
      if not (semver.is_valid v) || not (semver.is_valid m) then false else semver.at_least v m

abbrev pub cli_version : Text
cli_version = codes "1.13.1"

pub record StreamError : Type 0 where
  pub status : Option ℕ
  pub text : Text

-- `codes.FailedPrecondition` of gRPC.
abbrev pub failed_precondition : ℕ
failed_precondition = 9

unfoldable pub is_failed_precondition_stream : StreamError → Bool
unfolding index
is_failed_precondition_stream e = elim e.status [
  | some code ↦ code == failed_precondition
  | none ↦ elim (index e.text (codes "FailedPrecondition")) [ none ↦ false | some i ↦ true ]
]

-- How a session ends: at the end of the stream, by `ErrCLITooOld`, or by an error.
pub data SessionEnd : Type 0 where
  ended_cleanly cli_too_old : SessionEnd
  ended_with : StreamError → SessionEnd

-- What the first `Recv` gives: an error, a Welcome with its least version, or another message with its type.
pub data FirstMessage : Type 0 where
  recv_failed : StreamError → FirstMessage
  welcome : Text → FirstMessage
  not_welcome : Text → FirstMessage

-- What a stream does: whether it opens and takes the Hello, its first message, the requests that follow,
-- and its end, none for io.EOF.
pub record Stream (R : Type 0) : Type 0 where
  pub open_error : Option StreamError
  pub hello_error : Option StreamError
  pub first : FirstMessage
  pub requests : List R
  pub last : Option StreamError

abbrev pub wrapped : Text → StreamError → StreamError
wrapped prefix e = record e { text = prefix ++ e.text }

-- The read loop hands each request to a goroutine of its own.
unfoldable pub read_loop : {R : Type 0} → List R → Option StreamError → SessionEnd × List R
read_loop requests none = (ended_cleanly, requests)
read_loop requests (some e) = (ended_with e, requests)

unfoldable pub greet :
    {R : Type 0} → Semver → FirstMessage → List R → Option StreamError → SessionEnd × List R
unfolding cli_version_at_least read_loop
greet semver (recv_failed e) requests last = (ended_with (wrapped (codes "recv welcome: ") e), [])
greet semver (not_welcome kind) requests last = (
  ended_with (record {
    status = none;
    text = codes "first message from server was not Welcome (got " ++ (kind ++ codes ")");
  }),
  [],
)
greet semver (welcome min_version) requests last =
    if not (cli_version_at_least semver cli_version min_version)
    then (cli_too_old, [])
    else read_loop requests last

-- The end of the session, and the requests that it handled.
unfoldable pub run_once : {R : Type 0} → Semver → Stream R → SessionEnd × List R
unfolding greet
run_once semver s = elim s.open_error [
  | some e ↦ (ended_with (wrapped (codes "open stream: ") e), [])
  | none ↦ elim s.hello_error [
    | some e ↦ (ended_with (wrapped (codes "send hello: ") e), [])
    | none ↦ greet semver s.first s.requests s.last
  ]
]

abbrev pub reconnect_initial : ℕ
reconnect_initial = 10 ^ 9

abbrev pub reconnect_max : ℕ
reconnect_max = 60 * 10 ^ 9

unfoldable pub next_backoff : ℕ → ℕ
next_backoff cur = let next = cur * 2 in if ltb reconnect_max next then reconnect_max else next

-- One round of the loop: its stream, whether the context is done when the session has failed, and
-- whether it is before the wait is over.
pub record Attempt (R : Type 0) : Type 0 where
  pub stream : Stream R
  pub done_after : Bool
  pub done_waiting : Bool

-- How `Run` ends. With no rounds left to look at it still runs.
pub data RunEnd : Type 0 where
  running cancelled : RunEnd
  failed : SessionEnd → RunEnd

-- The steps of the loop that others see.
pub data LoopEvent : Type 0 where
  dialed rolled_back : LoopEvent
  waits : ℕ → LoopEvent

-- Where a failed session makes the loop return.
unfoldable pub returns : SessionEnd → Bool → Option RunEnd
unfolding is_failed_precondition_stream
returns ended_cleanly done = none
returns cli_too_old done = some (if done then cancelled else failed cli_too_old)
returns (ended_with e) done =
    if done
    then some cancelled
    else if is_failed_precondition_stream e
    then some (failed (ended_with e))
    else none

unfoldable pub backoff_after : SessionEnd → ℕ → ℕ
backoff_after ended_cleanly backoff = reconnect_initial
backoff_after cli_too_old backoff = backoff
backoff_after (ended_with e) backoff = backoff

-- A round of the loop, with the events and the end of the rounds after it.
unfoldable pub round : Option RunEnd → Bool → ℕ → List LoopEvent × RunEnd → List LoopEvent × RunEnd
round (some r) done_waiting wait rest = (dialed ∷ [], r)
round none true wait rest = (dialed ∷ rolled_back ∷ waits wait ∷ [], cancelled)
round none false wait rest = (dialed ∷ rolled_back ∷ waits wait ∷ rest.0, rest.1)

-- The loop of `Run`, from a backoff on.
unfoldable pub run_loop : {R : Type 0} → Semver → ℕ → List (Attempt R) → List LoopEvent × RunEnd
unfolding run_once returns backoff_after next_backoff round
run_loop semver backoff [] = ([], running)
run_loop semver backoff (a ∷ attempts) =
    let end = (run_once semver a.stream).0 in
    let wait = backoff_after end backoff in
    round (returns end a.done_after) a.done_waiting wait
      (run_loop semver (next_backoff wait) attempts)

unfoldable pub run_daemon : {R : Type 0} → Semver → List (Attempt R) → List LoopEvent × RunEnd
unfolding run_loop
run_daemon semver attempts = run_loop semver reconnect_initial attempts
