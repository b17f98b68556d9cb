-- ===== src/Agent/Daemon/Tests.antt =====
-- Concrete runs of the daemon's loop, and an instance of the theorem about it.
use nuzur_cli.Base.{◌≡◌, refl, ℕ, ◌*◌, ◌^◌, true, false, List, [], ◌∷◌, ◌++◌, none, some, map}
use nuzur_cli.Text.{codes, equal, has_prefix}
use nuzur_cli.Agent.Daemon.{
  Semver, StreamError, welcome, recv_failed, Attempt, dialed, rolled_back, waits, running, failed,
  ended_with, cli_version_at_least, normalize_semver, run_once, greet, read_loop, run_daemon,
  run_loop, round, returns, backoff_after, next_backoff, is_failed_precondition_stream,
}
use nuzur_cli.Agent.Daemon.Waits.{cycles, streaks, clean, run_daemon-returns}

-- Versions that are valid if they start with a `v` and another character, and are all the same.
abbrev same_versions : Semver
same_versions = record { is_valid = λ v. has_prefix v (codes "v"); at_least = λ v m. equal v m }

abbrev lost : StreamError
lost = record { status = some 14; text = codes "unavailable" }

abbrev refused : StreamError
refused = record { status = some 9; text = codes "too old" }

abbrev session : StreamError → Attempt ℕ
session e = record {
  stream = record {
    open_error = some e;
    hello_error = none;
    first = recv_failed e;
    requests = [];
    last = none;
  };
  done_after = false;
  done_waiting = false;
}

abbrev peaceful : Attempt ℕ
peaceful = record {
  stream = record {
    open_error = none;
    hello_error = none;
    first = welcome (codes "0.0.0");
    requests = 1 ∷ [];
    last = none;
  };
  done_after = false;
  done_waiting = false;
}

cli_version_at_least-unset : cli_version_at_least same_versions [] (codes "v0.0.0") ≡ true
unfolding cli_version_at_least equal
cli_version_at_least-unset = refl

cli_version_at_least-normalized :
    cli_version_at_least same_versions (codes "v0.0.11") (codes "0.0.11") ≡ true
unfolding cli_version_at_least equal has_prefix normalize_semver
cli_version_at_least-normalized = refl

-- After a session that ended cleanly the next one that fails is followed by two seconds, not one.
run_daemon-clean_then_lost : run_daemon same_versions (peaceful ∷ session lost ∷ []) ≡ (
  dialed ∷ rolled_back ∷ waits (1 * 10 ^ 9) ∷ dialed ∷ rolled_back ∷ waits (2 * 10 ^ 9) ∷ [],
  running,
)
unfolding run_daemon run_loop run_once returns backoff_after next_backoff round greet read_loop
    cli_version_at_least equal is_failed_precondition_stream
run_daemon-clean_then_lost = refl

abbrev retried_two : List (Attempt ℕ)
retried_two = session lost ∷ session lost ∷ []

run_daemon-returns_example : run_daemon same_versions (retried_two ++ (session refused ∷ [])) ≡ (
  cycles (streaks 0 (map (clean same_versions) retried_two)) ++ (dialed ∷ []),
  failed (ended_with (record refused { text = codes "open stream: too old" })),
)
unfolding run_once returns is_failed_precondition_stream
run_daemon-returns_example =
    run_daemon-returns same_versions retried_two [] (session refused)
      (failed (ended_with (record refused { text = codes "open stream: too old" })))
      ((refl, refl), ((refl, refl), tt)) refl
