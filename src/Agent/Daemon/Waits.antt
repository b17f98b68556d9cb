-- ===== src/Agent/Daemon/Waits.antt =====
-- How long the loop of agent/daemon.go waits between its sessions.
use native.Mathlib.Nat.{pow-suc}
use nuzur_cli.Base.{
  ℕ, suc, ◌*◌, ◌^◌, ◌≡◌, refl, ap, ◌∙◌, Bool, true, false, List, [], ◌∷◌, ◌++◌, none, some,
  if◌then◌else◌, map, ltb, arith, All,
}
use nuzur_cli.Agent.Daemon.{
  Semver, Attempt, LoopEvent, dialed, rolled_back, waits, SessionEnd, ended_cleanly, cli_too_old,
  ended_with, run_once, returns, backoff_after, next_backoff, run_loop, run_daemon, RunEnd, round,
}

-- The loop goes on after the round: neither its error nor the context ends it.
abbrev pub Retried : {R : Type 0} → Semver → Attempt R → Type 0
Retried semver a =
    (returns (run_once semver a.stream).0 a.done_after ≡ none) × (a.done_waiting ≡ false)

abbrev pub is_clean : SessionEnd → Bool
is_clean ended_cleanly = true
is_clean _ = false

-- How many sessions there were since the last one that ended cleanly, that one included; from a number on.
abbrev pub streaks : ℕ → List Bool → List ℕ
streaks n [] = []
streaks n (clean ∷ cs) = let k = if clean then 0 else n in k ∷ streaks (suc k) cs

-- A second, doubled for each session of the streak, and a minute at most.
abbrev pub wait_of : ℕ → ℕ
wait_of k = (if ltb 60 (2 ^ k) then 60 else 2 ^ k) * 10 ^ 9

abbrev pub cycle : ℕ → List LoopEvent
cycle k = dialed ∷ rolled_back ∷ waits (wait_of k) ∷ []

abbrev pub cycles : List ℕ → List LoopEvent
cycles [] = []
cycles (k ∷ ks) = cycle k ++ cycles ks

next_backoff-wait_of : (k : ℕ) → next_backoff (wait_of k) ≡ wait_of (suc k)
unfolding next_backoff
next_backoff-wait_of k = let p : 2 ^ suc k ≡ 2 ^ k * 2 = pow-suc 2 k in ground (arith, p)

backoff_after-wait_of :
    (e : SessionEnd) (k : ℕ) → backoff_after e (wait_of k) ≡ wait_of (if is_clean e then 0 else k)
unfolding backoff_after
backoff_after-wait_of ended_cleanly k = refl
backoff_after-wait_of cli_too_old k = refl
backoff_after-wait_of (ended_with e) k = refl

abbrev pub clean : {R : Type 0} → Semver → Attempt R → Bool
clean semver a = is_clean (run_once semver a.stream).0

-- The streak after some sessions.
abbrev pub streak_after : ℕ → List Bool → ℕ
streak_after n [] = n
streak_after n (clean ∷ cs) = streak_after (suc (if clean then 0 else n)) cs

Retried-step :
    {R : Type 0} (semver : Semver) (k : ℕ) (a : Attempt R) (attempts : List (Attempt R))
    → Retried semver a
    → let n : ℕ = (if clean semver a then 0 else k) in
      let rest = run_loop semver (wait_of (suc n)) attempts in
      run_loop semver (wait_of k) (a ∷ attempts) ≡ (cycle n ++ rest.0, rest.1)
unfolding run_loop round
Retried-step semver k a attempts h = rw h.0 (
    rw h.1 (
      rw (backoff_after-wait_of (run_once semver a.stream).0 k)
        (rw (next_backoff-wait_of (if clean semver a then 0 else k)) refl)))

run_loop-cycles :
    {R : Type 0} (semver : Semver) (k : ℕ) (attempts more : List (Attempt R))
    → All (Retried semver) attempts
    → let ends = map (clean semver) attempts in
      let rest = run_loop semver (wait_of (streak_after k ends)) more in
      run_loop semver (wait_of k) (attempts ++ more) ≡ (cycles (streaks k ends) ++ rest.0, rest.1)
run_loop-cycles semver k [] more h = refl
run_loop-cycles semver k (a ∷ attempts) more h =
    let n : ℕ = (if clean semver a then 0 else k) in
    Retried-step semver k a (attempts ++ more) h.0
    ∙ ap (λ (r : List LoopEvent × RunEnd). (cycle n ++ r.0, r.1))
        (run_loop-cycles semver (suc n) attempts more h.1)

returned :
    {R : Type 0} (semver : Semver) (backoff : ℕ) (a : Attempt R) (more : List (Attempt R))
    (end : RunEnd)
    → returns (run_once semver a.stream).0 a.done_after ≡ some end
    → run_loop semver backoff (a ∷ more) ≡ (dialed ∷ [], end)
unfolding run_loop round
returned semver backoff a more end last = rw last refl

-- After rounds that are retried, and then one that is not: each session is followed by a rollback of
-- all transactions and a wait of a second, doubled for each session since the last one that ended cleanly,
-- that one included, to a minute at most; the round that is not retried is the last one that dials,
-- and its result is what `Run` returns.
pub run_daemon-returns :
    {R : Type 0} (semver : Semver) (attempts more : List (Attempt R)) (a : Attempt R) (end : RunEnd)
    → All (Retried semver) attempts
    → returns (run_once semver a.stream).0 a.done_after ≡ some end
    → run_daemon semver (attempts ++ (a ∷ more))
      ≡ (cycles (streaks 0 (map (clean semver) attempts)) ++ (dialed ∷ []), end)
unfolding run_daemon
run_daemon-returns semver attempts more a end h last =
    run_loop-cycles semver 0 attempts (a ∷ more) h
    ∙ ap
        (λ (r : List LoopEvent × RunEnd).
          (cycles (streaks 0 (map (clean semver) attempts)) ++ r.0, r.1))
        (returned semver (wait_of (streak_after 0 (map (clean semver) attempts))) a more end last)
