-- ===== src/Agent/Semaphore.antt =====
-- agent/semaphore.go. A channel of capacity `n` is the number of slots taken; a call that blocks is
-- a step that is not there.
use nuzur_cli.Base.{
  ℕ, zero, suc, ◌+◌, ◌-◌, ◌≤◌, ◌<◌, ◌≡◌, Bool, true, false, Option, none, some, arith, ltb,
  if◌then◌else◌, ◌↔◌, refl,
}
use nuzur_cli.Base.Int.{ℤ, pos, negsuc}

pub record QuerySemaphore : Type 0 where
  pub taken : ℕ
  pub capacity : ℕ

-- `newQuerySemaphore`; `none` is the nil receiver, which sets no cap.
unfoldable pub new_query_semaphore : ℤ → Option QuerySemaphore
new_query_semaphore (pos zero) = none
new_query_semaphore (negsuc n) = none
new_query_semaphore (pos (suc n)) = some (record { taken = 0; capacity = suc n })

-- How a call of `Acquire` ends. `blocks` is a call that still waits.
pub data Acquired : Type 0 where
  acquired overloaded blocks : Acquired

-- `Acquire`, with what the `select` sees: whether the context is done, and which of two ready cases
-- is taken. With a slot free and the context alive the slot is taken.
unfoldable pub acquire : Option QuerySemaphore → Bool → Bool → Option QuerySemaphore × Acquired
acquire none done prefers_done = (none, acquired)
acquire (some s) done prefers_done =
    let sent : Option QuerySemaphore × Acquired =
      (some (record s { taken = s.taken + 1 }), acquired) in
    if ltb s.taken s.capacity
    then (if done then (if prefers_done then (some s, overloaded) else sent) else sent)
    else if done
    then (some s, overloaded)
    else (some s, blocks)

-- `Release`; the flag says whether it returned. On an empty channel it blocks.
unfoldable pub release : Option QuerySemaphore → Option QuerySemaphore × Bool
release none = (none, true)
release (some s) =
    if ltb 0 s.taken then (some (record s { taken = s.taken - 1 }), true) else (some s, false)

-- The queries of the daemon: how many hold a slot, and how many were refused.
pub record Daemon : Type 0 where
  pub semaphore : Option QuerySemaphore
  pub holders : ℕ
  pub refused : ℕ

-- `some s` is the semaphore that a call leaves.
pub data Step : Daemon → Daemon → Type 0 where
  query_starts :
      {d : Daemon} {s : Option QuerySemaphore} (done prefers_done : Bool)
      → acquire d.semaphore done prefers_done ≡ (s, acquired)
      → Step d (record d { semaphore = s; holders = d.holders + 1 })
  query_refused :
      {d : Daemon} {s : Option QuerySemaphore} (done prefers_done : Bool)
      → acquire d.semaphore done prefers_done ≡ (s, overloaded)
      → Step d (record d { semaphore = s; refused = d.refused + 1 })
  query_ends :
      {d : Daemon} {s : Option QuerySemaphore}
      → 0 < d.holders
      → release d.semaphore ≡ (s, true)
      → Step d (record d { semaphore = s; holders = d.holders - 1 })

pub data Reach (d : Daemon) : Daemon → Type 0 where
  here : Reach d d
  next : {e f : Daemon} → Reach d e → Step e f → Reach d f

abbrev pub idle : ℤ → Daemon
idle capacity = record { semaphore = new_query_semaphore capacity; holders = 0; refused = 0 }

-- The slots taken are the queries in flight, and no more than the capacity.
abbrev pub Sound : ℕ → Option QuerySemaphore → ℕ → Type 0
Sound capacity none holders = ⊥
Sound capacity (some s) holders =
    (s.taken ≡ holders) × (s.taken ≤ s.capacity) × (s.capacity ≡ capacity)

Step-Sound :
    (capacity : ℕ) {d e : Daemon}
    → Step d e
    → Sound capacity d.semaphore d.holders
    → Sound capacity e.semaphore e.holders
unfolding acquire release
Step-Sound capacity {d} (query_starts {s = s} done p e) v = ground arith
Step-Sound capacity {d} (query_refused {s = s} done p e) v = ground arith
Step-Sound capacity {d} (query_ends {s = s} h e) v = ground arith

-- Whatever queries start and end, the slots taken are the queries in flight, and within the cap.
pub Reach-Sound :
    (capacity : ℕ) {d : Daemon}
    → Reach (idle (pos (suc capacity))) d
    → Sound (suc capacity) d.semaphore d.holders
unfolding new_query_semaphore
Reach-Sound capacity here = omega arith
Reach-Sound capacity (next r st) = Step-Sound (suc capacity) st (Reach-Sound capacity r)

release_pos :
    (capacity : ℕ) (s : Option QuerySemaphore) (n : ℕ)
    → Sound capacity s n
    → 0 < n
    → (release s).1 ≡ true
unfolding release
release_pos capacity none n h p = refl
release_pos capacity (some s) n h p = ground arith

-- In every run of the daemon with a positive capacity in which some query is in flight, a release
-- does not block.
pub Reach-release :
    (capacity : ℕ) {d : Daemon}
    → Reach (idle (pos (suc capacity))) d
    → 0 < d.holders
    → (release d.semaphore).1 ≡ true
Reach-release capacity {d} r h =
    release_pos (suc capacity) d.semaphore d.holders (Reach-Sound capacity r) h

blocks_full :
    (capacity : ℕ) (s : Option QuerySemaphore) (n : ℕ)
    → Sound capacity s n
    → ((acquire s false false).1 ≡ blocks) ↔ (n ≡ capacity)
unfolding acquire
blocks_full capacity none n h = absurd h
blocks_full capacity (some s) n h = ground arith

-- In every run of the daemon with a positive capacity, a query with a live context waits exactly
-- when as many queries run as the capacity.
pub Reach-blocks_iff :
    (capacity : ℕ) {d : Daemon}
    → Reach (idle (pos (suc capacity))) d
    → ((acquire d.semaphore false false).1 ≡ blocks) ↔ (d.holders ≡ suc capacity)
Reach-blocks_iff capacity {d} r =
    blocks_full (suc capacity) d.semaphore d.holders (Reach-Sound capacity r)
