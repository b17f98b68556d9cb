-- ===== src/Agent/Requests/Released.antt =====
-- The slots and connections that a handler takes.
use nuzur_cli.Agent.Daemon.{rolled_back}
use nuzur_cli.Base.{ℕ, zero, suc, ◌<◌, ◌≡◌, List, [], ◌∷◌, ◌++◌, ◌⊎◌, inl, inr}
use nuzur_cli.Text.{Text}
use nuzur_cli.Agent.TxPool.{TxPool, get}
use nuzur_cli.Agent.Rows.{begin_tx_response}
use nuzur_cli.Agent.Requests.{
  Queryer, on_db, on_conn, on_tx, World, Effect, took_slot, freed_slot, took_conn, freed_conn, ran,
  get, rolled_back, begin_tx_response,
}

abbrev pub less : ℕ → ℕ
less zero = zero
less (suc n) = n

-- With some slots and connections held, the events free no more than is held, run a statement on a connection only while it is
-- held, and leave none held.
abbrev pub Frees : {C V : Type 0} → ℕ → ℕ → List (Effect C V) → Type 0
Frees slots conns [] = (slots ≡ 0) × (conns ≡ 0)
Frees slots conns (took_slot ∷ es) = Frees (suc slots) conns es
Frees slots conns (freed_slot ∷ es) = (0 < slots) × Frees (less slots) conns es
Frees slots conns (took_conn ∷ es) = Frees slots (suc conns) es
Frees slots conns (freed_conn ∷ es) = (0 < conns) × Frees slots (less conns) es
Frees slots conns (ran on_conn sql ∷ es) = (0 < conns) × Frees slots conns es
Frees slots conns (_ ∷ es) = Frees slots conns es

-- The events lead from some connections held to others, at any point of a run that frees the rest.
abbrev Takes : {C V : Type 0} → (ℕ → ℕ) → List (Effect C V) → Type 0
Takes {C} {V} f es =
    (slots conns : ℕ) (rest : List (Effect C V))
    → Frees slots (f conns) rest
    → Frees slots conns (es ++ rest)

-- The connections held with those of a queryer.
abbrev with_conns : Queryer → ℕ → ℕ
with_conns on_conn conns = suc conns
with_conns on_db conns = conns
with_conns (on_tx tx) conns = conns

module _ {C V : Type 0} (w : World C V) where
  -- A resolution that fails holds nothing, and one that does not holds what its queryer does.
  abbrev Holds : List (Effect C V) × (Text ⊎ Queryer) → Type 0
  Holds (es, inl e) = Takes (λ conns. conns) es
  Holds (es, inr q) = Takes (with_conns q) es
