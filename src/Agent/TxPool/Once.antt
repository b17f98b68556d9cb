-- ===== src/Agent/TxPool/Once.antt =====
-- The entries of the pool (agent/txpool.go), counted.
use nuzur_cli.Base.{
  ℕ, ◌+◌, ◌≡◌, ◌==◌, [], ◌∷◌, arith, none, List, count_if, if◌then◌else◌, some, map, refl, Bool,
  not, select,
}
use nuzur_cli.Agent.TxPool.{TxEntry, TxPool, lookup, delete, get, pop, tx_of, touch, find}

pub lookup-delete :
    (id k : ℕ) (m : List (ℕ × TxEntry))
    → lookup k (delete id m) ≡ (if id == k then none else lookup k m)
unfolding lookup delete
lookup-delete id k [] = ground arith
lookup-delete id k ((j, e) ∷ m) = ground (arith, lookup-delete id k m)

-- After a `Pop` of an id neither a second `Pop` nor `Get` finds it.
pub pop_twice :
    (id now : ℕ) (p : TxPool)
    → ((pop id (pop id p).0).1 ≡ none) × ((get id now (pop id p).0).1 ≡ none)
unfolding pop get find
pop_twice id now p = ground (arith, lookup-delete id id p.txs)

-- How often a transaction stands in a list.
abbrev pub times : ℕ → List ℕ → ℕ
times t = count_if (λ x. x == t)

abbrev pub live : TxPool → List ℕ
live p = map tx_of p.txs

-- Each id is bound once.
abbrev pub Unique : List (ℕ × TxEntry) → Type 0
Unique [] = Unit
Unique ((k, e) ∷ m) = (lookup k m ≡ none) × Unique m

pub delete_missing : (id : ℕ) (m : List (ℕ × TxEntry)) → lookup id m ≡ none → delete id m ≡ m
unfolding lookup delete
delete_missing id [] h = refl
delete_missing id ((k, e) ∷ m) h = ground (arith, delete_missing id m)

pub delete-Unique : (id : ℕ) (m : List (ℕ × TxEntry)) → Unique m → Unique (delete id m)
unfolding lookup delete
delete-Unique id [] u = tt
delete-Unique id ((k, e) ∷ m) u = ground (arith, delete-Unique id m u.1, lookup-delete id k m)

pub delete-times :
    (t id : ℕ) (m : List (ℕ × TxEntry)) (e : TxEntry)
    → Unique m
    → lookup id m ≡ some e
    → times t (map tx_of m) ≡ (if e.tx == t then 1 else 0) + times t (map tx_of (delete id m))
unfolding lookup delete
delete-times t id [] e u h = cc
delete-times t id ((k, x) ∷ m) e u h =
    ground (arith, delete-times t id m e u.1, delete_missing k m u.0)

pub touch-txs : (id now : ℕ) (m : List (ℕ × TxEntry)) → map tx_of (touch id now m) ≡ map tx_of m
unfolding touch
touch-txs id now [] = refl
touch-txs id now ((k, e) ∷ m) = ground (arith, touch-txs id now m)

touch-lookup :
    (id now k : ℕ) (m : List (ℕ × TxEntry)) → lookup k m ≡ none → lookup k (touch id now m) ≡ none
unfolding lookup touch
touch-lookup id now k [] h = refl
touch-lookup id now k ((j, e) ∷ m) h = ground (arith, touch-lookup id now k m)

pub touch-Unique : (id now : ℕ) (m : List (ℕ × TxEntry)) → Unique m → Unique (touch id now m)
unfolding touch
touch-Unique id now [] u = tt
touch-Unique id now ((k, e) ∷ m) u =
    ground (arith, touch-Unique id now m u.1, touch-lookup id now k m u.0)

module _ (keep : ℕ × TxEntry → Bool) where
  pub select-lookup :
      (k : ℕ) (m : List (ℕ × TxEntry)) → lookup k m ≡ none → lookup k (select keep m) ≡ none
  unfolding lookup
  select-lookup k [] h = refl
  select-lookup k ((j, e) ∷ m) h = ground (arith, select-lookup k m)

  pub select-Unique : (m : List (ℕ × TxEntry)) → Unique m → Unique (select keep m)
  select-Unique [] u = tt
  select-Unique ((k, e) ∷ m) u = ground (arith, select-Unique m u.1, select-lookup k m u.0)

  -- The two parts of a list share it out.
  pub select-times :
      (t : ℕ) (m : List (ℕ × TxEntry))
      → times t (map tx_of m)
        ≡ times t (map tx_of (select (λ x. not (keep x)) m)) + times t (map tx_of (select keep m))
  select-times t [] = refl
  select-times t (x ∷ m) = ground (arith, select-times t m)
