-- ===== src/Agent/Requests/Quoted.antt =====
-- The identifiers of `applySchemaToExecer` (agent/handlers.go), as a database reads them.
use nuzur_cli.Base.{
  ℕ, ◌≡◌, refl, sym, subst, false, [], ◌∷◌, ◌++◌, Option, none, some, if◌then◌else◌, arith,
  Bool-cases, inl, inr, ◌==◌, ==_iff, append_assoc,
}
use nuzur_cli.Text.{Text, replace_from, has_prefix}
use nuzur_cli.Agent.Requests.{quoted}

abbrev pub before : ℕ → Option (Text × Text) → Option (Text × Text)
before c none = none
before c (some (name, rest)) = some (c ∷ name, rest)

-- An identifier after its first mark: two marks stand for one, and one ends it. None if it does not end.
abbrev pub read_name : ℕ → Text → Option (Text × Text)
read_name mark [] = none
read_name mark (c ∷ []) = if c == mark then some ([], []) else none
read_name mark (c ∷ d ∷ s) =
    let pair = before mark (read_name mark s) in
    let one = before c (read_name mark (d ∷ s)) in
    if c == mark then (if d == mark then pair else some ([], d ∷ s)) else one

abbrev pub read_identifier : ℕ → Text → Option (Text × Text)
read_identifier mark [] = none
read_identifier mark (c ∷ s) = if c == mark then read_name mark s else none

abbrev pub StartsOther : ℕ → Text → Type 0
StartsOther mark [] = Unit
StartsOther mark (c ∷ s) = (c == mark) ≡ false

abbrev doubled : ℕ → Text → Text
doubled mark name = replace_from 0 (mark ∷ []) (mark ∷ mark ∷ []) name

doubled-nil : (mark : ℕ) → doubled mark [] ≡ []
unfolding replace_from
doubled-nil mark = refl

doubled-mark :
    (mark : ℕ) (name : Text) → doubled mark (mark ∷ name) ≡ mark ∷ mark ∷ doubled mark name
unfolding replace_from has_prefix
doubled-mark mark name = ground arith

doubled-other :
    (mark c : ℕ) (name : Text)
    → (c == mark) ≡ false
    → doubled mark (c ∷ name) ≡ c ∷ doubled mark name
unfolding replace_from has_prefix
doubled-other mark c name other = rw other refl

read-end :
    (mark : ℕ) (rest : Text)
    → StartsOther mark rest
    → read_name mark (mark ∷ rest) ≡ some ([], rest)
read-end mark [] h = ground arith
read-end mark (c ∷ s) h = ground (arith, h)

read-other :
    (mark c : ℕ) (s : Text) (name rest : Text)
    → (c == mark) ≡ false
    → read_name mark s ≡ some (name, rest)
    → read_name mark (c ∷ s) ≡ some (c ∷ name, rest)
read-other mark c [] name rest other h = cc
read-other mark c (d ∷ s) name rest other h = rw other (rw h refl)

read-pair :
    (mark : ℕ) (s name rest : Text)
    → read_name mark s ≡ some (name, rest)
    → read_name mark (mark ∷ mark ∷ s) ≡ some (mark ∷ name, rest)
read-pair mark s name rest h = ground (arith, h)

read-doubled :
    (mark : ℕ) (name rest : Text)
    → StartsOther mark rest
    → read_name mark (doubled mark name ++ (mark ∷ rest)) ≡ some (name, rest)
read-doubled mark [] rest h = rw (doubled-nil mark) (read-end mark rest h)
read-doubled mark (c ∷ name) rest h = elim (Bool-cases (c == mark)) [
  | inl same ↦
      subst
        (λ (x : ℕ).
          read_name mark (doubled mark (x ∷ name) ++ (mark ∷ rest)) ≡ some (x ∷ name, rest))
        (sym ((==_iff c mark).0 same))
        (rw (doubled-mark mark name) (
          read-pair mark (doubled mark name ++ (mark ∷ rest)) name rest
            (read-doubled mark name rest h)))
  | inr other ↦ rw (doubled-other mark c name other) (
      read-other mark c (doubled mark name ++ (mark ∷ rest)) name rest other
        (read-doubled mark name rest h))
]

-- A name that the agent quotes is read back whole, whatever it holds, and what follows it is what followed: a name cannot
-- end the quotation, if the mark does not come next.
pub read_identifier-quoted :
    (mark : ℕ) (name rest : Text)
    → StartsOther mark rest
    → read_identifier mark (quoted mark name ++ rest) ≡ some (name, rest)
unfolding quoted
read_identifier-quoted mark name rest h =
    rw ((==_iff mark mark).1 refl)
      (rw (append_assoc (doubled mark name) (mark ∷ []) rest) (read-doubled mark name rest h))
