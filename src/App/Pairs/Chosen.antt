-- ===== src/App/Pairs/Chosen.antt =====
-- Which member of a pair is chosen.
use nuzur_cli.Base.{
  ◌≡◌, refl, sym, ◌⊎◌, inl, inr, Bool, true, false, List, Option, none, some, Bool-cases, subst,
  if◌then◌else◌,
}
use nuzur_cli.Text.{Text, equal}
use nuzur_cli.Text.Equal.{equal→eq}
use nuzur_cli.App.Pairs.{
  ExtensionPair, ConnectionMode, conn_mode_remote, conn_mode_local, LastUsedEntry, Decision,
  invalid_mode, conflicting, chosen, need_prompt, member_for_mode, mode_for_member,
  decide_unflagged, decide_by_flag, decide_by_name, decide_with, decide_pair_member, disagrees,
  same_mode, infer_mode_from_config, seed_mode_from_last_used, flag_mode, decide_read,
}

-- A chosen member is the pair's for its mode, and the mode is the flag's if there is one; a question is
-- asked only without a flag and of a person, and a flag is in conflict only if it names the other mode.
abbrev pub Obeys : ExtensionPair → Option ConnectionMode → Bool → Decision → Type 0
Obeys p flag interactive invalid_mode = ⊥
Obeys p flag interactive conflicting = flag ≡ some conn_mode_remote
Obeys p flag interactive (chosen id mode) =
    (id ≡ member_for_mode p mode) × ((flag ≡ none) ⊎ (flag ≡ some mode))
Obeys p flag interactive (need_prompt seed) = (flag ≡ none) × (interactive ≡ true)

by_flag-Obeys :
    (p : ExtensionPair) (flag inferred : Option ConnectionMode) (seed : ConnectionMode)
    (interactive : Bool)
    → Obeys p flag interactive
        (decide_by_flag p flag (decide_unflagged p inferred seed interactive))
unfolding decide_by_flag decide_unflagged
by_flag-Obeys p (some m) inferred seed interactive = (refl, inr refl)
by_flag-Obeys p none (some m) seed interactive = (refl, inl refl)
by_flag-Obeys p none none seed true = (refl, refl)
by_flag-Obeys p none none seed false = (refl, inl refl)

-- The agent's member named outright.
local-Obeys :
    (p : ExtensionPair) (flag : Option ConnectionMode) (interactive : Bool)
    → Obeys p flag interactive
        (if disagrees flag conn_mode_local then conflicting else chosen p.local conn_mode_local)
unfolding disagrees same_mode member_for_mode
local-Obeys p none interactive = (refl, inl refl)
local-Obeys p (some conn_mode_local) interactive = (refl, inr refl)
local-Obeys p (some conn_mode_remote) interactive = refl

front-rest :
    (p : ExtensionPair) (requested : Text) (flag : Option ConnectionMode) (rest : Decision)
    → equal requested p.front ≡ true
    → decide_by_name p requested flag rest ≡ rest
unfolding decide_by_name mode_for_member
front-rest p requested flag rest is = rw (decide_by_name, mode_for_member, is, is) refl

neither-rest :
    (p : ExtensionPair) (requested : Text) (flag : Option ConnectionMode) (rest : Decision)
    → equal requested p.front ≡ false
    → equal requested p.local ≡ false
    → decide_by_name p requested flag rest ≡ rest
unfolding decide_by_name mode_for_member
neither-rest p requested flag rest is_not other =
    rw (decide_by_name, mode_for_member, is_not, other) refl

local-named :
    (p : ExtensionPair) (requested : Text) (flag : Option ConnectionMode) (rest : Decision)
    → equal requested p.front ≡ false
    → equal requested p.local ≡ true
    → decide_by_name p requested flag rest
      ≡ (if disagrees flag conn_mode_local then conflicting else chosen requested conn_mode_local)
unfolding decide_by_name mode_for_member
local-named p requested flag rest is_not is_local =
    rw (decide_by_name, mode_for_member, is_not, is_local, is_not) refl

by_name-Obeys :
    (p : ExtensionPair) (requested : Text) (flag : Option ConnectionMode) (interactive : Bool)
    (rest : Decision)
    → Obeys p flag interactive rest
    → Obeys p flag interactive (decide_by_name p requested flag rest)
by_name-Obeys p requested flag interactive rest h = elim (Bool-cases (equal requested p.front)) [
  | inl is ↦ subst (Obeys p flag interactive) (sym (front-rest p requested flag rest is)) h
  | inr is_not ↦ elim (Bool-cases (equal requested p.local)) [
    | inl is_local ↦
        subst (Obeys p flag interactive) (sym (local-named p requested flag rest is_not is_local)) (
          subst
            (λ id.
              Obeys p flag interactive
                (if disagrees flag conn_mode_local then conflicting else chosen id conn_mode_local))
            (sym (equal→eq requested p.local is_local)) (local-Obeys p flag interactive))
    | inr other ↦
        subst (Obeys p flag interactive) (sym (neither-rest p requested flag rest is_not other)) h
  ]
]

with-Obeys :
    {V : Type 0} (p : ExtensionPair) (requested : Text) (flag : Option ConnectionMode)
    (cfg : List (Text × V)) (entries : List (Text × LastUsedEntry V)) (interactive : Bool)
    → Obeys p flag interactive (decide_with p requested flag cfg entries interactive)
with-Obeys p requested flag cfg entries interactive = by_name-Obeys p requested flag interactive _ (
    by_flag-Obeys p flag (infer_mode_from_config cfg) (seed_mode_from_last_used p entries)
      interactive)

abbrev pub Sound : ExtensionPair → Option (Option ConnectionMode) → Bool → Decision → Type 0
Sound p none interactive d = d ≡ invalid_mode
Sound p (some flag) interactive d = Obeys p flag interactive d

read-Sound :
    {V : Type 0} (p : ExtensionPair) (requested : Text) (flag : Option (Option ConnectionMode))
    (cfg : List (Text × V)) (entries : List (Text × LastUsedEntry V)) (interactive : Bool)
    → Sound p flag interactive (decide_read p requested flag cfg entries interactive)
unfolding decide_read
read-Sound p requested none cfg entries interactive = refl
read-Sound p requested (some flag) cfg entries interactive =
    with-Obeys p requested flag cfg entries interactive

-- A flag that is no mode is refused, and no other; else a chosen member is the one of the pair for its
-- mode, which is the flag's if there is a flag; a person is asked only in an interactive run without a
-- flag; and a flag is in conflict only if it says remote.
pub decide_pair_member-Sound :
    {V : Type 0} (p : ExtensionPair) (requested mode_flag : Text) (cfg : List (Text × V))
    (entries : List (Text × LastUsedEntry V)) (interactive : Bool)
    → Sound p
        (flag_mode mode_flag)
        interactive
        (decide_pair_member p requested mode_flag cfg entries interactive)
unfolding decide_pair_member
decide_pair_member-Sound p requested mode_flag cfg entries interactive =
    read-Sound p requested (flag_mode mode_flag) cfg entries interactive
