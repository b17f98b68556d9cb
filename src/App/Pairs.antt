-- ===== src/App/Pairs.antt =====
-- app/extension_pairs.go: two extensions that do the same job over two connection paths. A map from
-- names is the list of its entries, the first one with a name counts, and nil is the empty map; the
-- zero time is 0.
pub mod Chosen
pub mod Merged
mod Tests
use nuzur_cli.Base.{
  ℕ, Bool, true, false, not, ◌&&◌, ◌||◌, List, [], ◌∷◌, ◌++◌, Option, none, some, if◌then◌else◌,
  is_nil, ltb,
}
use nuzur_cli.Text.{Text, codes, equal, to_lower, trim_space}

pub data ConnectionMode : Type 0 where
  conn_mode_remote conn_mode_local : ConnectionMode

unfoldable pub same_mode : ConnectionMode → ConnectionMode → Bool
same_mode conn_mode_remote conn_mode_remote = true
same_mode conn_mode_local conn_mode_local = true
same_mode _ _ = false

-- None for the error.
unfoldable pub parse_connection_mode : Text → Option ConnectionMode
unfolding equal to_lower
parse_connection_mode s =
    let word = to_lower (trim_space s) in
    if equal word (codes "remote") || equal word (codes "direct")
    then some conn_mode_remote
    else if equal word (codes "local") || equal word (codes "agent")
    then some conn_mode_local
    else none

pub record ExtensionPair : Type 0 where
  pub front : Text
  pub local : Text

abbrev pub extension_pairs : List ExtensionPair
extension_pairs =
    record { front = codes "sql-push"; local = codes "sql-push-local" }
    ∷ record { front = codes "sql-import"; local = codes "sql-import-local" }
    ∷ []

unfoldable pub member_for_mode : ExtensionPair → ConnectionMode → Text
member_for_mode p conn_mode_local = p.local
member_for_mode p conn_mode_remote = p.front

unfoldable pub mode_for_member : ExtensionPair → Text → Option ConnectionMode
unfolding equal
mode_for_member p identifier =
    if equal identifier p.front
    then some conn_mode_remote
    else if equal identifier p.local
    then some conn_mode_local
    else none

-- The first pair of a list that has the member.
unfoldable pub pair_among : List ExtensionPair → Text → Option ExtensionPair
unfolding mode_for_member
pair_among [] identifier = none
pair_among (p ∷ pairs) identifier = elim (mode_for_member p identifier) [
  | none ↦ pair_among pairs identifier
  | some mode ↦ some p
]

unfoldable pub pair_for_identifier : Text → Option ExtensionPair
unfolding pair_among
pair_for_identifier identifier = pair_among extension_pairs identifier

-- `entries[k]`
unfoldable pub value_of : {V : Type 0} → Text → List (Text × V) → Option V
unfolding equal
value_of k [] = none
value_of k ((name, v) ∷ entries) =
    let rest = value_of k entries in if equal k name then some v else rest

unfoldable pub has_key : {V : Type 0} → Text → List (Text × V) → Bool
unfolding value_of
has_key k entries = elim (value_of k entries) [ none ↦ false | some v ↦ true ]

pub record LastUsedEntry (V : Type 0) : Type 0 where
  pub config_values : List (Text × V)
  pub last_used : ℕ

unfoldable pub infer_mode_from_config : {V : Type 0} → List (Text × V) → Option ConnectionMode
unfolding has_key
infer_mode_from_config cfg =
    if is_nil cfg
    then none
    else if has_key (codes "local_agent") cfg
    then some conn_mode_local
    else if has_key (codes "connection") cfg
    then some conn_mode_remote
    else if has_key (codes "store") cfg
    then some conn_mode_remote
    else none

abbrev pub last_used_of : {V : Type 0} → Option (LastUsedEntry V) → LastUsedEntry V
last_used_of none = record { config_values = []; last_used = 0 }
last_used_of (some e) = e

unfoldable pub seed_of :
    {V : Type 0} → Option (LastUsedEntry V) → Option (LastUsedEntry V) → ConnectionMode
seed_of none (some local) = conn_mode_local
seed_of (some remote) (some local) =
    if ltb remote.last_used local.last_used then conn_mode_local else conn_mode_remote
seed_of _ none = conn_mode_remote

unfoldable pub seed_mode_from_last_used :
    {V : Type 0} → ExtensionPair → List (Text × LastUsedEntry V) → ConnectionMode
unfolding seed_of value_of
seed_mode_from_last_used p entries = seed_of (value_of p.front entries) (value_of p.local entries)

-- What `decidePairMember` returns: one of its two errors, a member with its mode, or the mode that the
-- question starts on.
pub data Decision : Type 0 where
  invalid_mode conflicting : Decision
  chosen : Text → ConnectionMode → Decision
  need_prompt : ConnectionMode → Decision

unfoldable pub disagrees : Option ConnectionMode → ConnectionMode → Bool
unfolding same_mode
disagrees none m = false
disagrees (some flag) m = not (same_mode flag m)

unfoldable pub decide_unflagged :
    ExtensionPair → Option ConnectionMode → ConnectionMode → Bool → Decision
unfolding member_for_mode
decide_unflagged p (some mode) seed interactive = chosen (member_for_mode p mode) mode
decide_unflagged p none seed true = need_prompt seed
decide_unflagged p none seed false = chosen (member_for_mode p conn_mode_remote) conn_mode_remote

unfoldable pub decide_by_flag : ExtensionPair → Option ConnectionMode → Decision → Decision
unfolding member_for_mode
decide_by_flag p none rest = rest
decide_by_flag p (some flag) rest = chosen (member_for_mode p flag) flag

unfoldable pub decide_by_name : ExtensionPair → Text → Option ConnectionMode → Decision → Decision
unfolding mode_for_member disagrees equal
decide_by_name p requested flag rest = elim (mode_for_member p requested) [
  | none ↦ rest
  | some mode ↦
      if equal requested p.front
      then rest
      else if disagrees flag mode
      then conflicting
      else chosen requested mode
]

abbrev pub decide_with :
    {V : Type 0}
    → ExtensionPair
    → Text
    → Option ConnectionMode
    → List (Text × V)
    → List (Text × LastUsedEntry V)
    → Bool
    → Decision
decide_with p requested flag cfg entries interactive = decide_by_name p requested flag (
    decide_by_flag p flag (
      decide_unflagged p (infer_mode_from_config cfg) (seed_mode_from_last_used p entries)
        interactive))

-- The flag's mode, and none for its error.
unfoldable pub flag_mode : Text → Option (Option ConnectionMode)
unfolding parse_connection_mode
flag_mode mode_flag =
    if is_nil mode_flag
    then some none
    else elim (parse_connection_mode mode_flag) [ none ↦ none | some m ↦ some (some m) ]

unfoldable pub decide_read :
    {V : Type 0}
    → ExtensionPair
    → Text
    → Option (Option ConnectionMode)
    → List (Text × V)
    → List (Text × LastUsedEntry V)
    → Bool
    → Decision
decide_read p requested none cfg entries interactive = invalid_mode
decide_read p requested (some flag) cfg entries interactive =
    decide_with p requested flag cfg entries interactive

unfoldable pub decide_pair_member :
    {V : Type 0}
    → ExtensionPair
    → Text
    → Text
    → List (Text × V)
    → List (Text × LastUsedEntry V)
    → Bool
    → Decision
unfolding flag_mode decide_read
decide_pair_member p requested mode_flag cfg entries interactive =
    decide_read p requested (flag_mode mode_flag) cfg entries interactive

-- The values of the newer run over those of the older one.
unfoldable pub alias_aware_last_config :
    {V : Type 0} → ExtensionPair → List (Text × LastUsedEntry V) → List (Text × V)
unfolding value_of
alias_aware_last_config p entries =
    let remote = last_used_of (value_of p.front entries) in
    let local = last_used_of (value_of p.local entries) in
    if ltb local.last_used remote.last_used
    then remote.config_values ++ local.config_values
    else local.config_values ++ remote.config_values

abbrev pub is_known : Text → List Text → Bool
is_known k [] = false
is_known k (id ∷ ids) = equal k id || is_known k ids

unfoldable pub filter_config_to_fields :
    {V : Type 0} → List (Text × V) → List Text → List (Text × V)
filter_config_to_fields [] ids = []
filter_config_to_fields ((k, v) ∷ cfg) ids =
    let rest = filter_config_to_fields cfg ids in if is_known k ids then (k, v) ∷ rest else rest
