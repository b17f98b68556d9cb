-- ===== src/App/Targeting.antt =====
-- app/deploy_targeting.go: which record of an earlier deploy is meant, and the sentences about it.
pub mod Box
pub mod Picks
pub mod Decided
pub mod LastRun
pub mod Selector
pub mod Adopted
mod Tests
use nuzur_cli.Base.{
  ℕ, Bool, true, false, not, ◌&&◌, ◌||◌, List, [], ◌∷◌, ◌++◌, Option, none, some, if◌then◌else◌,
  is_nil, ltb, leb, take, ◌==◌,
}
use nuzur_cli.Deploy.{
  Provider, Deployment, provider_k8s, creates_infrastructure, step_rank, step_agent_paired,
  step_finalized,
}
use nuzur_cli.Deploy.Store.{has_suffix}
use nuzur_cli.Text.{Text, codes, equal, trim_space, index_any, to_lower, within}

-- The records, one after the other: a record replaces the match if there is none or if it is newer.
unfoldable pub newer : Option Deployment → Deployment → Option Deployment
newer none d = some d
newer (some m) d = if ltb m.created_at d.created_at then some d else some m

unfoldable pub pick_from :
    (Deployment → Bool) → Option Deployment → List Deployment → Option Deployment
unfolding newer
pick_from p match [] = match
pick_from p match (d ∷ ds) = pick_from p (if p d then newer match d else match) ds

abbrev pub is_prior : Text → Text → Deployment → Bool
unfolding equal step_rank
is_prior host identifier d =
    (equal d.host host && equal d.identifier identifier)
    && (equal d.provider provider_k8s
        || not (is_nil d.local_agent_uuid)
        || leb (step_rank step_agent_paired) (step_rank d.last_completed_step))

unfoldable pub pick_prior_deployment : List Deployment → Text → Text → Option Deployment
unfolding pick_from
pick_prior_deployment deps host identifier = pick_from (is_prior host identifier) none deps

abbrev pub has_agent_on : Text → Deployment → Bool
unfolding equal
has_agent_on host d = equal d.host host && not (is_nil d.local_agent_uuid)

abbrev pub agent_of : Option Deployment → Text
agent_of none = []
agent_of (some d) = d.local_agent_uuid

unfoldable pub pick_box_agent : List Deployment → Text → Text
unfolding pick_from
pick_box_agent deps host = agent_of (pick_from (has_agent_on host) none deps)

-- `firstNonEmpty`
unfoldable pub first_non_empty : List Text → Text
first_non_empty [] = []
first_non_empty ([] ∷ vs) = first_non_empty vs
first_non_empty ((c ∷ v) ∷ vs) = c ∷ v

unfoldable pub known_agent_uuid : Option Deployment → Text → Option Deployment → Text
unfolding first_non_empty
known_agent_uuid prior box_agent adopted =
    first_non_empty (agent_of prior ∷ box_agent ∷ agent_of adopted ∷ [])

abbrev pub is_managed : Text → Text → Deployment → Bool
unfolding equal
is_managed project identifier d =
    equal d.identifier identifier
    && (not (
          not (is_nil d.project_uuid) && not (is_nil project) && not (equal d.project_uuid project))
        && creates_infrastructure d.provider)

unfoldable pub pick_managed_box : List Deployment → Text → Text → Option Deployment
unfolding pick_from
pick_managed_box deps project identifier = pick_from (is_managed project identifier) none deps

unfoldable pub first_line : Text → Text
unfolding index_any
first_line s = elim (index_any (λ c. c == b'\n') s) [
  | none ↦ s
  | some n ↦ trim_space (take n s) ++ codes " …"
]

unfoldable pub end_sentence : Text → Text
unfolding has_suffix
end_sentence s =
    if is_nil s
    then []
    else if has_suffix s (codes ".")
        || has_suffix s (codes "!")
        || has_suffix s (codes "?")
        || has_suffix s (codes "…")
        || has_suffix s (codes ":")
    then s
    else s ++ codes "."

unfoldable pub spaced : Text → Text
spaced sentence = if is_nil sentence then [] else b' ' ∷ sentence

unfoldable pub host_suffix : Text → Text
host_suffix host = let h = trim_space host in if is_nil h then [] else codes " on " ++ h

-- The sentence for a step and an error, not both empty.
unfoldable pub died_after : Text → Text → Text
died_after [] error =
    codes "The last run of this deployment failed before it recorded any step: " ++ error
died_after (c ∷ step) [] =
    codes "The last run of this deployment died after '" ++ ((c ∷ step) ++ codes "'.")
died_after (c ∷ step) (e ∷ error) =
    codes "The last run of this deployment died after '"
    ++ ((c ∷ step) ++ (codes "': " ++ (e ∷ error)))

unfoldable pub run_fact : Text → Text → Text
unfolding died_after end_sentence first_line
run_fact step error =
    if is_nil step && is_nil error
    then []
    else if is_nil error && leb (step_rank step_finalized) (step_rank step)
    then []
    else died_after step (end_sentence (first_line error))

unfoldable pub last_run_fact : Option Deployment → Text
unfolding run_fact
last_run_fact none = []
last_run_fact (some r) = run_fact (trim_space r.last_completed_step) (trim_space r.last_error)

-- `sanitizeDBName` of app/command_deploy.go
abbrev pub db_name_char : ℕ → ℕ
db_name_char c = if within b'a' b'z' c || within b'0' b'9' c || c == b'_' then c else b'_'

unfoldable pub map_name : Text → Text
map_name [] = []
map_name (c ∷ s) = db_name_char c ∷ map_name s

unfoldable pub sanitize_db_name : Text → Text
unfolding map_name
sanitize_db_name id = let out = map_name (to_lower id) in if is_nil out then codes "app" else out

-- `planIdentifier`; the second text is the identifier in the generator's configuration, if any.
unfoldable pub plan_identifier : Text → Text → Text → Text
unfolding first_non_empty sanitize_db_name
plan_identifier flag config project_name =
    first_non_empty (flag ∷ config ∷ sanitize_db_name project_name ∷ [])

unfoldable pub deploy_schema_name : Text → Text → Text → Text
unfolding first_non_empty equal
deploy_schema_name engine db_name db_schema =
    if equal engine (codes "postgres")
    then first_non_empty (db_schema ∷ codes "public" ∷ [])
    else db_name
