-- ===== src/Deploy/Tests.antt =====
-- Concrete directories of records, and instances of the theorems about them.
use nuzur_cli.Base.{◌≡◌, refl, [], ◌∷◌, none, some, All, inl, map, ℕ, false, ◌⊎◌, true}
use nuzur_cli.Deploy.Chart.{
  next_chart_version, next_of, is_digits, atoi, bump, next_patch, stamp_chart_version,
  stamp_app_version, version_line, app_version_line, replace_lines, trim_lines, trim_tail,
  is_version_line, is_app_version_line, has_line, read_chart_version,
}
use nuzur_cli.Deploy.Chart.Stamped.{read_chart_version-stamp_chart_version}
use nuzur_cli.Text.{split_on, trim_func, trim_left, is_space, has_prefix, trim_space}
use nuzur_cli.Text.Decimal.{show}
use nuzur_cli.Base.{List}
use nuzur_cli.Deploy.{Deployment, blank}
use nuzur_cli.Deploy.Store.{
  Dir, find, holds, unparsable, mutate_deployment, proceed, write_back, save_deployment,
  load_or_create, load_deployment, last_moment, list_deployments, readable, sort_deployments,
  insert_deployment, has_suffix, writing,
}
use nuzur_cli.Deploy.Store.Kept.{OldOrNew, mutate_deployment-OldOrNew}
use nuzur_cli.Deploy.Store.Loaded.{mutate_deployment-load}
use nuzur_cli.Text.{Text, codes, equal}

abbrev recorded : Text → ℕ → Deployment
recorded id at = record blank { id = id; created_at = at; host = codes "10.0.0.1" }

abbrev records : Dir
records =
    (codes "a.json", holds (recorded (codes "a") 10))
    ∷ (codes "b.json", unparsable)
    ∷ (codes "c.json", holds (recorded (codes "c") 30))
    ∷ (codes "d.json.tmp", holds (recorded (codes "d") 40))
    ∷ []

abbrev pair_agent : Deployment → Deployment
pair_agent r = record r { local_agent_uuid = codes "u-1" }

abbrev paired : Deployment
paired = pair_agent (recorded (codes "a") 10)

lists_newest_first : map (λ r. r.id) (list_deployments records) ≡ codes "c" ∷ codes "a" ∷ []
unfolding list_deployments sort_deployments insert_deployment readable has_suffix equal
lists_newest_first = refl

refuses_unparsable : (mutate_deployment (codes "b") (some pair_agent) none records).moments ≡ []
unfolding mutate_deployment proceed find load_or_create equal
refuses_unparsable = refl

mutates_a : (mutate_deployment (codes "a") (some pair_agent) none records).result ≡ some paired
unfolding mutate_deployment proceed find load_or_create equal write_back save_deployment
mutates_a = refl

mutate_deployment-OldOrNew_example :
    All
      (OldOrNew records (codes "a") pair_agent (codes "a.json"))
      (mutate_deployment (codes "a") (some pair_agent) none records).moments
unfolding equal
mutate_deployment-OldOrNew_example =
    mutate_deployment-OldOrNew (codes "a") pair_agent none records (codes "a.json") refl

mutate_deployment-load_example :
    (load_deployment
        (codes "a")
        (last_moment records (mutate_deployment (codes "a") (some pair_agent) none records).moments)
      ≡ inl paired)
    × (paired.id ≡ codes "a")
mutate_deployment-load_example =
    mutate_deployment-load (codes "a") pair_agent none records paired mutates_a

fails_writing :
    (mutate_deployment (codes "a") (some pair_agent) (some writing) records).result ≡ none
unfolding mutate_deployment proceed find load_or_create equal write_back save_deployment
fails_writing = refl

next_chart_version-bumped : next_chart_version (codes " 1.2.09") ≡ codes "1.2.10"
unfolding next_chart_version next_of is_digits atoi bump next_patch show split_on trim_func
    trim_left is_space
next_chart_version-bumped = refl

next_chart_version-first : next_chart_version (codes "v1.2.3") ≡ codes "0.1.0"
unfolding next_chart_version next_of is_digits atoi bump next_patch show split_on trim_func
    trim_left is_space
next_chart_version-first = refl

abbrev chart : List Text
chart = codes "name: shop" ∷ codes "version: 0.0.1" ∷ [] ∷ []

stamp_chart_version-appended :
    stamp_chart_version (codes "0.1.0") chart
    ≡ some
        (codes "name: shop" ∷ codes "version: 0.1.0" ∷ [] ∷ codes "appVersion: \"0.1.0\"" ∷ [] ∷ [])
unfolding stamp_chart_version stamp_app_version version_line app_version_line replace_lines
    trim_lines trim_tail is_version_line is_app_version_line has_prefix
stamp_chart_version-appended = refl

read_chart_version-stamp_chart_version_example :
    ((has_line is_version_line chart ≡ false) × (stamp_chart_version (codes "0.1.0") chart ≡ none))
    ⊎ ((has_line is_version_line chart ≡ true)
        × ((stamped : List Text) × (stamp_chart_version (codes "0.1.0") chart ≡ some stamped)
            × (read_chart_version stamped ≡ some (trim_space (codes "0.1.0")))))
read_chart_version-stamp_chart_version_example =
    read_chart_version-stamp_chart_version (codes "0.1.0") chart
