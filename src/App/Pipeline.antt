-- ===== src/App/Pipeline.antt =====
-- app/deploy_pipeline.go: the effects of a step of a deploy, as a set of levels in the bits of a
-- number, and the description of a step. The levels are at most 5, so the set fits into its 8 bits.
pub mod Bits
pub mod Effects
pub mod Order
pub mod Recorded
pub mod Records
pub mod Routes
pub mod Steps
pub mod Stops
mod Tests
pub mod Run
use nuzur_cli.Base.{
  ℕ, zero, suc, ◌+◌, ◌*◌, ◌/◌, ◌%◌, Bool, true, false, List, [], ◌∷◌, ◌++◌, ◌==◌, is_nil,
  if◌then◌else◌,
}
use nuzur_cli.Deploy.{Provider, provider_k8s}
use nuzur_cli.Text.{Text, codes, equal, join}

pub data EffectLevel : Type 0 where
  eff_none eff_local_fs eff_record eff_cloud eff_box eff_provider : EffectLevel

-- The number of a level, as `iota` gives it.
unfoldable pub level : EffectLevel → ℕ
level eff_none = 0
level eff_local_fs = 1
level eff_record = 2
level eff_cloud = 3
level eff_box = 4
level eff_provider = 5

unfoldable pub level_name : EffectLevel → Text
level_name eff_none = codes "none"
level_name eff_local_fs = codes "localFS"
level_name eff_record = codes "record"
level_name eff_cloud = codes "cloud"
level_name eff_box = codes "box"
level_name eff_provider = codes "provider"

-- `s & (1 << k) != 0`
unfoldable pub bit_at : ℕ → ℕ → Bool
bit_at zero s = s % 2 == 1
bit_at (suc k) s = bit_at k (s / 2)

-- `s | 1 << k`
unfoldable pub set_at : ℕ → ℕ → ℕ
set_at zero s = if s % 2 == 1 then s else s + 1
set_at (suc k) s = s % 2 + 2 * set_at k (s / 2)

abbrev pub EffectSet : Type 0
EffectSet = ℕ

abbrev pub add_effects : EffectSet → List EffectLevel → EffectSet
add_effects s [] = s
add_effects s (l ∷ ls) = add_effects (set_at (level l) s) ls

unfoldable pub effects : List EffectLevel → EffectSet
unfolding set_at level
effects = add_effects 0

unfoldable pub has : EffectSet → EffectLevel → Bool
unfolding bit_at level
has s l = bit_at (level l) s

unfoldable pub max_level : EffectSet → EffectLevel
max_level s =
    if has s eff_provider
    then eff_provider
    else if has s eff_box
    then eff_box
    else if has s eff_cloud
    then eff_cloud
    else if has s eff_record
    then eff_record
    else if has s eff_local_fs
    then eff_local_fs
    else eff_none

abbrev pub level_names : EffectSet → List EffectLevel → List Text
unfolding has level_name
level_names s [] = []
level_names s (l ∷ ls) =
    let rest = level_names s ls in if has s l then level_name l ∷ rest else rest

unfoldable pub show_effects : EffectSet → Text
unfolding join
show_effects s =
    let shown =
      level_names s (eff_local_fs ∷ eff_record ∷ eff_cloud ∷ eff_box ∷ eff_provider ∷ []) in
    if is_nil shown then codes "none" else join shown (codes "|")

-- The part of `deployState` that the preconditions of the steps read.
pub record DeployState : Type 0 where
  pub skip_schema : Bool
  pub release_only : Bool
  pub no_commit : Bool
  pub no_wait : Bool
  pub db_only : Bool
  pub from_connection : Bool
  pub reuse_box : Bool
  pub provider : Provider
  pub instance_id : Text

-- `deployStep`, less the method that runs it.
pub record DeployStep : Type 0 where
  pub name : Text
  pub effects : EffectSet
  pub checkpoint : Text
  pub skip : DeployState → Bool

unfoldable pub is_k8s : DeployState → Bool
unfolding equal
is_k8s st = equal st.provider provider_k8s
