-- ===== src/App/Pipeline/Effects.antt =====
-- Sets of effects: what is in a set, and which of its levels is the highest.
use nuzur_cli.Base.{
  ◌≡◌, refl, ◌∙◌, ap, ◌⊎◌, true, false, Bool, ◌||◌, List, [], ◌∷◌, ◌==◌, ◌≤◌, arith,
}
use nuzur_cli.App.Pipeline.{
  EffectLevel, EffectSet, level, effects, add_effects, has, max_level, set_at, eff_none,
  eff_local_fs, eff_record, eff_cloud, eff_box, eff_provider,
}
use nuzur_cli.App.Pipeline.Bits.{bit_at-set_at, bit_at-empty}

-- Whether a level is in a list.
abbrev pub listed : EffectLevel → List EffectLevel → Bool
unfolding level
listed l [] = false
listed l (m ∷ ms) = (level m == level l) || listed l ms

or_swap : {r : Bool} (a b c : Bool) → r ≡ (b || (a || c)) → r ≡ ((a || b) || c)
or_swap a b c h = h ∙ ground arith

or_false : (b : Bool) → (b || false) ≡ b
or_false b = ground arith

add_effects-has :
    (ls : List EffectLevel) (s : EffectSet) (l : EffectLevel)
    → has (add_effects s ls) l ≡ (listed l ls || has s l)
unfolding has
add_effects-has [] s l = refl
add_effects-has (m ∷ ms) s l =
    let ih = add_effects-has ms (set_at (level m) s) l in
    let one = bit_at-set_at (level l) (level m) s in
    or_swap (level m == level l) (listed l ms) (has s l) (ih ∙ ap (λ b. listed l ms || b) one)

-- Whatever levels a step declares, its set has a level exactly if the level is one of them.
pub effects-has : (ls : List EffectLevel) (l : EffectLevel) → has (effects ls) l ≡ listed l ls
unfolding effects has
effects-has ls l = add_effects-has ls 0 l ∙ rw (bit_at-empty (level l)) (or_false (listed l ls))

max_level-upper : (s : EffectSet) (l : EffectLevel) → has s l ≡ true → level l ≤ level (max_level s)
unfolding max_level level
max_level-upper s eff_none h = ground arith
max_level-upper s eff_local_fs h = ground arith
max_level-upper s eff_record h = ground arith
max_level-upper s eff_cloud h = ground arith
max_level-upper s eff_box h = ground arith
max_level-upper s eff_provider h = ground arith

max_level-has : (s : EffectSet) → (max_level s ≡ eff_none) ⊎ (has s (max_level s) ≡ true)
unfolding max_level
max_level-has s = ground arith

-- The highest level of a set is at least as high as each level that the set has, and the set has it unless it is `eff_none`.
pub max_level-greatest :
    (s : EffectSet)
    → ((l : EffectLevel) → has s l ≡ true → level l ≤ level (max_level s))
      × ((max_level s ≡ eff_none) ⊎ (has s (max_level s) ≡ true))
max_level-greatest s = (max_level-upper s, max_level-has s)
