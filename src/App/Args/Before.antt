-- ===== src/App/Args/Before.antt =====
-- Which flag the hint names, and when a command refuses its arguments.
use nuzur_cli.Base.{
  ◌≤◌, ◌≡◌, refl, ◌⊎◌, ◌↔◌, inl, inr, Bool, true, false, ◌&&◌, List, [], ◌∷◌, is_nil, arith,
  &&-true, length, if◌then◌else◌,
}
use nuzur_cli.Text.{Text, equal}
use nuzur_cli.Text.Equal.{equal→eq}
use nuzur_cli.App.Args.{flag_from, flag_before, is_bare_flag, stray_args_error, require_one_arg}

-- Somewhere in the command line the flag stands directly before the value.
abbrev pub StandsBefore : Text → Text → List Text → Type 0
StandsBefore flag value [] = ⊥
StandsBefore flag value (a ∷ []) = ⊥
StandsBefore flag value (a ∷ b ∷ argv) =
    ((a ≡ flag) × (b ≡ value)) ⊎ StandsBefore flag value (b ∷ argv)

-- No flag, or one without a value that stands before the value.
abbrev pub Named : Text → List Text → Text → Type 0
Named value argv flag = (flag ≡ []) ⊎ ((is_bare_flag flag ≡ true) × StandsBefore flag value argv)

Named-if :
    (value : Text) (argv : List Text) (b : Bool) (x y : Text)
    → (b ≡ true → Named value argv x)
    → Named value argv y
    → Named value argv (if b then x else y)
Named-if value argv true x y f h = f refl
Named-if value argv false x y f h = h

Named-later :
    (value prev a : Text) (argv : List Text) (flag : Text)
    → Named value (a ∷ argv) flag
    → Named value (prev ∷ a ∷ argv) flag
Named-later value prev a argv flag (inl nothing) = inl nothing
Named-later value prev a argv flag (inr stands) = inr (stands.0, inr stands.1)

flag_from-Named :
    (value prev : Text) (argv : List Text) → Named value (prev ∷ argv) (flag_from value prev argv)
unfolding flag_from
flag_from-Named value prev [] = inl refl
flag_from-Named value prev (a ∷ argv) =
    Named-if value (prev ∷ a ∷ argv) (equal a value && is_bare_flag prev) prev
      (flag_from value a argv)
      (λ here.
        let both = &&-true (equal a value) (is_bare_flag prev) here in
        inr (both.1, inl (refl, equal→eq a value both.0)))
      (Named-later value prev a argv (flag_from value a argv) (flag_from-Named value a argv))

-- The hint names no flag, or one that has no value of its own and stands directly before the value in the command line.
pub flag_before-Named :
    (value : Text) (argv : List Text) → Named value argv (flag_before value argv)
unfolding flag_before
flag_before-Named value [] = inl refl
flag_before-Named value (program ∷ argv) = flag_from-Named value program argv

-- A command that takes one argument is refused exactly if it has more than one.
pub require_one_arg_iff :
    (quote : Text → Text) (command arg_name : Text) (args argv : List Text)
    → (is_nil (require_one_arg quote command arg_name args argv) ≡ true) ↔ (length args ≤ 1)
unfolding require_one_arg stray_args_error
require_one_arg_iff quote command arg_name [] argv = (λ _. omega arith, λ _. refl)
require_one_arg_iff quote command arg_name (a ∷ []) argv = (λ _. omega arith, λ _. refl)
require_one_arg_iff quote command arg_name (a ∷ b ∷ args) argv = ground arith
