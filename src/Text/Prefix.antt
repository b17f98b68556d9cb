-- ===== src/Text/Prefix.antt =====
-- `strings.HasPrefix`.
use nuzur_cli.Base.{◌≡◌, refl, true, [], ◌∷◌, ◌++◌, arith, length, drop}
use nuzur_cli.Text.{Text, has_prefix}

pub has_prefix-append : (p s : Text) → has_prefix (p ++ s) p ≡ true
unfolding has_prefix
has_prefix-append [] s = refl
has_prefix-append (c ∷ p) s = ground (arith, has_prefix-append p s)

pub eq_of_has_prefix : (s p : Text) → has_prefix s p ≡ true → s ≡ p ++ drop (length p) s
unfolding has_prefix
eq_of_has_prefix s [] h = refl
eq_of_has_prefix [] (c ∷ p) h = cc
eq_of_has_prefix (d ∷ s) (c ∷ p) h = ground (arith, eq_of_has_prefix s p)
