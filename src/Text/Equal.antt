-- ===== src/Text/Equal.antt =====
-- Equality of strings as a test and as a path.
use nuzur_cli.Base.{true, ◌≡◌, refl, ap, ◌∷◌, [], ◌==◌, ==_iff, &&-true, arith, ◌∙◌}
use nuzur_cli.Text.{Text, equal}

pub equal_refl : (s : Text) → equal s s ≡ true
unfolding equal
equal_refl [] = refl
equal_refl (x ∷ s) = ground (arith, equal_refl s)

pub equal→eq : (s t : Text) → equal s t ≡ true → s ≡ t
unfolding equal
equal→eq [] [] h = refl
equal→eq [] (y ∷ t) h = ground (arith, h)
equal→eq (x ∷ s) [] h = ground (arith, h)
equal→eq (x ∷ s) (y ∷ t) h =
    let both = &&-true (x == y) (equal s t) h in
    ap (λ z. z ∷ s) ((==_iff x y).0 both.0) ∙ ap (λ r. y ∷ r) (equal→eq s t both.1)
