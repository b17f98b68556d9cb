-- ===== src/Text/Decimal.antt =====
-- `%d` of package fmt, for numbers that are not negative.
use nuzur_cli.Base.{
  ℕ, zero, suc, ◌+◌, ◌-◌, ◌*◌, ◌/◌, ◌%◌, ◌<◌, ◌≡◌, ap, ◌∙◌, Bool-cases, inl, inr, [], ◌∷◌, ◌++◌,
  ltb, if◌then◌else◌, length, arith,
}
use nuzur_cli.Text.{Text}

-- The digits of `n` in front of `acc`, on fuel for the digits.
unfoldable pub digits_onto : ℕ → ℕ → Text → Text
digits_onto zero n acc = acc
digits_onto (suc fuel) n acc =
    let shorter = digits_onto fuel (n / 10) ((b'0' + n % 10) ∷ acc) in
    if ltb n 10 then (b'0' + n) ∷ acc else shorter

-- A number has no more digits than its successor counts.
unfoldable pub show : ℕ → Text
unfolding digits_onto
show n = digits_onto (suc n) n []

abbrev spaces : ℕ → Text
spaces zero = []
spaces (suc n) = b' ' ∷ spaces n

-- `%4d`
unfoldable pub show_4 : ℕ → Text
unfolding show
show_4 n = spaces (4 - length (show n)) ++ show n

-- Reads digits behind a value.
abbrev pub value_onto : ℕ → Text → ℕ
value_onto v [] = v
value_onto v (c ∷ s) = value_onto (v * 10 + (c - b'0')) s

pub value_onto-digits_onto :
    (fuel n : ℕ) (acc : Text) → n < fuel → value_onto 0 (digits_onto fuel n acc) ≡ value_onto n acc
unfolding digits_onto
value_onto-digits_onto zero n acc h = elim h [ ]
value_onto-digits_onto (suc fuel) n acc h = elim (Bool-cases (ltb n 10)) [
  | inl small ↦ rw small (ap (λ (v : ℕ). value_onto v acc) (omega arith))
  | inr large ↦ rw large (
      value_onto-digits_onto fuel (n / 10) _ (ground arith)
      ∙ ap (λ (v : ℕ). value_onto v acc) (omega arith))
]

-- A number is read back from its digits.
pub value_onto-show : (n : ℕ) → value_onto 0 (show n) ≡ n
unfolding show
value_onto-show n = value_onto-digits_onto (suc n) n [] (omega arith)
