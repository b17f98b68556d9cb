-- ===== src/Text/Trim.antt =====
-- `strings.TrimFunc` and the ends of a text.
use nuzur_cli.Base.{
  ℕ, Bool, false, ◌≡◌, refl, ap, ◌∙◌, inl, inr, [], ◌∷◌, ◌++◌, List-cases, arith, Bool-cases,
}
use nuzur_cli.Text.{Text, trim_left, trim_right, trim_func}

-- The character at the front, or at the end, does not pass the test.
abbrev pub StartsClear : (ℕ → Bool) → Text → Type 0
StartsClear p [] = Unit
StartsClear p (c ∷ s) = p c ≡ false

abbrev pub EndsClear : (ℕ → Bool) → Text → Type 0
EndsClear p [] = Unit
EndsClear p (c ∷ []) = p c ≡ false
EndsClear p (c ∷ d ∷ s) = EndsClear p (d ∷ s)

module _ (p : ℕ → Bool) where
  trim_left_suffix : (s : Text) → (a : Text) × (s ≡ a ++ trim_left p s)
  unfolding trim_left
  trim_left_suffix [] = ([], refl)
  trim_left_suffix (c ∷ s) = elim (Bool-cases (p c)) [
    | inl blank ↦ let (a, e) = trim_left_suffix s in (c ∷ a, rw blank (ap (◌∷◌ c) e))
    | inr clear ↦ ([], rw clear)
  ]

  trim_right_prefix : (s : Text) → (b : Text) × (s ≡ trim_right p s ++ b)
  unfolding trim_right
  trim_right_prefix [] = ([], refl)
  trim_right_prefix (c ∷ s) =
      let (b, e) = trim_right_prefix s in
      elim (List-cases (trim_right p s)) [
        | inl none ↦ elim (Bool-cases (p c)) [
          | inl blank ↦ (c ∷ s, ground arith)
          | inr clear ↦ (s, ground arith)
        ]
        | inr (d, r, some) ↦ (b, ground arith)
      ]

  trim_left-StartsClear : (s : Text) → StartsClear p (trim_left p s)
  unfolding trim_left
  trim_left-StartsClear [] = tt
  trim_left-StartsClear (c ∷ s) = elim (Bool-cases (p c)) [
    | inl blank ↦ rw blank (trim_left-StartsClear s)
    | inr clear ↦ rw clear clear
  ]

  trim_right-StartsClear : (s : Text) → StartsClear p s → StartsClear p (trim_right p s)
  unfolding trim_right
  trim_right-StartsClear [] h = tt
  trim_right-StartsClear (c ∷ s) h = ground arith

  trim_right-EndsClear : (s : Text) → EndsClear p (trim_right p s)
  unfolding trim_right
  trim_right-EndsClear [] = tt
  trim_right-EndsClear (c ∷ s) = ground (arith, trim_right-EndsClear s)

-- What was trimmed stands round the result.
pub trim_func_infix :
    (p : ℕ → Bool) (s : Text) → (a : Text) × (b : Text) × (s ≡ a ++ (trim_func p s ++ b))
unfolding trim_func
trim_func_infix p s =
    let (a, e) = trim_left_suffix p s in
    let (b, f) = trim_right_prefix p (trim_left p s) in (a, b, e ∙ ap (λ (t : Text). a ++ t) f)

pub trim_func_clear :
    (p : ℕ → Bool) (s : Text) → StartsClear p (trim_func p s) × EndsClear p (trim_func p s)
unfolding trim_func
trim_func_clear p s = (
  trim_right-StartsClear p (trim_left p s) (trim_left-StartsClear p s),
  trim_right-EndsClear p (trim_left p s),
)

trim_right_id : (p : ℕ → Bool) (s : Text) → EndsClear p s → trim_right p s ≡ s
unfolding trim_right
trim_right_id p [] h = refl
trim_right_id p (c ∷ []) h = ground arith
trim_right_id p (c ∷ d ∷ s) h = ground (arith, trim_right_id p (d ∷ s) h)

-- Trimming leaves a text alone whose ends are clear.
pub trim_func_id : (p : ℕ → Bool) (s : Text) → StartsClear p s → EndsClear p s → trim_func p s ≡ s
unfolding trim_func trim_left trim_right
trim_func_id p [] h k = refl
trim_func_id p (c ∷ s) h k = rw (h, trim_left) (trim_right_id p (c ∷ s) k)
