-- ===== src/Text/Fields.antt =====
-- The words of a text, and of words that are joined by blanks.
use nuzur_cli.Base.{ℕ, ◌≡◌, refl, false, List, [], ◌∷◌, ◌++◌, Bool-cases, inl, inr, All}
use nuzur_cli.Text.{Text, codes, fields, is_space, starts_word, onto_first, join}

abbrev pub NoSpace : Text → Type 0
NoSpace = All (λ c. is_space c ≡ false)

abbrev pub IsWord : Text → Type 0
IsWord [] = ⊥
IsWord (c ∷ s) = (is_space c ≡ false) × NoSpace s

onto_first-IsWord :
    (c : ℕ) (ws : List Text) → is_space c ≡ false → All IsWord ws → All IsWord (onto_first c ws)
onto_first-IsWord c [] h words = ((h, tt), tt)
onto_first-IsWord c ([] ∷ ws) h words = absurd words.0
onto_first-IsWord c ((d ∷ w) ∷ ws) h words = ((h, words.0), words.1)

pub fields-IsWord : (s : Text) → All IsWord (fields s)
unfolding fields
fields-IsWord [] = tt
fields-IsWord (c ∷ s) = elim (Bool-cases (is_space c)) [
  | inl blank ↦ rw blank (fields-IsWord s)
  | inr solid ↦ elim (Bool-cases (starts_word s)) [
    | inl more ↦ rw solid (rw more (onto_first-IsWord c (fields s) solid (fields-IsWord s)))
    | inr last ↦ rw solid (rw last ((solid, tt), fields-IsWord s))
  ]
]

-- A word before a blank.
fields_blank : (w rest : Text) → IsWord w → fields (w ++ (b' ' ∷ rest)) ≡ w ∷ fields rest
unfolding fields is_space
fields_blank [] rest h = absurd h
fields_blank (c ∷ []) rest h = rw h.0 refl
fields_blank (c ∷ d ∷ w) rest h = rw (fields_blank (d ∷ w) rest h.1) (rw h.0 (rw (h.1.0) refl))

fields_word : (w : Text) → IsWord w → fields w ≡ w ∷ []
unfolding fields
fields_word [] h = absurd h
fields_word (c ∷ []) h = rw h.0 refl
fields_word (c ∷ d ∷ w) h = rw (fields_word (d ∷ w) h.1) (rw h.0 (rw (h.1.0) refl))

pub fields-join : (ws : List Text) → All IsWord ws → fields (join ws (codes " ")) ≡ ws
unfolding fields join
fields-join [] h = refl
fields-join (w ∷ []) h = fields_word w h.0
fields-join (w ∷ v ∷ ws) h =
    rw (fields_blank w (join (v ∷ ws) (codes " ")) h.0) (rw (fields-join (v ∷ ws) h.1) refl)
