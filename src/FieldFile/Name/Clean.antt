-- ===== src/FieldFile/Name/Clean.antt =====
-- The cleaned name of a file (fieldfile/name.go).
use nuzur_cli.Base.{
  ℕ, ◌≡◌, Bool, true, false, [], ◌∷◌, All, arith, refl, ◌&&◌, none, Bool-cases, if◌then◌else◌, inl,
  inr,
}
use nuzur_cli.Text.{Text, trim_left, trim_right, trim_func, to_lower}
use nuzur_cli.Text.Trim.{StartsClear, EndsClear, trim_func_clear, trim_func_id}
use nuzur_cli.FieldFile.Name.{
  is_name_char, is_underscore, replace_non_name, starts_underscore, collapse_runs, clean_name,
  last_dot,
}

abbrev pub NameChars : Text → Type 0
NameChars = All (λ c. is_name_char c ≡ true)

-- No two underscores stand side by side.
abbrev pub SingleUnderscores : Text → Type 0
SingleUnderscores [] = Unit
SingleUnderscores (c ∷ s) = ((is_underscore c && starts_underscore s) ≡ false) × SingleUnderscores s

-- Small letters, digits and single underscores, none at an end.
pub record IsCleanName (s : Text) : Type 0 where
  pub chars : NameChars s
  pub single : SingleUnderscores s
  pub starts : StartsClear is_underscore s
  pub ends : EndsClear is_underscore s

replace_non_name-NameChars : (s : Text) → NameChars (replace_non_name s)
unfolding replace_non_name
replace_non_name-NameChars [] = tt
replace_non_name-NameChars (c ∷ s) = (ground arith, replace_non_name-NameChars s)

collapse_runs-NameChars : (s : Text) → NameChars s → NameChars (collapse_runs s)
unfolding collapse_runs
collapse_runs-NameChars [] h = tt
collapse_runs-NameChars (c ∷ s) h = ground (arith, collapse_runs-NameChars s h.1)

collapse_runs-starts : (s : Text) → starts_underscore (collapse_runs s) ≡ starts_underscore s
unfolding collapse_runs
collapse_runs-starts [] = refl
collapse_runs-starts (c ∷ s) = ground (arith, collapse_runs-starts s)

collapse_runs-SingleUnderscores : (s : Text) → SingleUnderscores (collapse_runs s)
unfolding collapse_runs
collapse_runs-SingleUnderscores [] = tt
collapse_runs-SingleUnderscores (c ∷ s) =
    ground (arith, collapse_runs-SingleUnderscores s, collapse_runs-starts s)

module _ (p : ℕ → Bool) where
  trim_left-NameChars : (s : Text) → NameChars s → NameChars (trim_left p s)
  unfolding trim_left
  trim_left-NameChars [] h = tt
  trim_left-NameChars (c ∷ s) h = ground (arith, trim_left-NameChars s h.1)

  trim_right-NameChars : (s : Text) → NameChars s → NameChars (trim_right p s)
  unfolding trim_right
  trim_right-NameChars [] h = tt
  trim_right-NameChars (c ∷ s) h = ground (arith, trim_right-NameChars s h.1)

  trim_left-SingleUnderscores : (s : Text) → SingleUnderscores s → SingleUnderscores (trim_left p s)
  unfolding trim_left
  trim_left-SingleUnderscores [] h = tt
  trim_left-SingleUnderscores (c ∷ s) h = ground (arith, trim_left-SingleUnderscores s h.1)

  trim_right-starts :
      (s : Text) → starts_underscore s ≡ false → starts_underscore (trim_right p s) ≡ false
  unfolding trim_right
  trim_right-starts [] h = refl
  trim_right-starts (c ∷ s) h = ground arith

  trim_right-pair :
      (c : ℕ) (s : Text)
      → (is_underscore c && starts_underscore s) ≡ false
      → (is_underscore c && starts_underscore (trim_right p s)) ≡ false
  trim_right-pair c s h = elim (Bool-cases (is_underscore c)) [
    | inl is ↦ ground (arith, trim_right-starts s)
    | inr isnt ↦ ground (arith, isnt)
  ]

  trim_right-SingleUnderscores :
      (s : Text) → SingleUnderscores s → SingleUnderscores (trim_right p s)
  unfolding trim_right
  trim_right-SingleUnderscores [] h = tt
  trim_right-SingleUnderscores (c ∷ s) h =
      keeps (trim_right p s) (trim_right-SingleUnderscores s h.1) (trim_right-pair c s h.0)
    where
      keeps :
          (r : Text)
          → SingleUnderscores r
          → (is_underscore c && starts_underscore r) ≡ false
          → SingleUnderscores (elim r [ [] ↦ if p c then [] else c ∷ [] | d ∷ q ↦ c ∷ d ∷ q ])
      keeps [] u k = elim (Bool-cases (p c)) [ inl cut ↦ rw cut tt | inr kept ↦ rw kept (k, tt) ]
      keeps (d ∷ q) u k = (k, u)

-- Whatever the text, its cleaned name is clean.
pub clean_name-IsCleanName : (s : Text) → IsCleanName (clean_name s)
unfolding clean_name trim_func
clean_name-IsCleanName s =
    let t = collapse_runs (replace_non_name s) in
    let (starts, ends) = trim_func_clear is_underscore t in
    record {
      chars = trim_right-NameChars is_underscore _ (
          trim_left-NameChars is_underscore t
            (collapse_runs-NameChars _ (replace_non_name-NameChars s)));
      single = trim_right-SingleUnderscores is_underscore _ (
          trim_left-SingleUnderscores is_underscore t
            (collapse_runs-SingleUnderscores (replace_non_name s)));
      starts = starts;
      ends = ends;
    }

replace_non_name_id : (s : Text) → NameChars s → replace_non_name s ≡ s
unfolding replace_non_name
replace_non_name_id [] h = refl
replace_non_name_id (c ∷ s) h = ground (arith, replace_non_name_id s h.1)

collapse_runs_id : (s : Text) → SingleUnderscores s → collapse_runs s ≡ s
unfolding collapse_runs
collapse_runs_id [] h = refl
collapse_runs_id (c ∷ s) h = ground (arith, collapse_runs_id s h.1)

-- A clean name is left alone.
pub clean_name_id : (s : Text) → IsCleanName s → clean_name s ≡ s
unfolding clean_name
clean_name_id s h =
    rw (replace_non_name_id s h.chars, collapse_runs_id s h.single)
      (trim_func_id is_underscore s h.starts h.ends)

pub to_lower_id : (s : Text) → NameChars s → to_lower s ≡ s
unfolding to_lower
to_lower_id [] h = refl
to_lower_id (c ∷ s) h = ground (arith, to_lower_id s h.1)

pub last_dot-none : (s : Text) → NameChars s → last_dot s ≡ none
unfolding last_dot
last_dot-none [] h = refl
last_dot-none (c ∷ s) h = ground (arith, last_dot-none s h.1)
