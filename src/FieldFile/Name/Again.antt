-- ===== src/FieldFile/Name/Again.antt =====
-- The parts of a sanitized name, and a name that is sanitized again (fieldfile/name.go).
use nuzur_cli.FieldFile.Name.Clean.{
  IsCleanName, to_lower_id, clean_name-IsCleanName, last_dot-none, clean_name_id,
}
use nuzur_cli.Base.{
  ◌+◌, ℕ, zero, suc, ◌≡◌, ◌++◌, none, some, [], ◌∷◌, Option-cases, inl, inr, arith, refl, length,
  drop, suc, ap, ◌∙◌, take-length_append, take, Option,
}
use nuzur_cli.Text.{Text, to_lower}
use nuzur_cli.FieldFile.Name.{last_dot, with_extension, sanitize_file_name, clean_name, name_at}

to_lower_twice : (s : Text) → to_lower (to_lower s) ≡ to_lower s
unfolding to_lower
to_lower_twice [] = refl
to_lower_twice (c ∷ s) = ground (arith, to_lower_twice s)

to_lower-append : (s t : Text) → to_lower (s ++ t) ≡ to_lower s ++ to_lower t
unfolding to_lower
to_lower-append [] t = refl
to_lower-append (c ∷ s) t = ground (arith, to_lower-append s t)

to_lower-drop : (n : ℕ) (s : Text) → to_lower (drop n s) ≡ drop n (to_lower s)
unfolding to_lower
to_lower-drop zero s = refl
to_lower-drop (suc n) [] = refl
to_lower-drop (suc n) (c ∷ s) = to_lower-drop n s

-- Behind the last dot there is none.
last_dot-drop : (s : Text) (n : ℕ) → last_dot s ≡ some n → last_dot (drop (suc n) s) ≡ none
unfolding last_dot
last_dot-drop [] n h = cc
last_dot-drop (c ∷ s) n h = elim (Option-cases (last_dot s)) [
  | inl e ↦ ground (arith, e)
  | inr (m, e) ↦ ground (arith, e, last_dot-drop s m)
]

last_dot-append : (s t : Text) → last_dot t ≡ none → last_dot (s ++ (46 ∷ t)) ≡ some (length s)
unfolding last_dot
last_dot-append [] t h = ground arith
last_dot-append (c ∷ s) t h = ground (arith, last_dot-append s t h)

drop-length_suc : (s : Text) (c : ℕ) (t : Text) → drop (length s + 1) (s ++ (c ∷ t)) ≡ t
drop-length_suc [] c t = refl
drop-length_suc (d ∷ s) c t = ground (arith, drop-length_suc s c t)

-- A clean name, and perhaps an extension: what stood behind the last dot, in small letters.
pub record IsSanitized (file_name : Text) : Type 0 where
  pub name : Text
  pub extension : Text
  pub parts : file_name ≡ with_extension name extension
  pub clean : IsCleanName name
  pub no_dot : last_dot extension ≡ none
  pub small : to_lower extension ≡ extension

name_at-IsSanitized :
    (raw : Text) (o : Option ℕ)
    → last_dot raw ≡ o
    → to_lower raw ≡ raw
    → IsSanitized (name_at raw o)
unfolding name_at last_dot to_lower
name_at-IsSanitized raw none d l = record {
  name = clean_name raw;
  extension = [];
  parts = refl;
  clean = clean_name-IsCleanName raw;
  no_dot = refl;
  small = refl;
}
name_at-IsSanitized raw (some dot) d l = record {
  name = clean_name (take dot raw);
  extension = drop (dot + 1) raw;
  parts = refl;
  clean = clean_name-IsCleanName (take dot raw);
  no_dot = behind (dot + 1) (omega arith);
  small = to_lower-drop (dot + 1) raw ∙ ap (drop (dot + 1)) l;
}
  where
    behind : (n : ℕ) → n ≡ suc dot → last_dot (drop n raw) ≡ none
    behind n e = rw e (last_dot-drop raw dot d)

-- Whatever the file is called, its sanitized name is a clean name (small letters, digits and single
-- underscores, none at an end), and perhaps a dot and an extension that has no dot and no capitals.
pub sanitize_file_name-IsSanitized : (original : Text) → IsSanitized (sanitize_file_name original)
unfolding sanitize_file_name
sanitize_file_name-IsSanitized original =
    name_at-IsSanitized (to_lower original) _ refl (to_lower_twice original)

sanitize_file_name_at :
    (k : Text) (o : Option ℕ) → to_lower k ≡ k → last_dot k ≡ o → sanitize_file_name k ≡ name_at k o
unfolding sanitize_file_name
sanitize_file_name_at k o l d = rw (l, d) refl

sanitize_file_name_plain : (k : Text) → IsCleanName k → sanitize_file_name k ≡ k
unfolding name_at with_extension
sanitize_file_name_plain k h =
    sanitize_file_name_at k none (to_lower_id k h.chars) (last_dot-none k h.chars)
    ∙ clean_name_id k h

small_dot : (e : Text) → to_lower e ≡ e → to_lower (46 ∷ e) ≡ 46 ∷ e
unfolding to_lower
small_dot e l = ap (λ (x : Text). 46 ∷ x) l

small_whole :
    (k e : Text) → IsCleanName k → to_lower e ≡ e → to_lower (k ++ (46 ∷ e)) ≡ k ++ (46 ∷ e)
small_whole k e h l =
    to_lower-append k (46 ∷ e)
    ∙ rw (to_lower_id k h.chars) (ap (λ (x : Text). k ++ x) (small_dot e l))

sanitize_file_name_extended :
    (k : Text) (c : ℕ) (e : Text)
    → IsCleanName k
    → last_dot (c ∷ e) ≡ none
    → to_lower (c ∷ e) ≡ c ∷ e
    → sanitize_file_name (k ++ (46 ∷ c ∷ e)) ≡ k ++ (46 ∷ c ∷ e)
unfolding with_extension name_at
sanitize_file_name_extended k c e h d l =
    sanitize_file_name_at _ _ (small_whole k (c ∷ e) h l) (last_dot-append k (c ∷ e) d)
    ∙ rw (take-length_append, drop-length_suc)
        (ap (λ (x : Text). x ++ (46 ∷ c ∷ e)) (clean_name_id k h))

sanitize_file_name_joined :
    (k e : Text)
    → IsCleanName k
    → last_dot e ≡ none
    → to_lower e ≡ e
    → sanitize_file_name (with_extension k e) ≡ with_extension k e
unfolding with_extension
sanitize_file_name_joined k [] h d l = sanitize_file_name_plain k h
sanitize_file_name_joined k (c ∷ e) h d l = sanitize_file_name_extended k c e h d l

-- Sanitizing a sanitized name gives the same name.
pub sanitize_file_name_twice :
    (original : Text)
    → sanitize_file_name (sanitize_file_name original) ≡ sanitize_file_name original
sanitize_file_name_twice original =
    let s = sanitize_file_name-IsSanitized original in
    rw s.parts (sanitize_file_name_joined s.name s.extension s.clean s.no_dot s.small)
