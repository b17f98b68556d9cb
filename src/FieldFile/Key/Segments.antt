-- ===== src/FieldFile/Key/Segments.antt =====
-- The segments of a key (fieldfile/name.go).
use nuzur_cli.Base.{
  ℕ, ◌≡◌, ◌==◌, false, List, [], ◌∷◌, ◌++◌, All, arith, refl, ap, ◌∙◌, select, Bool-cases, inl, inr,
}
use nuzur_cli.Text.{onto_first, Text, split_on, join, codes}
use nuzur_cli.FieldFile.Key.{is_segment, normalize_key}

-- The separator stands nowhere in the text.
abbrev pub Free : Text → Type 0
Free = All (λ c. (c == b'/') ≡ false)

onto_first-Free :
    (c : ℕ) (ws : List Text) → (c == b'/') ≡ false → All Free ws → All Free (onto_first c ws)
onto_first-Free c [] e a = ((e, tt), tt)
onto_first-Free c (w ∷ ws) e a = ((e, a.0), a.1)

split_on-Free : (s : Text) → All Free (split_on b'/' s)
unfolding split_on
split_on-Free [] = (tt, tt)
split_on-Free (c ∷ s) = elim (Bool-cases (c == b'/')) [
  | inl slash ↦ rw slash (tt, split_on-Free s)
  | inr other ↦ rw other (onto_first-Free c (split_on b'/' s) other (split_on-Free s))
]

select-All : (P : Text → Type 0) (ws : List Text) → All P ws → All P (select is_segment ws)
select-All P [] a = tt
select-All P ([] ∷ ws) a = select-All P ws a.1
select-All P ((c ∷ w) ∷ ws) a = (a.0, select-All P ws a.1)

split_on_whole : (w : Text) → Free w → split_on b'/' w ≡ w ∷ []
unfolding split_on
split_on_whole [] h = refl
split_on_whole (c ∷ w) h = ground (arith, split_on_whole w h.1)

split_on-append : (w s : Text) → Free w → split_on b'/' (w ++ (b'/' ∷ s)) ≡ w ∷ split_on b'/' s
unfolding split_on
split_on-append [] s h = ground arith
split_on-append (c ∷ w) s h = ground (arith, split_on-append w s h.1)

-- Joining segments and splitting the result gives the segments.
split_on-join :
    (w : Text) (ws : List Text)
    → All Free (w ∷ ws)
    → split_on b'/' (join (w ∷ ws) (codes "/")) ≡ w ∷ ws
unfolding join
split_on-join w [] h = split_on_whole w h.0
split_on-join w (v ∷ ws) h = split_on-append w _ h.0 ∙ ap (◌∷◌ w) (split_on-join v ws h.1)

select_twice : (ws : List Text) → select is_segment (select is_segment ws) ≡ select is_segment ws
select_twice [] = refl
select_twice ([] ∷ ws) = select_twice ws
select_twice ((c ∷ w) ∷ ws) = ap (◌∷◌ (c ∷ w)) (select_twice ws)

split_on-joined :
    (ws : List Text)
    → All Free ws
    → select is_segment (split_on b'/' (join ws (codes "/"))) ≡ select is_segment ws
unfolding join split_on
split_on-joined [] h = refl
split_on-joined (w ∷ ws) h = ap (select is_segment) (split_on-join w ws h)

-- The segments of a normalized key that are not empty are those of the text that it was made from,
-- in their order.
pub normalize_key-segments :
    (key : Text)
    → select is_segment (split_on b'/' (normalize_key key)) ≡ select is_segment (split_on b'/' key)
unfolding normalize_key
normalize_key-segments key =
    split_on-joined _ (select-All Free _ (split_on-Free key)) ∙ select_twice (split_on b'/' key)

normalize_key_same :
    (a b : Text)
    → select is_segment (split_on b'/' a) ≡ select is_segment (split_on b'/' b)
    → normalize_key a ≡ normalize_key b
unfolding normalize_key
normalize_key_same a b e = ap (λ ws. join ws (codes "/")) e

-- Normalizing a key again changes nothing.
pub normalize_key_twice : (key : Text) → normalize_key (normalize_key key) ≡ normalize_key key
normalize_key_twice key = normalize_key_same _ key (normalize_key-segments key)
