-- ===== src/SqlPlan/Words.antt =====
-- sqlplan/plan.go: matching keyword phrases, and the identifiers behind them.
pub mod Leads
pub mod Occurs
use mathlib.Core.Option
use nuzur_cli.Base.{
  ℕ, zero, suc, ◌+◌, Bool, true, false, ◌&&◌, ◌||◌, List, [], ◌∷◌, ◌++◌, map, Option, none, some,
  ◌==◌, if◌then◌else◌, length, is_nil, take, drop,
}
use nuzur_cli.Text.{
  Text, codes, has_prefix, index, index_any, trim_space, trim_func, is_space, trim_prefix, to_lower,
  split_on, join,
}

-- What may stand behind a leading keyword phrase.
abbrev pub ends_phrase : Text → Bool
ends_phrase [] = true
ends_phrase (c ∷ s) = c == b' ' || c == b'(' || c == b'"' || c == b'`'

unfoldable pub has_prefix_word : Text → Text → Bool
unfolding has_prefix
has_prefix_word norm phrase = has_prefix norm phrase && ends_phrase (drop (length phrase) norm)

-- What may stand before and behind a phrase in the middle of a statement: a space, or an end.
abbrev pub is_edge : Option ℕ → Bool
is_edge none = true
is_edge (some c) = c == b' '

abbrev pub first : Text → Option ℕ
first [] = none
first (c ∷ s) = some c

-- The character before position `n` of a text that `prev` precedes.
abbrev pub char_before : Option ℕ → ℕ → Text → Option ℕ
char_before prev zero s = prev
char_before prev (suc n) s = first (drop n s)

-- The loop of `containsWord` on fuel, over what is left to search and the character before it.
unfoldable pub contains_from : ℕ → Option ℕ → Text → Text → Bool
unfolding index
contains_from zero prev rest phrase = false
contains_from (suc fuel) prev rest phrase = elim (index rest phrase) [
  | none ↦ false
  | some n ↦
      let before = is_edge (char_before prev n rest) in
      let after = is_edge (first (drop (n + length phrase) rest)) in
      let later = contains_from fuel (first (drop n rest)) (drop (n + 1) rest) phrase in
      if before && after then true else later
]

-- Each round leaves a character behind it, so there are at most as many as characters, and one.
unfoldable pub contains_word : Text → Text → Bool
unfolding contains_from
contains_word norm phrase = contains_from (length norm + 1) none norm phrase

abbrev quote_chars : ℕ → Bool
quote_chars c = c == b'"' || c == b'`' || c == b'[' || c == b']'

unfoldable pub unquote_ident : Text → Text
unfolding split_on trim_func to_lower join
unquote_ident id =
    join (map (λ p. to_lower (trim_func quote_chars p)) (split_on b'.' id)) (codes ".")

abbrev ends_name : ℕ → Bool
ends_name c = c == b' ' || c == b'(' || c == b','

-- The rest of `objectAfter` once the phrase is found.
unfoldable pub object_in : Text → Text
unfolding trim_func is_space trim_prefix index_any unquote_ident
object_in behind =
    let bare = trim_prefix (trim_space behind) (codes "IF EXISTS ") in
    let rest = trim_space (trim_prefix bare (codes "IF NOT EXISTS ")) in
    if is_nil rest
    then []
    else unquote_ident (take (Option.get_or (index_any ends_name rest) (length rest)) rest)

unfoldable pub object_after : Text → Text → Text
unfolding index object_in
object_after norm phrase = elim (index norm phrase) [
  | none ↦ []
  | some n ↦ object_in (drop (n + length phrase) norm)
]

unfoldable pub join_object : Text → Text → Text
join_object table col =
    if is_nil table then col else if is_nil col then table else table ++ (b'.' ∷ col)

unfoldable pub first_non_empty_ident : List Text → Text
first_non_empty_ident [] = []
first_non_empty_ident (id ∷ ids) = if is_nil id then first_non_empty_ident ids else id

abbrev pub describe : Text → Text → Text
describe object fallback = if is_nil object then fallback else object
