-- ===== src/Text.antt =====
-- Go strings, and the parts of the packages strings and unicode that the program uses. A string is
-- the list of its code points. Letters outside ASCII keep their case here.
use Prim.Native.Char.{code}
pub mod Decimal
pub mod Trim
pub mod Prefix
pub mod Equal
pub mod Fields
use Prim.Native.String.{String}
use mathlib.Core.Option
use nuzur_cli.Base.{
  ℕ, zero, suc, ◌+◌, ◌-◌, Bool, true, false, not, ◌&&◌, ◌||◌, List, [], ◌∷◌, ◌++◌, Option, none,
  some, leb, ◌==◌, if◌then◌else◌, length, drop,
}

abbrev pub Text : Type 0
Text = List ℕ

-- The code points of a literal.
abbrev pub codes : String → Text
codes String.[] = []
codes (String.◌∷◌ c s) = code c ∷ codes s

abbrev pub within : ℕ → ℕ → ℕ → Bool
within lo hi c = leb lo c && leb c hi

-- `==` on strings.
unfoldable pub equal : Text → Text → Bool
equal [] [] = true
equal (x ∷ xs) (y ∷ ys) = x == y && equal xs ys
equal _ _ = false

-- `strings.HasPrefix s prefix`
unfoldable pub has_prefix : Text → Text → Bool
has_prefix s [] = true
has_prefix [] (p ∷ ps) = false
has_prefix (c ∷ s) (p ∷ ps) = c == p && has_prefix s ps

-- `strings.Index s sep`; `none` for -1.
unfoldable pub index : Text → Text → Option ℕ
unfolding has_prefix
index [] sep = if has_prefix [] sep then some 0 else none
index (c ∷ s) sep = if has_prefix (c ∷ s) sep then some 0 else Option.map suc (index s sep)

-- `unicode.IsSpace`
unfoldable pub is_space : ℕ → Bool
is_space c =
    within 9 13 c
    || c == 32
    || c == 0x85
    || c == 0xa0
    || c == 0x1680
    || within 0x2000 0x200a c
    || c == 0x2028
    || c == 0x2029
    || c == 0x202f
    || c == 0x205f
    || c == 0x3000

-- `strings.TrimLeftFunc` and `strings.TrimRightFunc`
unfoldable pub trim_left : (ℕ → Bool) → Text → Text
trim_left p [] = []
trim_left p (c ∷ s) = let rest = trim_left p s in if p c then rest else c ∷ s

unfoldable pub trim_right : (ℕ → Bool) → Text → Text
trim_right p [] = []
trim_right p (c ∷ s) = elim (trim_right p s) [ [] ↦ if p c then [] else c ∷ [] | d ∷ r ↦ c ∷ d ∷ r ]

unfoldable pub trim_func : (ℕ → Bool) → Text → Text
unfolding trim_left trim_right
trim_func p s = trim_right p (trim_left p s)

abbrev pub trim_space : Text → Text
trim_space = trim_func is_space

-- `strings.TrimPrefix`
unfoldable pub trim_prefix : Text → Text → Text
unfolding has_prefix
trim_prefix s prefix = if has_prefix s prefix then drop (length prefix) s else s

abbrev upper : ℕ → ℕ
upper c = if within b'a' b'z' c then c - 32 else c

abbrev lower : ℕ → ℕ
lower c = if within b'A' b'Z' c then c + 32 else c

-- `strings.ToUpper` and `strings.ToLower`
unfoldable pub to_upper : Text → Text
to_upper [] = []
to_upper (c ∷ s) = upper c ∷ to_upper s

unfoldable pub to_lower : Text → Text
to_lower [] = []
to_lower (c ∷ s) = lower c ∷ to_lower s

-- `strings.EqualFold`
unfoldable pub equal_fold : Text → Text → Bool
unfolding equal to_lower
equal_fold s t = equal (to_lower s) (to_lower t)

abbrev pub starts_word : Text → Bool
starts_word [] = false
starts_word (c ∷ s) = not (is_space c)

abbrev pub onto_first : ℕ → List Text → List Text
onto_first c [] = (c ∷ []) ∷ []
onto_first c (w ∷ ws) = (c ∷ w) ∷ ws

-- `strings.Fields`: the maximal runs of characters that are no white space.
unfoldable pub fields : Text → List Text
unfolding is_space
fields [] = []
fields (c ∷ s) =
    let rest = fields s in
    if is_space c then rest else if starts_word s then onto_first c rest else (c ∷ []) ∷ rest

-- `strings.Join`
unfoldable pub join : List Text → Text → Text
join [] sep = []
join (w ∷ []) sep = w
join (w ∷ v ∷ ws) sep = w ++ (sep ++ join (v ∷ ws) sep)

-- `strings.Split s sep` for a separator of one character.
unfoldable pub split_on : ℕ → Text → List Text
split_on sep [] = [] ∷ []
split_on sep (c ∷ s) =
    let rest = split_on sep s in if c == sep then [] ∷ rest else onto_first c rest

-- `strings.IndexAny`, with the characters given by a test.
unfoldable pub index_any : (ℕ → Bool) → Text → Option ℕ
index_any p [] = none
index_any p (c ∷ s) = if p c then some 0 else Option.map suc (index_any p s)

-- `strings.ReplaceAll` of a text that is not empty; the number counts what is left to skip.
unfoldable pub replace_from : ℕ → Text → Text → Text → Text
unfolding has_prefix
replace_from skip old new [] = []
replace_from (suc skip) old new (c ∷ s) = replace_from skip old new s
replace_from zero old new (c ∷ s) =
    let hit = has_prefix (c ∷ s) old in
    let rest = replace_from (if hit then length old - 1 else 0) old new s in
    if hit then new ++ rest else c ∷ rest

abbrev pub replace_all : Text → Text → Text → Text
replace_all s old new = replace_from 0 old new s

-- `isSpace` of sqlplan/plan.go
abbrev pub is_blank : ℕ → Bool
is_blank r = r == b' ' || r == b'\t' || r == b'\n' || r == b'\r'
