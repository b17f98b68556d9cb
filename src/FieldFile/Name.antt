-- ===== src/FieldFile/Name.antt =====
-- fieldfile/name.go: the name of an uploaded object.
pub mod Clean
pub mod Again
use nuzur_cli.Base.{
  ℕ, zero, suc, ◌+◌, Bool, true, false, not, ◌&&◌, ◌||◌, List, [], ◌∷◌, ◌++◌, Option, none, some,
  ◌==◌, if◌then◌else◌, is_nil, take, drop,
}
use nuzur_cli.Text.{
  Text, codes, within, to_lower, trim_func, has_prefix, trim_prefix, split_on, join,
}

-- The class `[a-z0-9_]`.
abbrev pub is_name_char : ℕ → Bool
is_name_char c = within b'a' b'z' c || within b'0' b'9' c || c == b'_'

abbrev pub is_underscore : ℕ → Bool
is_underscore c = c == b'_'

-- `nonNameChar.ReplaceAllString(s, "_")`
unfoldable pub replace_non_name : Text → Text
replace_non_name [] = []
replace_non_name (c ∷ s) = (if is_name_char c then c else b'_') ∷ replace_non_name s

abbrev pub starts_underscore : Text → Bool
starts_underscore [] = false
starts_underscore (c ∷ s) = is_underscore c

-- `underscoreRun.ReplaceAllString(s, "_")`
unfoldable pub collapse_runs : Text → Text
collapse_runs [] = []
collapse_runs (c ∷ s) =
    let rest = collapse_runs s in if is_underscore c && starts_underscore s then rest else c ∷ rest

unfoldable pub clean_name : Text → Text
unfolding replace_non_name collapse_runs trim_func
clean_name s = trim_func is_underscore (collapse_runs (replace_non_name s))

-- `strings.LastIndex(s, ".")`
unfoldable pub last_dot : Text → Option ℕ
last_dot [] = none
last_dot (c ∷ s) = elim (last_dot s) [
  | some n ↦ some (suc n)
  | none ↦ if c == b'.' then some 0 else none
]

unfoldable pub with_extension : Text → Text → Text
with_extension cleaned ext = if is_nil ext then cleaned else cleaned ++ (b'.' ∷ ext)

-- The name of a text in small letters, given where its last dot is.
unfoldable pub name_at : Text → Option ℕ → Text
name_at raw none = with_extension (clean_name raw) []
name_at raw (some dot) = with_extension (clean_name (take dot raw)) (drop (dot + 1) raw)

unfoldable pub sanitize_file_name : Text → Text
unfolding last_dot to_lower name_at
sanitize_file_name original = name_at (to_lower original) (last_dot (to_lower original))

unfoldable pub contains_dot : Text → Bool
contains_dot [] = false
contains_dot (c ∷ s) = c == b'.' || contains_dot s

unfoldable pub is_bare_extension : Text → Bool
unfolding contains_dot has_prefix trim_prefix
is_bare_extension name =
    has_prefix name (codes ".") && not (contains_dot (trim_prefix name (codes ".")))
