-- ===== src/Deploy/Chart.antt =====
-- deploy/chartversion.go: the version of the chart of a release. A file is the list of its lines; the
-- version to stamp is one line without `$`, which ReplaceAllString would expand.
pub mod Stamped
use nuzur_cli.Base.{
  ℕ, zero, suc, ◌+◌, ◌-◌, ◌*◌, ◌^◌, Bool, true, false, not, ◌&&◌, ◌||◌, List, [], ◌∷◌, ◌++◌, Option,
  none, some, if◌then◌else◌, is_nil, map, ltb, ◌==◌, drop,
}
use nuzur_cli.Text.{Text, codes, has_prefix, split_on, trim_space, within}
use nuzur_cli.Text.Decimal.{show, value_onto}

abbrev pub first_chart_version : Text
first_chart_version = codes "0.1.0"

-- `\d+`
abbrev all_digits : Text → Bool
all_digits [] = true
all_digits (c ∷ s) = within b'0' b'9' c && all_digits s

unfoldable pub is_digits : Text → Bool
is_digits s = not (is_nil s) && all_digits s

-- `strconv.Atoi` of digits, on 64 bits.
unfoldable pub atoi : Text → Option ℕ
atoi s = let n = value_onto 0 s in if ltb n (2 ^ 63) then some n else none

-- `patch + 1` on 64 bits with a sign, printed.
unfoldable pub next_patch : ℕ → Text
unfolding show
next_patch patch = if patch + 1 == 2 ^ 63 then b'-' ∷ show (2 ^ 63) else show (patch + 1)

unfoldable pub bump : Text → Text → Option ℕ → Text
unfolding next_patch
bump major minor none = first_chart_version
bump major minor (some patch) = major ++ (b'.' ∷ (minor ++ (b'.' ∷ next_patch patch)))

-- The parts of a version that `semverRe` matches.
unfoldable pub next_of : List Text → Text
unfolding is_digits atoi bump
next_of (major ∷ minor ∷ patch ∷ []) =
    if is_digits major && (is_digits minor && is_digits patch)
    then bump major minor (atoi patch)
    else first_chart_version
next_of parts = first_chart_version

unfoldable pub next_chart_version : Text → Text
unfolding next_of split_on
next_chart_version prior = next_of (split_on b'.' (trim_space prior))

unfoldable pub is_version_line : Text → Bool
unfolding has_prefix
is_version_line line = has_prefix line (codes "version:")

unfoldable pub is_app_version_line : Text → Bool
unfolding has_prefix
is_app_version_line line = has_prefix line (codes "appVersion:")

abbrev pub has_line : (Text → Bool) → List Text → Bool
has_line p [] = false
has_line p (l ∷ ls) = p l || has_line p ls

unfoldable pub version_line : Text → Text
version_line version = codes "version: " ++ version

unfoldable pub app_version_line : Text → Text
app_version_line version = codes "appVersion: \"" ++ (version ++ codes "\"")

-- `ReplaceAllString` of the lines that pass the test.
unfoldable pub replace_lines : (Text → Bool) → Text → List Text → List Text
replace_lines p new [] = []
replace_lines p new (l ∷ ls) = (if p l then new else l) ∷ replace_lines p new ls

-- The empty lines at the end, off.
unfoldable pub trim_tail : List Text → List Text
trim_tail [] = []
trim_tail (l ∷ ls) = elim (trim_tail ls) [
  | [] ↦ if is_nil l then [] else l ∷ []
  | k ∷ ks ↦ l ∷ k ∷ ks
]

-- `strings.TrimRight` of the ends of lines: the first line stays, were it empty.
unfoldable pub trim_lines : List Text → List Text
unfolding trim_tail
trim_lines [] = []
trim_lines (l ∷ ls) = l ∷ trim_tail ls

unfoldable pub stamp_app_version : Text → List Text → List Text
unfolding replace_lines app_version_line trim_lines
stamp_app_version version ls =
    if has_line is_app_version_line ls
    then replace_lines is_app_version_line (app_version_line version) ls
    else trim_lines ls ++ ([] ∷ app_version_line version ∷ [] ∷ [])

-- None where there is no line for the version.
unfoldable pub stamp_chart_version : Text → List Text → Option (List Text)
unfolding stamp_app_version version_line replace_lines
stamp_chart_version version ls =
    if has_line is_version_line ls
    then some (stamp_app_version version (replace_lines is_version_line (version_line version) ls))
    else none

unfoldable pub read_chart_version : List Text → Option Text
read_chart_version [] = none
read_chart_version (l ∷ ls) =
    let rest = read_chart_version ls in
    if is_version_line l then some (trim_space (drop 8 l)) else rest
