-- ===== src/Deploy/Chart/Stamped.antt =====
-- What is read of a chart that was stamped.
use nuzur_cli.Base.{
  ◌≡◌, refl, subst, inl, inr, true, false, List, [], ◌∷◌, ◌++◌, none, some, if◌then◌else◌, is_nil,
  arith, Bool-cases, List-cases, drop, ◌⊎◌,
}
use nuzur_cli.Text.{Text, trim_space, has_prefix, trim_func, trim_left, is_space}
use nuzur_cli.Deploy.Chart.{
  is_version_line, is_app_version_line, has_line, version_line, app_version_line, replace_lines,
  trim_tail, trim_lines, stamp_app_version, stamp_chart_version, read_chart_version,
}

-- The first line for a version is the stamped one.
abbrev Leads : Text → List Text → Type 0
Leads version ls = read_chart_version ls ≡ some (trim_space version)

read-stamped : (version : Text) (ls : List Text) → Leads version (version_line version ∷ ls)
unfolding read_chart_version is_version_line version_line has_prefix trim_func trim_left is_space
read-stamped version ls = refl

read-skip :
    (version l : Text) (ls : List Text)
    → is_version_line l ≡ false
    → Leads version ls
    → Leads version (l ∷ ls)
unfolding read_chart_version
read-skip version l ls other h = rw other h

replace-version :
    (version : Text) (ls : List Text)
    → has_line is_version_line ls ≡ true
    → Leads version (replace_lines is_version_line (version_line version) ls)
unfolding replace_lines
replace-version version [] h = ground (arith, h)
replace-version version (l ∷ ls) h = elim (Bool-cases (is_version_line l)) [
  | inl is ↦ rw is (read-stamped version (replace_lines is_version_line (version_line version) ls))
  | inr is_not ↦ rw is_not (
      read-skip version l (replace_lines is_version_line (version_line version) ls) is_not
        (replace-version version ls (ground (arith, h, is_not))))
]

-- A line for the version is none for the app's, and the other way round.
apart : (l : Text) → is_app_version_line l ≡ true → is_version_line l ≡ false
unfolding is_app_version_line is_version_line has_prefix
apart [] h = ground (arith, h)
apart (c ∷ l) h = ground (arith, h)

app_line : (version : Text) → is_version_line (app_version_line version) ≡ false
unfolding is_version_line app_version_line has_prefix
app_line version = refl

skipped :
    (version l : Text) (ls : List Text)
    → is_version_line l ≡ false
    → Leads version (l ∷ ls)
    → Leads version ls
unfolding read_chart_version
skipped version l ls other h =
    subst
      (λ b.
        (if b then some (trim_space (drop 8 l)) else read_chart_version ls)
        ≡ some (trim_space version))
      other h

-- The lines below the first may change if what leads them stays.
same_head :
    (version l : Text) (ls rest : List Text)
    → (Leads version ls → Leads version rest)
    → Leads version (l ∷ ls)
    → Leads version (l ∷ rest)
unfolding read_chart_version
same_head version l ls rest kept h = elim (Bool-cases (is_version_line l)) [
  | inl is ↦ rw is (
      subst
        (λ b.
          (if b then some (trim_space (drop 8 l)) else read_chart_version ls)
          ≡ some (trim_space version))
        is h)
  | inr is_not ↦ read-skip version l rest is_not (kept (skipped version l ls is_not h))
]

replace-app :
    (version other : Text) (ls : List Text)
    → Leads version ls
    → Leads version (replace_lines is_app_version_line (app_version_line other) ls)
unfolding replace_lines
replace-app version other [] h = h
replace-app version other (l ∷ ls) h = elim (Bool-cases (is_app_version_line l)) [
  | inl is ↦ rw is (
      read-skip version (app_version_line other)
        (replace_lines is_app_version_line (app_version_line other) ls) (app_line other)
        (replace-app version other ls (skipped version l ls (apart l is) h)))
  | inr is_not ↦ rw is_not (
      same_head version l ls (replace_lines is_app_version_line (app_version_line other) ls)
        (replace-app version other ls) h)
]

unled : (version : Text) (A : Type 0) → Leads version [] → A
unfolding read_chart_version
unled version A h = ground (arith, h)

bare_end :
    (version l : Text) (ls rest : List Text)
    → (Leads version ls → Leads version rest)
    → Leads version (l ∷ ls)
    → Leads version ((if is_nil l then [] else l ∷ []) ++ rest)
unfolding is_version_line has_prefix
bare_end version [] ls rest kept h = kept (skipped version [] ls refl h)
bare_end version (c ∷ l) ls rest kept h = same_head version (c ∷ l) ls rest kept h

trim-kept :
    (version : Text) (ls rest : List Text) → Leads version ls → Leads version (trim_tail ls ++ rest)
unfolding trim_tail
trim-kept version [] rest h = unled version (Leads version rest) h
trim-kept version (l ∷ ls) rest h = elim (List-cases (trim_tail ls)) [
  | inl bare ↦ rw bare (
      bare_end version l ls rest
        (λ lead. subst (λ r. Leads version (r ++ rest)) bare (trim-kept version ls rest lead)) h)
  | inr (k, ks, more) ↦ rw more (
      same_head version l ls (k ∷ ks ++ rest)
        (λ lead. subst (λ r. Leads version (r ++ rest)) more (trim-kept version ls rest lead)) h)
]

trim_lines-kept :
    (version : Text) (ls rest : List Text)
    → Leads version ls
    → Leads version (trim_lines ls ++ rest)
unfolding trim_lines
trim_lines-kept version [] rest h = unled version (Leads version rest) h
trim_lines-kept version (l ∷ ls) rest h =
    same_head version l ls (trim_tail ls ++ rest) (trim-kept version ls rest) h

stamp-app :
    (version : Text) (ls : List Text)
    → Leads version ls
    → Leads version (stamp_app_version version ls)
unfolding stamp_app_version
stamp-app version ls h = elim (Bool-cases (has_line is_app_version_line ls)) [
  | inl has ↦ rw has (replace-app version version ls h)
  | inr lacks ↦ rw lacks (trim_lines-kept version ls _ h)
]

-- For a version of one line without `$`: a chart without a line for its version is refused, and any other one is
-- stamped, and what is read of it then is the version that was stamped without the spaces around it, whatever other
-- lines the chart has.
pub read_chart_version-stamp_chart_version :
    (version : Text) (ls : List Text)
    → ((has_line is_version_line ls ≡ false) × (stamp_chart_version version ls ≡ none))
      ⊎ ((has_line is_version_line ls ≡ true)
          × ((stamped : List Text) × (stamp_chart_version version ls ≡ some stamped)
              × (read_chart_version stamped ≡ some (trim_space version))))
unfolding stamp_chart_version
read_chart_version-stamp_chart_version version ls =
    elim (Bool-cases (has_line is_version_line ls)) [
      | inl has ↦ inr (
        has,
        (
          stamp_app_version version (replace_lines is_version_line (version_line version) ls),
          rw has refl,
          stamp-app version (replace_lines is_version_line (version_line version) ls)
              (replace-version version ls has),
        ),
      )
      | inr lacks ↦ inl (lacks, rw lacks refl)
    ]
