-- ===== src/SqlPlan/Split.antt =====
-- sqlplan/split.go. A position is kept as the text behind it and the text ahead: with `s.src[:i]`
-- read backwards and cut at `s.start`, `src` is `reverse done ++ reverse cur ++ rest`.
pub mod Scan
pub mod Progress
pub mod Substrings
use nuzur_cli.Base.{
  ℕ, zero, suc, ◌+◌, ◌-◌, Bool, true, false, not, ◌&&◌, ◌||◌, List, [], ◌∷◌, ◌++◌, Option, none,
  some, leb, ◌==◌, if◌then◌else◌, length, is_nil, take, drop,
}
use mathlib.Core.List.{reverse}
use mathlib.Core.Option
use nuzur_cli.SqlPlan.Split.Scan.{
  is_sql_space, is_digit, is_ident_byte, end_of_line, line_comment_starts_at, starts_with_char,
  scan_quoted, escape_prefix, scan_block_comment, scan_tag, scan_dollar_quoted, at_line_start,
}
use nuzur_cli.SqlPlan.Types.{Engine, is_postgres}
use nuzur_cli.Text.{
  Text, codes, within, has_prefix, index, trim_space, trim_func, equal_fold, is_space,
}

pub record Splitter : Type 0 where
  pub mysql : Bool
  pub delimiter : Text
  pub out : List Text
  -- `s.src[:s.start]`, backwards
  pub done : Text
  -- `s.src[s.start:i]`, backwards
  pub cur : Text
  pub has_code : Bool

abbrev pub behind : Splitter → Text
behind s = s.cur ++ s.done

unfoldable pub backslash_escapes : Splitter → ℕ → Bool
unfolding escape_prefix
backslash_escapes s quote =
    if quote == b'`'
    then false
    else if quote == b'"'
    then s.mysql
    else if s.mysql
    then true
    else escape_prefix (behind s)

-- `skipAt`: what stands at `c ∷ rest`, as the number of characters to pass and whether it is SQL.
unfoldable pub skip_at : Splitter → ℕ → Text → ℕ × Bool
unfolding scan_quoted backslash_escapes line_comment_starts_at end_of_line scan_block_comment
    scan_dollar_quoted is_sql_space
skip_at s c rest =
    if c == b'\'' || c == b'"' || (c == b'`' && s.mysql)
    then elim (scan_quoted c (backslash_escapes s c) false rest) [
      | some n ↦ (n + 1, true)
      | none ↦ (length rest + 1, true)
    ]
    else if c == b'-' && line_comment_starts_at s.mysql rest
    then (end_of_line (c ∷ rest), false)
    else if c == b'#' && s.mysql
    then (end_of_line (c ∷ rest), false)
    else if c == b'/' && starts_with_char b'*' rest
    then elim (scan_block_comment s.mysql 1 false (drop 1 rest)) [
      | none ↦ (length rest + 1, false)
      | some n ↦ (n + 2, s.mysql && starts_with_char b'!' (drop 1 rest))
    ]
    else if c == b'$' && not s.mysql
    then elim (scan_dollar_quoted (c ∷ rest)) [ some n ↦ (n, true) | none ↦ (1, true) ]
    else (1, not (is_sql_space c))

-- `flush`, which ends the statement at the current position.
unfoldable pub flush : Splitter → Splitter
flush s =
    let statement = trim_space (reverse s.cur) in
    record s {
      out = if s.has_code && not (is_nil statement) then s.out ++ (statement ∷ []) else s.out;
      done = s.cur ++ s.done;
      cur = [];
      has_code = false;
    }

abbrev word : Text
word = codes "delimiter"

-- The test of what follows the word DELIMITER.
abbrev separates_word : Text → Bool
separates_word [] = false
separates_word (c ∷ s) = is_sql_space c && not (c == b'\n')

-- `readDelimiterDirective`: the delimiter that the line at `rest` sets, and the length of the line.
unfoldable pub read_delimiter_directive : Splitter → Text → Option (Text × ℕ)
unfolding at_line_start end_of_line equal_fold is_sql_space trim_func is_space
read_delimiter_directive s rest =
    let end = end_of_line rest in
    let delimiter = trim_space (drop 9 (take end rest)) in
    if not (at_line_start (behind s))
    then none
    else if leb (length rest) 9 || not (equal_fold (take 9 rest) word)
    then none
    else if not (separates_word (drop 9 rest))
    then none
    else if is_nil delimiter
    then none
    else some (delimiter, end)

-- Moves on by `n` characters; `move_start` also puts `s.start` at the new position.
unfoldable pub advance : ℕ → Text → Splitter → Splitter
advance n rest s = record s { cur = reverse (take n rest) ++ s.cur }

unfoldable pub move_start : Splitter → Splitter
move_start s = record s { done = s.cur ++ s.done; cur = [] }

-- One round of the loop of `split`, at a position that is not the end.
unfoldable pub step_code : Splitter → ℕ → Text → Splitter × Text
unfolding flush skip_at has_prefix advance move_start
step_code s c rest =
    if not (is_nil s.delimiter) && has_prefix (c ∷ rest) s.delimiter
    then (let n = length s.delimiter in
        (move_start (advance n (c ∷ rest) (flush s)), drop n (c ∷ rest)))
    else (let (n, code) = skip_at s c rest in
        (advance n (c ∷ rest) (record s { has_code = code || s.has_code }), drop n (c ∷ rest)))

unfoldable pub step : Splitter → ℕ → Text → Splitter × Text
unfolding step_code read_delimiter_directive advance move_start
step s c rest =
    let directive =
      if not s.has_code && s.mysql then read_delimiter_directive s (c ∷ rest) else none in
    elim directive [
      | some (delimiter, n) ↦ (
        move_start (advance n (c ∷ rest) (record s { delimiter = delimiter })),
        drop n (c ∷ rest),
      )
      | none ↦ step_code s c rest
    ]

-- The loop, on fuel for its rounds; `none` means that the fuel ran out.
unfoldable pub run : ℕ → Splitter → Text → Option (List Text)
unfolding step flush
run fuel s [] = some (flush s).out
run zero s (c ∷ rest) = none
run (suc fuel) s (c ∷ rest) = let next = step s c rest in run fuel next.0 next.1

abbrev pub start : Bool → Splitter
start mysql = record {
  mysql = mysql;
  delimiter = codes ";";
  out = [];
  done = [];
  cur = [];
  has_code = false;
}

-- Each round passes a character, so as many rounds as there are characters are enough.
unfoldable pub split : Text → Engine → List Text
unfolding run
split apply_sql engine =
    Option.get_or (run (length apply_sql) (start (not (is_postgres engine))) apply_sql) []
