-- ===== src/SqlPlan/Split/Scan.antt =====
-- The scanners of sqlplan/split.go: how far a literal, a comment or a dollar-quoted body reaches. Each
-- takes the text from its position on.
use nuzur_cli.Base.{
  ℕ, suc, ◌+◌, ◌-◌, Bool, true, false, not, ◌&&◌, ◌||◌, [], ◌∷◌, Option, none, some, leb, ◌==◌,
  if◌then◌else◌, length, take, drop,
}
use mathlib.Core.Option
use nuzur_cli.Text.{Text, within, index}

unfoldable pub is_sql_space : ℕ → Bool
is_sql_space c = c == b' ' || c == b'\t' || c == b'\n' || c == b'\r' || c == 12 || c == 11

unfoldable pub is_digit : ℕ → Bool
is_digit c = within b'0' b'9' c

unfoldable pub is_ident_byte : ℕ → Bool
unfolding is_digit
is_ident_byte c = c == b'_' || is_digit c || within b'a' b'z' c || within b'A' b'Z' c || leb 0x80 c

-- The number of characters from here to the end of the line.
unfoldable pub end_of_line : Text → ℕ
end_of_line [] = 0
end_of_line (c ∷ s) = if c == b'\n' then 0 else suc (end_of_line s)

unfoldable pub line_comment_starts_at : Bool → Text → Bool
unfolding is_sql_space
line_comment_starts_at mysql [] = false
line_comment_starts_at mysql (d ∷ []) = d == b'-'
line_comment_starts_at mysql (d ∷ e ∷ s) = d == b'-' && (not mysql || is_sql_space e)

-- Behind a quote: how far it is to the end of the literal, its closing quote included. `skip` stands
-- for the `i++` of the round before.
abbrev pub starts_with_char : ℕ → Text → Bool
starts_with_char q [] = false
starts_with_char q (c ∷ s) = c == q

unfoldable pub scan_quoted : ℕ → Bool → Bool → Text → Option ℕ
scan_quoted quote escapes skip [] = none
scan_quoted quote escapes true (c ∷ s) = Option.map suc (scan_quoted quote escapes false s)
scan_quoted quote escapes false (c ∷ s) =
    let backslash = c == b'\\' in
    let doubled = c == quote && starts_with_char quote s in
    let further = scan_quoted quote escapes (if backslash then escapes else doubled) s in
    if backslash
    then Option.map suc further
    else if c == quote && not doubled
    then some 1
    else Option.map suc further

-- `e` precedes a quote that escapes, if it stands at the start of a word.
unfoldable pub escape_prefix : Text → Bool
unfolding is_ident_byte
escape_prefix [] = false
escape_prefix (e ∷ []) = e == b'E' || e == b'e'
escape_prefix (e ∷ d ∷ s) = (e == b'E' || e == b'e') && not (is_ident_byte d)

-- Behind `/*` at some depth: how far it is to the end of the comment.
unfoldable pub scan_block_comment : Bool → ℕ → Bool → Text → Option ℕ
scan_block_comment mysql depth skip [] = none
scan_block_comment mysql depth true (c ∷ s) =
    Option.map suc (scan_block_comment mysql depth false s)
scan_block_comment mysql depth false (c ∷ s) =
    let closes = c == b'*' && starts_with_char b'/' s in
    let opens = not mysql && c == b'/' && starts_with_char b'*' s in
    let deeper = if closes then depth - 1 else if opens then depth + 1 else depth in
    let further = scan_block_comment mysql deeper (closes || opens) s in
    if closes && deeper == 0 then some 2 else Option.map suc further

-- Behind `$`: the length of the tag before the next `$`.
unfoldable pub scan_tag : Bool → Text → Option ℕ
unfolding is_ident_byte is_digit
scan_tag first [] = none
scan_tag first (c ∷ s) =
    if c == b'$'
    then some 0
    else if not (is_ident_byte c) || (is_digit c && first)
    then none
    else Option.map suc (scan_tag false s)

-- At `$`: how far it is to the end of the dollar-quoted string.
unfoldable pub scan_dollar_quoted : Text → Option ℕ
unfolding scan_tag index
scan_dollar_quoted rest = elim (scan_tag true (drop 1 rest)) [
  | none ↦ none
  | some n ↦
      let tag = take (n + 2) rest in
      let body = drop (n + 2) rest in Option.map (λ e. n + 2 + e + length tag) (index body tag)
]

unfoldable pub at_line_start : Text → Bool
at_line_start [] = true
at_line_start (c ∷ before) =
    if c == b'\n'
    then true
    else if c == b' ' || c == b'\t' || c == b'\r'
    then at_line_start before
    else false
