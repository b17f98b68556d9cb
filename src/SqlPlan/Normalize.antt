-- ===== src/SqlPlan/Normalize.antt =====
-- sqlplan/plan.go: the uppercased, comment-free, single-spaced form that the classifier matches.
use nuzur_cli.Base.{ℕ, Bool, false, ◌&&◌, ◌||◌, [], ◌∷◌, ◌==◌, if◌then◌else◌}
use nuzur_cli.Text.{Text, codes, to_upper, fields, join}

-- Where `stripComments` is: `in_open` stands at the star of an opening mark, `in_close` at the
-- slash of a closing one.
pub data StripMode : Type 0 where
  in_code in_line in_open in_block in_close : StripMode

abbrev pub next_is : ℕ → Text → Bool
next_is c [] = false
next_is c (d ∷ s) = d == c

abbrev pub opens_line : ℕ → Text → Bool
opens_line c s = c == b'-' && next_is b'-' s

abbrev pub opens_block : ℕ → Text → Bool
opens_block c s = c == b'/' && next_is b'*' s

-- The space that stands for a comment is written where the comment begins.
unfoldable pub strip : StripMode → Text → Text
strip m [] = []
strip in_code (c ∷ s) =
    let rest =
      strip (if opens_line c s then in_line else if opens_block c s then in_open else in_code) s in
    (if opens_line c s || opens_block c s then b' ' else c) ∷ rest
strip in_line (c ∷ s) =
    let rest = strip (if c == b'\n' then in_code else in_line) s in
    if c == b'\n' then c ∷ rest else rest
strip in_open (c ∷ s) = strip in_block s
strip in_block (c ∷ s) = strip (if c == b'*' && next_is b'/' s then in_close else in_block) s
strip in_close (c ∷ s) = strip in_code s

unfoldable pub strip_comments : Text → Text
unfolding strip
strip_comments = strip in_code

unfoldable pub collapse_space : Text → Text
unfolding fields join
collapse_space s = join (fields s) (codes " ")

unfoldable pub normalize : Text → Text
unfolding strip_comments to_upper collapse_space
normalize sql = collapse_space (to_upper (strip_comments sql))
