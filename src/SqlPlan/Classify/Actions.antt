-- ===== src/SqlPlan/Classify/Actions.antt =====
-- sqlplan/plan.go: `splitTopLevel`, which cuts the action list of an ALTER TABLE at its commas.
use nuzur_cli.Base.{
  ℕ, not, ◌&&◌, ◌||◌, List, [], ◌∷◌, ◌++◌, Option, none, some, ◌==◌, if◌then◌else◌, is_nil,
}
use nuzur_cli.Base.Int.{ℤ, pos, suc_ℤ, pred_ℤ, is_zero}
use nuzur_cli.Text.{Text, trim_space, trim_func, is_space}

pub record Cutter : Type 0 where
  pub out : List Text
  pub cur : Text
  pub depth : ℤ
  -- the quote that is open
  pub quote : Option ℕ

abbrev write : Cutter → ℕ → Cutter
write s r = record s { cur = s.cur ++ (r ∷ []) }

-- One round, outside quotes and inside them.
unfoldable pub cut_bare : Cutter → ℕ → Cutter
cut_bare s r =
    if r == b'\'' || r == b'"' || r == b'`'
    then record s { cur = s.cur ++ (r ∷ []); quote = some r }
    else if r == b'('
    then record s { cur = s.cur ++ (r ∷ []); depth = suc_ℤ s.depth }
    else if r == b')'
    then record s { cur = s.cur ++ (r ∷ []); depth = pred_ℤ s.depth }
    else if r == b',' && is_zero s.depth
    then record s { out = s.out ++ (s.cur ∷ []); cur = [] }
    else write s r

unfoldable pub cut : Cutter → ℕ → Cutter
unfolding cut_bare
cut s r = elim s.quote [
  | some q ↦ write (record s { quote = if r == q then none else some q }) r
  | none ↦ cut_bare s r
]

unfoldable pub cut_all : Cutter → Text → Cutter
unfolding cut
cut_all s [] = s
cut_all s (r ∷ rest) = cut_all (cut s r) rest

abbrev pub uncut : Cutter
uncut = record { out = []; cur = []; depth = pos 0; quote = none }

unfoldable pub finish_cut : Cutter → List Text
unfolding trim_func is_space
finish_cut s = if not (is_nil (trim_space s.cur)) then s.out ++ (s.cur ∷ []) else s.out

-- `splitTopLevel s ','`
unfoldable pub split_top_level : Text → List Text
unfolding cut_all finish_cut
split_top_level s = finish_cut (cut_all uncut s)
