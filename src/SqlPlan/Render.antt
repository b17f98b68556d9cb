-- ===== src/SqlPlan/Render.antt =====
-- sqlplan/render.go: what a plan says to a reader, as pure text.
pub mod Atomic
use nuzur_cli.Base.{
  ℕ, Bool, not, ◌&&◌, List, [], ◌∷◌, ◌++◌, map, ◌==◌, ltb, if◌then◌else◌, length, is_nil,
}
use nuzur_cli.SqlPlan.Plan.{counts, destructive, non_transactional_statements}
use nuzur_cli.SqlPlan.Types.{
  Engine, engine_unknown, engine_mysql, engine_postgres, is_postgres, Severity, severity_none,
  data_loss, constraint_loss, narrowing, is_none, Kind, create_table, create_index, create_schema,
  add_column, add_constraint, alter_column, drop_table, drop_column, drop_index, drop_constraint,
  drop_schema, drop_database, truncate, other, Hazard, Statement, Plan,
}
use nuzur_cli.Text.Decimal.{show, show_4}
use nuzur_cli.Text.{Text, codes, join, trim_right}

unfoldable pub hazard_name : Severity → Text
hazard_name data_loss = codes "DELETES_DATA"
hazard_name constraint_loss = codes "INDEX_DROPPED"
hazard_name narrowing = codes "CORRECTNESS"
hazard_name severity_none = []

-- The text of a `Kind`.
unfoldable pub kind_text : Kind → Text
kind_text create_table = codes "create_table"
kind_text create_index = codes "create_index"
kind_text create_schema = codes "create_schema"
kind_text add_column = codes "add_column"
kind_text add_constraint = codes "add_constraint"
kind_text alter_column = codes "alter_column"
kind_text drop_table = codes "drop_table"
kind_text drop_column = codes "drop_column"
kind_text drop_index = codes "drop_index"
kind_text drop_constraint = codes "drop_constraint"
kind_text drop_schema = codes "drop_schema"
kind_text drop_database = codes "drop_database"
kind_text truncate = codes "truncate"
kind_text other = codes "other"

unfoldable pub suffix : ℕ → Text
suffix n = if n == 1 then [] else codes "s"

unfoldable pub plural : ℕ → Text → Text
unfolding show suffix
plural n noun = show n ++ (b' ' ∷ (noun ++ suffix n))

-- A part of the summary, if its count is not zero.
abbrev part : ℕ → Text → List Text
part n t = if ltb 0 n then t ∷ [] else []

unfoldable pub summary_line : Plan → Text
unfolding counts show suffix plural join
summary_line p =
    let c = counts p in
    let drops =
      show c.constraint_losses ++ (codes " index/constraint drop" ++ suffix c.constraint_losses) in
    let parts =
      (show c.additive ++ codes " additive")
      ∷ (part c.data_losses (show c.data_losses ++ codes " DESTRUCTIVE (delete data)")
          ++ (part c.constraint_losses drops
              ++ part c.narrowings
                  (show c.narrowings ++ codes " that may fail on existing rows"))) in
    if c.total == 0
    then codes "No changes — the database already matches the model."
    else plural c.total (codes "statement") ++ (codes ": " ++ join parts (codes ", "))

-- `Statement.hazards`: the list, or the summary's one hazard where the list is missing.
unfoldable pub hazards_of : Statement → List Hazard
hazards_of s =
    if not (is_nil s.hazards)
    then s.hazards
    else if is_none s.severity
    then []
    else record { severity = s.severity; kind = s.kind; object = s.object; reason = s.reason } ∷ []

unfoldable pub hazard_line : Hazard → Text
unfolding hazard_name kind_text
hazard_line h =
    if is_nil (hazard_name h.severity)
    then []
    else codes "      -- HAZARD "
      ++ (hazard_name h.severity
          ++ (codes ": "
              ++ ((if is_nil h.reason then kind_text h.kind else h.reason) ++ codes "\n")))

unfoldable pub hazard_lines : List Hazard → Text
unfolding hazard_line
hazard_lines [] = []
hazard_lines (h ∷ hs) = hazard_line h ++ hazard_lines hs

unfoldable pub write_statement : Statement → Text
unfolding show_4 hazards_of hazard_lines
write_statement s =
    show_4 s.index ++ (codes ". " ++ (s.sql ++ (codes "\n" ++ hazard_lines (hazards_of s))))

unfoldable pub write_statements : List Statement → Text
unfolding write_statement
write_statements [] = []
write_statements (s ∷ ss) = write_statement s ++ write_statements ss

-- `strings.TrimRight _ "\n"`
abbrev trim_newlines : Text → Text
trim_newlines = trim_right (λ c. c == b'\n')

unfoldable pub render_destructive : Plan → Text
unfolding destructive write_statements trim_right
render_destructive p =
    if is_nil (destructive p)
    then []
    else trim_newlines
        (codes "DESTRUCTIVE — these delete data:\n" ++ write_statements (destructive p))

unfoldable pub render_statements : Plan → Text
unfolding write_statements trim_right
render_statements p =
    if is_nil p.statements then [] else trim_newlines (write_statements p.statements)

-- All but the last, and the last.
abbrev but_last : List Text → List Text
but_last [] = []
but_last (x ∷ []) = []
but_last (x ∷ y ∷ r) = x ∷ but_last (y ∷ r)

abbrev last_of : List Text → Text
last_of [] = []
last_of (x ∷ []) = x
last_of (x ∷ y ∷ r) = last_of (y ∷ r)

unfoldable pub describe_statements : List ℕ → Text
unfolding show join
describe_statements idx =
    let strs = map show idx in
    if length strs == 1
    then codes "Statement " ++ last_of strs
    else codes "Statements "
      ++ (join (but_last strs) (codes ", ") ++ (codes " and " ++ last_of strs))

unfoldable pub transactional_warning : Plan → Engine → Text
unfolding non_transactional_statements describe_statements
transactional_warning p engine =
    let forced = non_transactional_statements p in
    if ltb (length p.statements) 2 then [] else elim engine [
      | engine_postgres ↦
          if ltb 0 (length forced)
          then codes "These statements do NOT run in a transaction. "
            ++ (describe_statements forced
                ++ codes
                    " cannot run inside one, and\nPostgres allows no partial exception, so the WHOLE migration is applied one\nstatement at a time: if one fails partway through, the statements before it stay\napplied.")
          else codes
              "These statements are applied in a TRANSACTION: if one fails, the whole migration\nrolls back and the database is left exactly as it was. That is not a promise the\nmigration will succeed — only that a failure will not leave it half-applied."
      | engine_mysql ↦
          codes
            "These statements effectively commit ONE AT A TIME. A transaction is opened, but\nMySQL commits DDL implicitly, so it cannot be rolled back: if one statement fails\npartway through, the statements before it stay applied."
      | engine_unknown ↦
          codes
            "Do not assume this migration is atomic: depending on the engine and on what it\ncontains, a statement that fails partway through can leave the statements before\nit applied. Check the database's state before retrying."
    ]

unfoldable pub transactional : Plan → Engine → Bool
unfolding non_transactional_statements
transactional p engine = is_postgres engine && length (non_transactional_statements p) == 0
