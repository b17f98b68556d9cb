-- ===== src/Agent/Rows.antt =====
-- The messages of the agent (agent/handlers.go, agent/daemon.go), and how the rows of a query are sent.
-- Rows and columns are of any type; a message is marshalled before `Send` returns, so the batch can be reused.
pub mod Chunked
use nuzur_cli.Base.{
  ℕ, Bool, true, false, List, [], ◌∷◌, ◌++◌, Option, none, some, ◌⊎◌, inl, inr, if◌then◌else◌, leb,
  length,
}
use nuzur_cli.Base.Int.{ℤ}
use nuzur_cli.Agent.Probes.{DeploymentMetrics}
use nuzur_cli.Text.{Text}

pub record RowsChunk (C V : Type 0) : Type 0 where
  pub rows : List V
  pub row_count : ℕ
  pub more : Bool
  pub columns : Option C

-- The messages to the server that answer a request, with the id of the request.
pub data Message (C V : Type 0) : Type 0 where
  pong commit_response rollback_response : ℕ → Message C V
  query_error : ℕ → Text → Message C V
  rows_chunk : ℕ → RowsChunk C V → Message C V
  exec_response : ℕ → ℤ → ℤ → Message C V
  begin_tx_response : ℕ → ℕ → Message C V
  schema_plan_response : ℕ → Text → Message C V
  metrics_response : ℕ → DeploymentMetrics → Message C V

abbrev pub rows_chunk_max_rows : ℕ
rows_chunk_max_rows = 1000

-- `emitChunk`; the columns go with the first chunk only.
unfoldable pub chunk_of : {C V : Type 0} → Option C → List V → Bool → RowsChunk C V
chunk_of columns batch more = record {
  rows = batch;
  row_count = length batch;
  more = more;
  columns = columns;
}

-- The loop over the rows, each of which scans or gives an error, and the error of the rows at their end.
unfoldable pub send_rows :
    {C V : Type 0} → ℕ → Option C → List V → List (Text ⊎ V) → Option Text → List (Message C V)
unfolding chunk_of
send_rows id columns batch [] (some e) = query_error id e ∷ []
send_rows id columns batch [] none = rows_chunk id (chunk_of columns batch false) ∷ []
send_rows id columns batch (inl e ∷ rows) err = query_error id e ∷ []
send_rows id columns batch (inr v ∷ rows) err =
    let batch' = batch ++ (v ∷ []) in
    let emptied = send_rows id none [] rows err in
    let filled = send_rows id columns batch' rows err in
    if leb rows_chunk_max_rows (length batch')
    then rows_chunk id (chunk_of columns batch' true) ∷ emptied
    else filled
