-- ===== src/Agent/Requests.antt =====
-- The requests of the server and how the agent handles them: `handleReverseRPC` of agent/daemon.go and the
-- handlers of agent/handlers.go. What the database and the semaphore answer is a record, an empty id of a
-- transaction is none.
pub mod Answered
pub mod Quoted
pub mod Released
pub mod Replies
mod Tests
use mathlib.Core.Option
use nuzur_cli.Base.{
  ℕ, Bool, true, false, List, [], ◌∷◌, ◌++◌, Option, none, some, ◌⊎◌, inl, inr, if◌then◌else◌,
  is_nil, map,
}
use nuzur_cli.Base.Int.{ℤ}
use nuzur_cli.Text.{Text, codes, equal, replace_all, replace_from}
use nuzur_cli.Agent.Connections.{Entry}
use nuzur_cli.Agent.Probes.{
  PlanRequest, PlanTools, schema_plan, MetricsRequest, Probes, deployment_metrics,
}
use nuzur_cli.Agent.TxPool.{TxPool, get, add, pop}
use nuzur_cli.Agent.Rows.{
  Message, pong, query_error, commit_response, rollback_response, exec_response, begin_tx_response,
  send_rows, schema_plan_response, metrics_response,
}

-- The id of a request and what it asks. An empty `tx_id` is none.
pub data Request : Type 0 where
  ping : ℕ → Request
  compute_pg_schema_plan : ℕ → PlanRequest → Request
  collect_deployment_metrics : ℕ → MetricsRequest → Request
  run_query exec : ℕ → (conn : Text) → (tx_id : Option ℕ) → (schema sql : Text) → Request
  begin_tx : ℕ → (conn schema : Text) → Request
  commit rollback : ℕ → (tx_id : Option ℕ) → Request
  unhandled : Request

-- What a statement runs on.
pub data Queryer : Type 0 where
  on_db on_conn : Queryer
  on_tx : ℕ → Queryer

pub record QueryRows (C V : Type 0) : Type 0 where
  pub columns : C
  pub rows : List (Text ⊎ V)
  pub rows_error : Option Text

-- The answers of what the handlers call: an error or a value. `fresh_id` is the id that `txPool.Add` draws.
pub record World (C V : Type 0) : Type 0 where
  pub acquire_error : Option Text
  pub driver_of : Text → Text ⊎ Text
  pub conn_error : Option Text
  pub schema_error : Option Text
  pub query : Text ⊎ QueryRows C V
  pub exec : Text ⊎ (ℤ × ℤ)
  pub begin : Text ⊎ ℕ
  pub commit_error : Option Text
  pub rollback_error : Option Text
  pub fresh_id : ℕ
  pub now : ℕ
  pub registry : List Entry
  pub plan_tools : PlanTools
  pub probes : Probes

pub data Effect (C V : Type 0) : Type 0 where
  took_slot freed_slot took_conn freed_conn : Effect C V
  sent : Message C V → Effect C V
  ran : Queryer → Text → Effect C V
  began rolled_back committed : ℕ → Effect C V

-- An identifier between two marks, with each mark in it doubled.
unfoldable pub quoted : ℕ → Text → Text
unfolding replace_from
quoted mark name = mark ∷ (replace_all name (mark ∷ []) (mark ∷ mark ∷ []) ++ (mark ∷ []))

-- The statement of `applySchemaToExecer`; none for an unknown driver.
unfoldable pub schema_statement : Text → Text → Option Text
unfolding quoted equal
schema_statement driver schema =
    if equal driver (codes "mysql")
    then some (codes "USE " ++ quoted b'`' schema)
    else if equal driver (codes "postgres")
    then some (codes "SET search_path TO " ++ quoted b'"' schema)
    else none

abbrev pub unknown_tx : Text
unknown_tx = codes "unknown tx_id (possibly idle-reaped)"

module _ {C V : Type 0} (w : World C V) where
  unfoldable pub run_schema : Queryer → Option Text → List (Effect C V) × Option Text
  run_schema q none = ([], none)
  run_schema q (some statement) =
      (ran q statement ∷ [], Option.map (λ e. statement ++ (codes ": " ++ e)) w.schema_error)

  unfoldable pub apply_schema_to_execer : Queryer → Text → Text → List (Effect C V) × Option Text
  unfolding run_schema schema_statement
  apply_schema_to_execer q driver schema = run_schema q (schema_statement driver schema)

  -- A connection with the schema applied, or one given back.
  unfoldable pub on_schema : List (Effect C V) × Option Text → List (Effect C V) × (Text ⊎ Queryer)
  on_schema (events, some e) = (took_conn ∷ events ++ (freed_conn ∷ []), inl e)
  on_schema (events, none) = (took_conn ∷ events, inr on_conn)

  unfoldable pub resolve_db : Text → Text ⊎ Text → List (Effect C V) × (Text ⊎ Queryer)
  unfolding apply_schema_to_execer on_schema
  resolve_db schema (inl e) = ([], inl e)
  resolve_db schema (inr driver) = if is_nil schema then ([], inr on_db) else elim w.conn_error [
    | some e ↦ ([], inl (codes "acquire conn for schema apply: " ++ e))
    | none ↦ on_schema (apply_schema_to_execer on_conn driver schema)
  ]

  unfoldable pub tx_or_unknown : Option ℕ → Text ⊎ Queryer
  tx_or_unknown none = inl unknown_tx
  tx_or_unknown (some tx) = inr (on_tx tx)

  -- `resolveQueryerWithSchema`: the pool of transactions after it, what it did, and what it resolved to.
  unfoldable pub resolve_queryer_with_schema :
      TxPool → Text → Option ℕ → Text → TxPool × (List (Effect C V) × (Text ⊎ Queryer))
  unfolding resolve_db tx_or_unknown get
  resolve_queryer_with_schema p conn none schema = (p, resolve_db schema (w.driver_of conn))
  resolve_queryer_with_schema p conn (some id) schema =
      ((get id w.now p).0, ([], tx_or_unknown (get id w.now p).1))

  -- The closure that `resolveQueryerWithSchema` returns.
  unfoldable pub release_of : Queryer → List (Effect C V)
  release_of on_db = []
  release_of on_conn = freed_conn ∷ []
  release_of (on_tx tx) = []

  unfoldable pub with_queryer :
      ℕ → List (Effect C V) × (Text ⊎ Queryer) → (Queryer → List (Effect C V)) → List (Effect C V)
  unfolding release_of
  with_queryer id (events, inl e) body = events ++ (sent (query_error id e) ∷ [])
  with_queryer id (events, inr q) body = events ++ (body q ++ release_of q)

  unfoldable pub answer_query : ℕ → Text ⊎ QueryRows C V → List (Message C V)
  unfolding send_rows
  answer_query id (inl e) = query_error id e ∷ []
  answer_query id (inr r) = send_rows id (some r.columns) [] r.rows r.rows_error

  unfoldable pub handle_run_query :
      TxPool → ℕ → Text → Option ℕ → Text → Text → TxPool × List (Effect C V)
  unfolding resolve_queryer_with_schema with_queryer answer_query
  handle_run_query p id conn tx_id schema sql =
      let r = resolve_queryer_with_schema p conn tx_id schema in
      (r.0, with_queryer id r.1 (λ q. ran q sql ∷ map sent (answer_query id w.query)))

  unfoldable pub answer_exec : ℕ → Text ⊎ (ℤ × ℤ) → Message C V
  answer_exec id (inl e) = query_error id e
  answer_exec id (inr (rows_affected, last_id)) = exec_response id rows_affected last_id

  unfoldable pub handle_exec :
      TxPool → ℕ → Text → Option ℕ → Text → Text → TxPool × List (Effect C V)
  unfolding resolve_queryer_with_schema with_queryer answer_exec
  handle_exec p id conn tx_id schema sql =
      let r = resolve_queryer_with_schema p conn tx_id schema in
      (r.0, with_queryer id r.1 (λ q. ran q sql ∷ sent (answer_exec id w.exec) ∷ []))

  -- A transaction with the schema applied is added to the pool; one without is rolled back.
  unfoldable pub keep_tx :
      TxPool → ℕ → ℕ → List (Effect C V) × Option Text → TxPool × List (Effect C V)
  unfolding add
  keep_tx p id tx (events, some e) = (p, events ++ (rolled_back tx ∷ sent (query_error id e) ∷ []))
  keep_tx p id tx (events, none) =
      (add w.fresh_id tx w.now p, events ++ (sent (begin_tx_response id w.fresh_id) ∷ []))

  unfoldable pub begun : TxPool → ℕ → Text → Text → Text ⊎ ℕ → TxPool × List (Effect C V)
  unfolding keep_tx apply_schema_to_execer
  begun p id driver schema (inl e) = (p, sent (query_error id e) ∷ [])
  begun p id driver schema (inr tx) =
      let kept =
        keep_tx p id tx
          (if is_nil schema then ([], none) else apply_schema_to_execer (on_tx tx) driver schema) in
      (kept.0, began tx ∷ kept.1)

  unfoldable pub handle_begin_tx : TxPool → ℕ → Text → Text ⊎ Text → TxPool × List (Effect C V)
  unfolding begun
  handle_begin_tx p id schema (inl e) = (p, sent (query_error id e) ∷ [])
  handle_begin_tx p id schema (inr driver) = begun p id driver schema w.begin

  unfoldable pub pop_maybe : Option ℕ → TxPool → TxPool × Option ℕ
  unfolding pop
  pop_maybe none p = (p, none)
  pop_maybe (some id) p = pop id p

  unfoldable pub commit_popped : ℕ → Option ℕ → List (Effect C V)
  commit_popped id none = sent (query_error id unknown_tx) ∷ []
  commit_popped id (some tx) =
      committed tx
      ∷ sent (elim w.commit_error [ none ↦ commit_response id | some e ↦ query_error id e ])
      ∷ []

  unfoldable pub handle_commit : TxPool → ℕ → Option ℕ → TxPool × List (Effect C V)
  unfolding pop_maybe commit_popped
  handle_commit p id tx_id = let r = pop_maybe tx_id p in (r.0, commit_popped id r.1)

  -- A transaction that is gone is a success.
  unfoldable pub rollback_popped : ℕ → Option ℕ → List (Effect C V)
  rollback_popped id none = sent (rollback_response id) ∷ []
  rollback_popped id (some tx) =
      rolled_back tx
      ∷ sent (elim w.rollback_error [ none ↦ rollback_response id | some e ↦ query_error id e ])
      ∷ []

  unfoldable pub handle_rollback : TxPool → ℕ → Option ℕ → TxPool × List (Effect C V)
  unfolding pop_maybe rollback_popped
  handle_rollback p id tx_id = let r = pop_maybe tx_id p in (r.0, rollback_popped id r.1)

  unfoldable pub answer_plan : ℕ → Text ⊎ Text → Message C V
  answer_plan id (inl e) = query_error id e
  answer_plan id (inr apply_sql) = schema_plan_response id apply_sql

  -- A slot of the semaphore for the time that a handler runs, or its error.
  unfoldable pub with_slot :
      Option Text → TxPool → ℕ → TxPool × List (Effect C V) → TxPool × List (Effect C V)
  with_slot (some e) p id handled = (p, sent (query_error id e) ∷ [])
  with_slot none p id handled = (handled.0, took_slot ∷ handled.1 ++ (freed_slot ∷ []))

  -- A query of a transaction takes no slot.
  unfoldable pub slot_unless_tx :
      Option ℕ → TxPool → ℕ → TxPool × List (Effect C V) → TxPool × List (Effect C V)
  unfolding with_slot
  slot_unless_tx none p id handled = with_slot w.acquire_error p id handled
  slot_unless_tx (some tx_id) p id handled = handled

  unfoldable pub handle_reverse_rpc : TxPool → Request → TxPool × List (Effect C V)
  unfolding slot_unless_tx with_slot handle_run_query handle_exec handle_begin_tx handle_commit
      handle_rollback answer_plan
  handle_reverse_rpc p (ping id) = (p, sent (pong id) ∷ [])
  handle_reverse_rpc p (run_query id conn tx_id schema sql) =
      slot_unless_tx tx_id p id (handle_run_query p id conn tx_id schema sql)
  handle_reverse_rpc p (exec id conn tx_id schema sql) =
      slot_unless_tx tx_id p id (handle_exec p id conn tx_id schema sql)
  handle_reverse_rpc p (begin_tx id conn schema) =
      with_slot w.acquire_error p id (handle_begin_tx p id schema (w.driver_of conn))
  handle_reverse_rpc p (commit id tx_id) = handle_commit p id tx_id
  handle_reverse_rpc p (rollback id tx_id) = handle_rollback p id tx_id
  handle_reverse_rpc p (compute_pg_schema_plan id r) =
      with_slot w.acquire_error p id
        (p, sent (answer_plan id (schema_plan w.plan_tools w.registry r)) ∷ [])
  handle_reverse_rpc p (collect_deployment_metrics id r) =
      (p, sent (metrics_response id (deployment_metrics w.probes r)) ∷ [])
  handle_reverse_rpc p unhandled = (p, [])
