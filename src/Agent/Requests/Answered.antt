-- ===== src/Agent/Requests/Answered.antt =====
-- What the agent sends for a request.
use nuzur_cli.Agent.Probes.{schema_plan}
use nuzur_cli.Base.Int.{ℤ}
use nuzur_cli.Agent.TxPool.{TxPool}
use nuzur_cli.Base.{
  ℕ, ◌≡◌, refl, ◌∙◌, List, [], ◌∷◌, Option, none, some, ◌⊎◌, inl, inr, Bool-cases, Option-cases,
  is_nil,
}
use nuzur_cli.Text.{Text}
use nuzur_cli.Agent.Rows.{Message, query_error, begin_tx_response}
use nuzur_cli.Agent.Requests.{
  Queryer, World, QueryRows, Effect, took_slot, freed_slot, freed_conn, sent, rolled_back,
  run_schema, on_schema, answer_query, answer_exec, rollback_popped, with_queryer, keep_tx,
  release_of, handle_begin_tx, resolve_queryer_with_schema, slot_unless_tx, commit_popped,
  handle_exec, Request, handle_reverse_rpc, handle_run_query, resolve_db, begun, with_slot, ping,
  on_tx, ℤ, TxPool, apply_schema_to_execer, handle_commit, run_query, on_db, is_nil,
  handle_rollback, on_conn, schema_statement, exec, begin_tx, commit, pop_maybe, rollback,
  compute_pg_schema_plan, collect_deployment_metrics, unhandled, answer_plan, schema_plan,
}
use nuzur_cli.Agent.Requests.Replies.{
  messages, Answered, messages-append, messages-sent, between, send_rows-Answered,
}

module _ {C V : Type 0} (w : World C V) where
  answer_query-Answered : (id : ℕ) (q : Text ⊎ QueryRows C V) → Answered id (answer_query w id q)
  unfolding answer_query
  answer_query-Answered id (inl e) = (refl, refl)
  answer_query-Answered id (inr r) = send_rows-Answered id (some r.columns) [] r.rows r.rows_error

  run_schema-quiet : (q : Queryer) (s : Option Text) → messages (run_schema w q s).0 ≡ []
  unfolding run_schema
  run_schema-quiet q none = refl
  run_schema-quiet q (some s) = refl

  on_schema-quiet :
      (r : List (Effect C V) × Option Text) → messages r.0 ≡ [] → messages (on_schema w r).0 ≡ []
  unfolding on_schema
  on_schema-quiet (events, some e) h = messages-append events (freed_conn ∷ []) ∙ rw h refl
  on_schema-quiet (events, none) h = h

  resolve_db-quiet : (schema : Text) (d : Text ⊎ Text) → messages (resolve_db w schema d).0 ≡ []
  unfolding resolve_db apply_schema_to_execer
  resolve_db-quiet schema (inl e) = refl
  resolve_db-quiet schema (inr driver) = elim (Bool-cases (is_nil schema)) [
    | inl bare ↦ rw bare refl
    | inr named ↦ elim (Option-cases w.conn_error) [
      | inl none_there ↦ rw named (
          rw none_there (
            on_schema-quiet (run_schema w on_conn (schema_statement driver schema))
              (run_schema-quiet on_conn (schema_statement driver schema))))
      | inr (e, failed) ↦ rw named (rw failed refl)
    ]
  ]

  resolved-quiet :
      (p : TxPool) (conn : Text) (tx_id : Option ℕ) (schema : Text)
      → messages (resolve_queryer_with_schema w p conn tx_id schema).1.0 ≡ []
  unfolding resolve_queryer_with_schema
  resolved-quiet p conn none schema = resolve_db-quiet schema (w.driver_of conn)
  resolved-quiet p conn (some id) schema = refl

  release-quiet : (q : Queryer) → messages (release_of w q) ≡ []
  unfolding release_of
  release-quiet on_db = refl
  release-quiet on_conn = refl
  release-quiet (on_tx tx) = refl

  with_queryer-Answered :
      (id : ℕ) (r : List (Effect C V) × (Text ⊎ Queryer)) (body : Queryer → List (Effect C V))
      → messages r.0 ≡ []
      → ((q : Queryer) → Answered id (messages (body q)))
      → Answered id (messages (with_queryer w id r body))
  unfolding with_queryer
  with_queryer-Answered id (events, inl e) body quiet h =
      rw (messages-append events (sent (query_error id e) ∷ [])) (rw quiet (refl, refl))
  with_queryer-Answered id (events, inr q) body quiet h =
      between id events (body q) (release_of w q) quiet (release-quiet q) (h q)

  answer_exec-Answered : (id : ℕ) (x : Text ⊎ (ℤ × ℤ)) → Answered id (answer_exec w id x ∷ [])
  unfolding answer_exec
  answer_exec-Answered id (inl e) = (refl, refl)
  answer_exec-Answered id (inr (n, last)) = (refl, refl)

  run_query-Answered :
      (p : TxPool) (id : ℕ) (conn : Text) (tx_id : Option ℕ) (schema sql : Text)
      → Answered id (messages (handle_run_query w p id conn tx_id schema sql).1)
  unfolding handle_run_query
  run_query-Answered p id conn tx_id schema sql =
      with_queryer-Answered id (resolve_queryer_with_schema w p conn tx_id schema).1 _
        (resolved-quiet p conn tx_id schema)
        (λ q. rw (messages-sent (answer_query w id w.query)) (answer_query-Answered id w.query))

  exec-Answered :
      (p : TxPool) (id : ℕ) (conn : Text) (tx_id : Option ℕ) (schema sql : Text)
      → Answered id (messages (handle_exec w p id conn tx_id schema sql).1)
  unfolding handle_exec
  exec-Answered p id conn tx_id schema sql =
      with_queryer-Answered id (resolve_queryer_with_schema w p conn tx_id schema).1 _
        (resolved-quiet p conn tx_id schema) (λ q. answer_exec-Answered id w.exec)

  keep_tx-Answered :
      (p : TxPool) (id tx : ℕ) (r : List (Effect C V) × Option Text)
      → messages r.0 ≡ []
      → Answered id (messages (keep_tx w p id tx r).1)
  unfolding keep_tx
  keep_tx-Answered p id tx (events, some e) quiet =
      rw (messages-append events (rolled_back tx ∷ sent (query_error id e) ∷ []))
        (rw quiet (refl, refl))
  keep_tx-Answered p id tx (events, none) quiet =
      rw (messages-append events (sent (begin_tx_response id w.fresh_id) ∷ []))
        (rw quiet (refl, refl))

  begun-Answered :
      (p : TxPool) (id : ℕ) (driver schema : Text) (b : Text ⊎ ℕ)
      → Answered id (messages (begun w p id driver schema b).1)
  unfolding begun apply_schema_to_execer
  begun-Answered p id driver schema (inl e) = (refl, refl)
  begun-Answered p id driver schema (inr tx) = elim (Bool-cases (is_nil schema)) [
    | inl bare ↦ rw bare (keep_tx-Answered p id tx ([], none) refl)
    | inr named ↦ rw named (
        keep_tx-Answered p id tx (run_schema w (on_tx tx) (schema_statement driver schema))
          (run_schema-quiet (on_tx tx) (schema_statement driver schema)))
  ]

  begin_tx-Answered :
      (p : TxPool) (id : ℕ) (schema : Text) (d : Text ⊎ Text)
      → Answered id (messages (handle_begin_tx w p id schema d).1)
  unfolding handle_begin_tx
  begin_tx-Answered p id schema (inl e) = (refl, refl)
  begin_tx-Answered p id schema (inr driver) = begun-Answered p id driver schema w.begin

  commit-Answered : (id : ℕ) (tx : Option ℕ) → Answered id (messages (commit_popped w id tx))
  unfolding commit_popped
  commit-Answered id none = (refl, refl)
  commit-Answered id (some tx) = elim (Option-cases w.commit_error) [
    | inl fine ↦ rw fine (refl, refl)
    | inr (e, failed) ↦ rw failed (refl, refl)
  ]

  rollback-Answered : (id : ℕ) (tx : Option ℕ) → Answered id (messages (rollback_popped w id tx))
  unfolding rollback_popped
  rollback-Answered id none = (refl, refl)
  rollback-Answered id (some tx) = elim (Option-cases w.rollback_error) [
    | inl fine ↦ rw fine (refl, refl)
    | inr (e, failed) ↦ rw failed (refl, refl)
  ]

  with_slot-Answered :
      (acquire_error : Option Text) (p : TxPool) (id : ℕ) (handled : TxPool × List (Effect C V))
      → Answered id (messages handled.1)
      → Answered id (messages (with_slot w acquire_error p id handled).1)
  unfolding with_slot
  with_slot-Answered (some e) p id handled h = (refl, refl)
  with_slot-Answered none p id handled h =
      between id (took_slot ∷ []) handled.1 (freed_slot ∷ []) refl refl h

  unless_tx-Answered :
      (tx_id : Option ℕ) (p : TxPool) (id : ℕ) (handled : TxPool × List (Effect C V))
      → Answered id (messages handled.1)
      → Answered id (messages (slot_unless_tx w tx_id p id handled).1)
  unfolding slot_unless_tx
  unless_tx-Answered none p id handled h = with_slot-Answered w.acquire_error p id handled h
  unless_tx-Answered (some tx_id) p id handled h = h

  answer_plan-Answered : (id : ℕ) (x : Text ⊎ Text) → Answered id (answer_plan w id x ∷ [])
  unfolding answer_plan
  answer_plan-Answered id (inl e) = (refl, refl)
  answer_plan-Answered id (inr sql) = (refl, refl)

  -- A request of an unknown kind is owed nothing.
  abbrev pub Owed : Request → List (Message C V) → Type 0
  Owed (ping id) ms = Answered id ms
  Owed (run_query id conn tx_id schema sql) ms = Answered id ms
  Owed (exec id conn tx_id schema sql) ms = Answered id ms
  Owed (begin_tx id conn schema) ms = Answered id ms
  Owed (commit id tx_id) ms = Answered id ms
  Owed (rollback id tx_id) ms = Answered id ms
  Owed (compute_pg_schema_plan id r) ms = Answered id ms
  Owed (collect_deployment_metrics id r) ms = Answered id ms
  Owed unhandled ms = ms ≡ []

  -- Whatever the database, the semaphore and the probes answer, each request of a known kind is answered, by messages
  -- with its own id, the last of which, and no other, ends the answer; one of an unknown kind is not answered.
  pub handle_reverse_rpc-Owed :
      (p : TxPool) (r : Request) → Owed r (messages (handle_reverse_rpc w p r).1)
  unfolding handle_reverse_rpc handle_commit handle_rollback
  handle_reverse_rpc-Owed p (ping id) = (refl, refl)
  handle_reverse_rpc-Owed p (run_query id conn tx_id schema sql) =
      unless_tx-Answered tx_id p id (handle_run_query w p id conn tx_id schema sql)
        (run_query-Answered p id conn tx_id schema sql)
  handle_reverse_rpc-Owed p (exec id conn tx_id schema sql) =
      unless_tx-Answered tx_id p id (handle_exec w p id conn tx_id schema sql)
        (exec-Answered p id conn tx_id schema sql)
  handle_reverse_rpc-Owed p (begin_tx id conn schema) =
      with_slot-Answered w.acquire_error p id (handle_begin_tx w p id schema (w.driver_of conn))
        (begin_tx-Answered p id schema (w.driver_of conn))
  handle_reverse_rpc-Owed p (commit id tx_id) = commit-Answered id (pop_maybe w tx_id p).1
  handle_reverse_rpc-Owed p (rollback id tx_id) = rollback-Answered id (pop_maybe w tx_id p).1
  handle_reverse_rpc-Owed p (compute_pg_schema_plan id r) =
      with_slot-Answered w.acquire_error p id
        (p, sent (answer_plan w id (schema_plan w.plan_tools w.registry r)) ∷ [])
        (answer_plan-Answered id (schema_plan w.plan_tools w.registry r))
  handle_reverse_rpc-Owed p (collect_deployment_metrics id r) = (refl, refl)
  handle_reverse_rpc-Owed p unhandled = refl
