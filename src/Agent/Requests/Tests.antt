-- ===== src/Agent/Requests/Tests.antt =====
-- Concrete requests, and instances of the theorems about their handling.
use nuzur_cli.Base.{◌≡◌, refl, ℕ, true, false, [], ◌∷◌, ◌++◌, none, some, inl, inr, map}
use nuzur_cli.Base.Int.{pos}
use nuzur_cli.Text.{Text, codes, replace_from, has_prefix, equal}
use nuzur_cli.Agent.TxPool.{new_tx_pool}
use nuzur_cli.Agent.Rows.{send_rows, rows_chunk, query_error, chunk_of}
use nuzur_cli.Agent.Rows.Chunked.{Delivers, send_rows-Delivers}
use nuzur_cli.Agent.Requests.{
  World, Request, run_query, handle_reverse_rpc, slot_unless_tx, with_slot, handle_run_query,
  resolve_queryer_with_schema, with_queryer, answer_query, resolve_db, apply_schema_to_execer,
  run_schema, on_schema, release_of, schema_statement, quoted, took_slot, freed_slot, took_conn,
  freed_conn, sent, ran, on_conn,
}
use nuzur_cli.Agent.Requests.Answered.{Owed, handle_reverse_rpc-Owed}
use nuzur_cli.Agent.Requests.Replies.{messages}
use nuzur_cli.Agent.Requests.Quoted.{read_identifier, read_identifier-quoted}

abbrev postgres : World Text ℕ
postgres = record {
  acquire_error = none;
  driver_of = λ conn. inr (codes "postgres");
  conn_error = none;
  schema_error = none;
  query = inr (record { columns = codes "id"; rows = inr 7 ∷ []; rows_error = none });
  exec = inr (pos 1, pos 0);
  begin = inr 5;
  commit_error = none;
  rollback_error = none;
  fresh_id = 1;
  now = 0;
  registry = [];
  plan_tools = record { quote = λ t. t; parse_url = λ u. inr u; compute = λ b s e n l. inr [] };
  probes = record { service_active = λ s. true; inspect = λ c. inl []; ping = λ c. inr true };
}

abbrev ask : Request
ask = run_query 3 (codes "c") none (codes "a\"b") (codes "SELECT 1")

handle_reverse_rpc-asked : (handle_reverse_rpc postgres new_tx_pool ask).1 ≡ (
    took_slot
    ∷ took_conn
    ∷ ran on_conn (codes "SET search_path TO \"a\"\"b\"")
    ∷ ran on_conn (codes "SELECT 1")
    ∷ sent (rows_chunk 3 (chunk_of (some (codes "id")) (7 ∷ []) false))
    ∷ freed_conn
    ∷ freed_slot
    ∷ [])
unfolding handle_reverse_rpc slot_unless_tx with_slot handle_run_query resolve_queryer_with_schema
    with_queryer answer_query resolve_db apply_schema_to_execer run_schema on_schema release_of
    schema_statement quoted replace_from has_prefix equal send_rows
handle_reverse_rpc-asked = refl

send_rows-broken :
    send_rows {C = Text} {V = ℕ} 3 none [] (inr 7 ∷ inl (codes "bad") ∷ []) none
    ≡ query_error 3 (codes "bad") ∷ []
unfolding send_rows
send_rows-broken = refl

send_rows-Delivers_example :
    Delivers {V = ℕ} 3
      (some (codes "id"))
      (7 ∷ 8 ∷ [])
      (send_rows 3 (some (codes "id")) [] (map inr (7 ∷ 8 ∷ [])) none)
send_rows-Delivers_example = send_rows-Delivers {V = ℕ} 3 (codes "id") (7 ∷ 8 ∷ [])

handle_reverse_rpc-Owed_example :
    Owed postgres ask (messages (handle_reverse_rpc postgres new_tx_pool ask).1)
handle_reverse_rpc-Owed_example = handle_reverse_rpc-Owed postgres new_tx_pool ask

read_identifier-quoted_example :
    read_identifier b'"' (quoted b'"' (codes "a\"; DROP") ++ codes ";")
    ≡ some (codes "a\"; DROP", codes ";")
read_identifier-quoted_example = read_identifier-quoted b'"' (codes "a\"; DROP") (codes ";") refl
