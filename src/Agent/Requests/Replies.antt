-- ===== src/Agent/Requests/Replies.antt =====
-- The messages among what a handler does, and when they answer a request.
use nuzur_cli.Base.{
  ℕ, ◌≡◌, refl, ap, Bool, true, false, List, [], ◌∷◌, ◌++◌, Option, none, some, ◌⊎◌, inl, inr,
  if◌then◌else◌, map, Bool-cases, leb, length, append-nil,
}
use nuzur_cli.Text.{Text}
use nuzur_cli.Agent.Rows.{
  Message, pong, query_error, commit_response, rollback_response, exec_response, begin_tx_response,
  rows_chunk, send_rows, chunk_of, rows_chunk_max_rows, schema_plan_response, metrics_response,
}
use nuzur_cli.Agent.Requests.{
  Effect, took_slot, freed_slot, took_conn, freed_conn, sent, ran, began, rolled_back, committed,
}

-- The request that a message answers, and whether the answer ends with it.
abbrev pub answers : {C V : Type 0} → Message C V → ℕ
answers (pong id) = id
answers (commit_response id) = id
answers (rollback_response id) = id
answers (query_error id e) = id
answers (rows_chunk id c) = id
answers (exec_response id n last) = id
answers (begin_tx_response id tx) = id
answers (schema_plan_response id sql) = id
answers (metrics_response id m) = id

abbrev pub is_last : {C V : Type 0} → Message C V → Bool
is_last (rows_chunk id c) = if c.more then false else true
is_last _ = true

abbrev pub messages : {C V : Type 0} → List (Effect C V) → List (Message C V)
messages [] = []
messages (sent m ∷ es) = m ∷ messages es
messages (took_slot ∷ es) = messages es
messages (freed_slot ∷ es) = messages es
messages (took_conn ∷ es) = messages es
messages (freed_conn ∷ es) = messages es
messages (ran q sql ∷ es) = messages es
messages (began tx ∷ es) = messages es
messages (rolled_back tx ∷ es) = messages es
messages (committed tx ∷ es) = messages es

-- All messages answer the request, and the last one, and no other, ends the answer.
abbrev pub Answered : {C V : Type 0} → ℕ → List (Message C V) → Type 0
Answered id [] = ⊥
Answered id (m ∷ []) = (answers m ≡ id) × (is_last m ≡ true)
Answered id (m ∷ n ∷ ms) = (answers m ≡ id) × (is_last m ≡ false) × Answered id (n ∷ ms)

module _ {C V : Type 0} where
  pub messages-append :
      (xs ys : List (Effect C V)) → messages (xs ++ ys) ≡ messages xs ++ messages ys
  messages-append [] ys = refl
  messages-append (sent m ∷ es) ys = ap (◌∷◌ m) (messages-append es ys)
  messages-append (took_slot ∷ es) ys = messages-append es ys
  messages-append (freed_slot ∷ es) ys = messages-append es ys
  messages-append (took_conn ∷ es) ys = messages-append es ys
  messages-append (freed_conn ∷ es) ys = messages-append es ys
  messages-append (ran q sql ∷ es) ys = messages-append es ys
  messages-append (began tx ∷ es) ys = messages-append es ys
  messages-append (rolled_back tx ∷ es) ys = messages-append es ys
  messages-append (committed tx ∷ es) ys = messages-append es ys

  pub messages-sent : (ms : List (Message C V)) → messages (map sent ms) ≡ ms
  messages-sent [] = refl
  messages-sent (m ∷ ms) = ap (◌∷◌ m) (messages-sent ms)

  -- Events that send nothing may stand before and behind.
  pub between :
      (id : ℕ) (before es behind : List (Effect C V))
      → messages before ≡ []
      → messages behind ≡ []
      → Answered id (messages es)
      → Answered id (messages (before ++ (es ++ behind)))
  between id before es behind quiet silent h =
      rw (messages-append before (es ++ behind))
        (rw quiet (rw (messages-append es behind) (rw silent (rw append-nil h))))

  more-Answered :
      (id : ℕ) (columns : Option C) (batch : List V) (ms : List (Message C V))
      → Answered id ms
      → Answered id (rows_chunk id (chunk_of columns batch true) ∷ ms)
  unfolding chunk_of
  more-Answered id columns batch [] h = absurd h
  more-Answered id columns batch (m ∷ ms) h = (refl, refl, h)

  pub send_rows-Answered :
      (id : ℕ) (columns : Option C) (batch : List V) (rows : List (Text ⊎ V)) (err : Option Text)
      → Answered id (send_rows id columns batch rows err)
  unfolding send_rows chunk_of
  send_rows-Answered id columns batch [] (some e) = (refl, refl)
  send_rows-Answered id columns batch [] none = (refl, refl)
  send_rows-Answered id columns batch (inl e ∷ rows) err = (refl, refl)
  send_rows-Answered id columns batch (inr v ∷ rows) err =
      elim (Bool-cases (leb rows_chunk_max_rows (length (batch ++ (v ∷ []))))) [
        | inl full ↦ rw full (
            more-Answered id columns (batch ++ (v ∷ [])) (send_rows id none [] rows err)
              (send_rows-Answered id none [] rows err))
        | inr room ↦ rw room (send_rows-Answered id columns (batch ++ (v ∷ [])) rows err)
      ]
