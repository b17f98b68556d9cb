-- ===== src/Agent/Rows/Chunked.antt =====
-- What the server gets of the rows of a query that scan.
use nuzur_cli.Base.{
  ℕ, ◌<◌, ◌≡◌, true, false, List, [], ◌∷◌, ◌++◌, Option, none, length, some, map, append-nil, refl,
  inr, length-append, arith, Bool-cases, leb, inl, subst, append_assoc,
}
use nuzur_cli.Agent.Rows.{
  Message, rows_chunk, rows_chunk_max_rows, chunk_of, some, send_rows, inr, leb,
}

-- The rows of the chunks in order, the columns on the first one alone, and each chunk with as many rows as
-- it says: a thousand if more follow, and fewer in the last one.
abbrev pub Delivers : {C V : Type 0} → ℕ → Option C → List V → List (Message C V) → Type 0
Delivers id columns rows [] = ⊥
Delivers id columns rows (rows_chunk i c ∷ []) =
    (i ≡ id)
    × (c.columns ≡ columns)
    × (c.more ≡ false)
    × (c.rows ≡ rows)
    × (c.row_count ≡ length rows)
    × (length rows < rows_chunk_max_rows)
Delivers {V = V} id columns rows (rows_chunk i c ∷ m ∷ ms) =
    (i ≡ id)
    × (c.columns ≡ columns)
    × (c.more ≡ true)
    × (c.row_count ≡ rows_chunk_max_rows)
    × (length c.rows ≡ rows_chunk_max_rows)
    × ((rest : List V) × (c.rows ++ rest ≡ rows) × Delivers id none rest (m ∷ ms))
Delivers id columns rows (_ ∷ ms) = ⊥

module _ {C V : Type 0} (id : ℕ) where
  chunk-first :
      (columns : Option C) (batch vs : List V) (ms : List (Message C V))
      → length batch ≡ rows_chunk_max_rows
      → Delivers id none vs ms
      → Delivers id columns (batch ++ vs) (rows_chunk id (chunk_of columns batch true) ∷ ms)
  unfolding chunk_of
  chunk-first columns batch vs [] full d = absurd d
  chunk-first columns batch vs (m ∷ ms) full d = (refl, refl, refl, full, full, (vs, refl, d))

  chunk-last :
      (columns : Option C) (batch : List V)
      → length batch < rows_chunk_max_rows
      → Delivers id columns (batch ++ []) (rows_chunk id (chunk_of columns batch false) ∷ [])
  unfolding chunk_of
  chunk-last columns batch small = rw append-nil (refl, refl, refl, refl, refl, small)

  batched-Delivers :
      (columns : Option C) (batch vs : List V)
      → length batch < rows_chunk_max_rows
      → Delivers id columns (batch ++ vs) (send_rows id columns batch (map inr vs) none)
  unfolding send_rows
  batched-Delivers columns batch [] small = chunk-last columns batch small
  batched-Delivers columns batch (v ∷ vs) small =
      let one_more = length-append batch (v ∷ []) in
      elim (Bool-cases (leb rows_chunk_max_rows (length (batch ++ (v ∷ []))))) [
        | inl full ↦ rw full (
            subst
              (λ (rows : List V). Delivers id columns rows (
                rows_chunk id (chunk_of columns (batch ++ (v ∷ [])) true)
                ∷ send_rows id none [] (map inr vs) none))
              (append_assoc batch (v ∷ []) vs)
              (chunk-first columns (batch ++ (v ∷ [])) vs _ (ground (arith, one_more, full))
                (batched-Delivers none [] vs (omega arith))))
        | inr room ↦ rw room (
            subst
              (λ (rows : List V).
                Delivers id columns rows
                  (send_rows id columns (batch ++ (v ∷ [])) (map inr vs) none))
              (append_assoc batch (v ∷ []) vs)
              (batched-Delivers columns (batch ++ (v ∷ [])) vs (ground (arith, room))))
      ]

-- A query all of whose rows scan, and whose rows then end without an error, is answered by chunks only: in order they hold its rows, each once; the
-- columns are on the first one alone; a chunk says how many rows it has, and whether another one follows; one that is
-- followed has a thousand rows, and the last one fewer.
pub send_rows-Delivers :
    {C V : Type 0} (id : ℕ) (columns : C) (rows : List V)
    → Delivers id (some columns) rows (send_rows id (some columns) [] (map inr rows) none)
send_rows-Delivers id columns rows = batched-Delivers id (some columns) [] rows (omega arith)
