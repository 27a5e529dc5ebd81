-- ===== src/Postgres/Transactions/Atomic.antt =====
-- The methods that run a transaction do all of it or nothing.
use mathlib.Core.List.{append-nil}
use insider_one_notification.Prelude.{
  String, ℕ, ◌≡◌, refl, sym, ap, ◌∙◌, ◌⊎◌, inl, inr, false, List, [], ◌∷◌, ◌++◌, map, any, ◌==◌,
}
use insider_one_notification.Errors.{Error, wrap}
use insider_one_notification.Result.{Result, ok, err}
use insider_one_notification.Entity.{Notification, Time}
use insider_one_notification.Postgres.Row.{Row, Json, map_pg_error}
use insider_one_notification.Postgres.Server.{Server, clashes, updated}
use insider_one_notification.Postgres.Clauses.{extract_ids, set_queued, mark_queued}
use insider_one_notification.Postgres.Transactions.{
  to_rows, closed, finish_batch, insert_rows, begun, create_batch, finish_fetch, mark_selected,
}

module _ (json : Json) (server : Server) where
  open server use {Db, rows, now, insert, update, lock_rows, begin, commit, rollback}

  closed_effect :
      {A : Type 0} (context : String) (a : A) (before inside : Db)
      → (((closed json server context a (commit before inside)).0 ≡ ok a)
          × (rows (closed json server context a (commit before inside)).1 ≡ rows inside))
        ⊎ ((e : Error) × ((closed json server context a (commit before inside)).0
              ≡ err (wrap context e))
            × (rows (closed json server context a (commit before inside)).1 ≡ rows before))
  unfolding closed
  closed_effect context a before inside =
      let (result, db) = commit before inside in
      go result db (server.commit_ok before inside) (server.commit_err before inside)
    where
      go :
          (result : Result (Unit {0})) (db : Db)
          → (result ≡ ok tt → rows db ≡ rows inside)
          → ((e : Error) → result ≡ err e → rows db ≡ rows before)
          → (((closed json server context a (result, db)).0 ≡ ok a)
              × (rows (closed json server context a (result, db)).1 ≡ rows inside))
            ⊎ ((e : Error) × ((closed json server context a (result, db)).0 ≡ err (wrap context e))
                × (rows (closed json server context a (result, db)).1 ≡ rows before))
      go (ok u) db kept back = inl (refl, kept refl)
      go (err e) db kept back = inr (e, refl, back e refl)

  -- All of the batch was appended, and breaks no unique constraint; or an error was returned, and the
  -- table is as it was.
  abbrev pub BatchEffect : List Notification → Db → Result (Unit {0}) × Db → Type 0
  BatchEffect ns db (result, db') =
      ((result ≡ ok tt)
        × ((rs : List Row) × (to_rows json server ns ≡ ok rs)
            × (rows db' ≡ rows db ++ rs)
            × (clashes rs (rows db) ≡ false)))
      ⊎ ((e : Error) × (result ≡ err e) × (rows db' ≡ rows db))

  finish_batch_effect :
      (ns : List Notification) (rs : List Row) (before : Db) (result : Result (Unit {0}))
      (inside : Db)
      → to_rows json server ns ≡ ok rs
      → (result ≡ ok tt → (rows inside ≡ rows before ++ rs) × (clashes rs (rows before) ≡ false))
      → BatchEffect ns before (finish_batch json server before (result, inside))
  unfolding finish_batch
  finish_batch_effect ns rs before (ok u) inside row done =
      let (appended, fresh) = done refl in
      elim (closed_effect "committing batch insert" tt before inside) [
        | inl (e, kept) ↦ inl (e, (rs, row, kept ∙ appended, fresh))
        | inr (x, e, back) ↦ inr (wrap "committing batch insert" x, e, back)
      ]
  finish_batch_effect ns rs before (err e) inside row done =
      inr (map_pg_error e, refl, server.rollback_rows before inside)

  insert_rows_effect :
      (ns : List Notification) (before inside : Db) (made : Result (List Row))
      → to_rows json server ns ≡ made
      → rows inside ≡ rows before
      → BatchEffect ns before (insert_rows json server before made inside)
  unfolding insert_rows
  insert_rows_effect ns before inside (err e) made same =
      inr (e, refl, server.rollback_rows before inside)
  insert_rows_effect ns before inside (ok rs) made same =
      let (result, inside') = insert rs inside in
      finish_batch_effect ns rs before result inside' made
        (λ e. rw (sym same) (server.insert_ok rs inside e))

  begun_effect :
      (ns : List Notification) (before : Db) (result : Result (Unit {0})) (inside : Db)
      → rows inside ≡ rows before
      → BatchEffect ns before (begun json server ns before (result, inside))
  unfolding begun
  begun_effect ns before (err e) inside same = inr (wrap "beginning transaction" e, refl, same)
  begun_effect ns before (ok u) inside same =
      insert_rows_effect ns before inside (to_rows json server ns) refl same

  nil-clashes : (old : List Row) → old ≡ old ++ []
  nil-clashes old = sym (append-nil old)

  -- CreateBatch is all or nothing: on success every notification of the batch has been appended, in
  -- order, and no two rows share an ID or an idempotency key with a new one; on any error, at any step
  -- of the transaction, the table is as it was.
  pub create_batch_effect :
      (ns : List Notification) (db : Db) → BatchEffect ns db (create_batch json server ns db)
  unfolding create_batch
  create_batch_effect [] db = inl (refl, ([], unfold to_rows in refl, nil-clashes (rows db), refl))
  create_batch_effect (n ∷ ns) db =
      let (result, inside) = begin db in
      begun_effect (n ∷ ns) db result inside (server.begin_rows db)

  -- The result of a fetch that found `ns` is those notifications, queued, and the rows of their IDs
  -- are queued in the table.
  abbrev pub FetchEffect : List Notification → Time → Db → Result (List Notification) × Db → Type 0
  FetchEffect ns now' before (result, db') =
      ((result ≡ ok (map (mark_queued now') ns))
        × ((t : Time) × (rows db'
              ≡ map (updated t (λ r. any (λ id. r.id == id) (extract_ids ns)) (set_queued now'))
                  (rows before))))
      ⊎ ((e : Error) × (result ≡ err e) × (rows db' ≡ rows before))

  map-updated_never :
      (t : Time) (assign : Row → Row) (rs : List Row) → map (updated t (λ r. false) assign) rs ≡ rs
  map-updated_never t assign [] = refl
  map-updated_never t assign (r ∷ rs) = ap (λ l. r ∷ l) (map-updated_never t assign rs)

  finish_fetch_effect :
      (ns : List Notification) (now' t : Time) (before : Db) (tag : Result ℕ) (inside : Db)
      → ((n : ℕ)
          → tag ≡ ok n
          → rows inside
            ≡ map
                (updated t (λ r. any (λ id. r.id == id) (extract_ids ns)) (set_queued now'))
                (rows before))
      → FetchEffect ns now' before (finish_fetch json server before now' ns (tag, inside))
  unfolding finish_fetch
  finish_fetch_effect ns now' t before (err e) inside done =
      inr (wrap "updating notifications to queued" e, refl, server.rollback_rows before inside)
  finish_fetch_effect ns now' t before (ok n) inside done =
      elim (closed_effect "committing fetch" (map (mark_queued now') ns) before inside) [
        | inl (e, kept) ↦ inl (e, (t, kept ∙ done n refl))
        | inr (x, e, back) ↦ inr (wrap "committing fetch" x, e, back)
      ]

  pub mark_selected_effect :
      (ns : List Notification) (now' : Time) (before inside : Db)
      → rows inside ≡ rows before
      → FetchEffect ns now' before (mark_selected json server before now' (ok ns) inside)
  unfolding mark_selected
  mark_selected_effect [] now' before inside same =
      finish_fetch_effect [] now' 0 before (ok 0) inside
        (λ n e. same ∙ sym (map-updated_never 0 (set_queued now') (rows before)))
  mark_selected_effect (n ∷ ns) now' before inside same =
      let (tag, inside') =
        update (λ r. any (λ id. r.id == id) (extract_ids (n ∷ ns))) (set_queued now') inside in
      finish_fetch_effect (n ∷ ns) now' (server.server_now inside) before tag inside'
        (λ k e. rw (sym same) (server.update_ok _ (set_queued now') inside k e).0)
