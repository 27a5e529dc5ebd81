-- ===== src/Postgres/Transactions.antt =====
-- CreateBatch, FetchScheduledReady and FetchRetryReady of
-- internal/infrastructure/postgres/notification_repository.go: the methods that run a transaction. The
-- deferred Rollback undoes it on each way out but the one after Commit.
pub mod Atomic
pub mod Fetch
pub mod Once
use insider_one_notification.Prelude.{
  String, ℕ, ◌+◌, ◌≡◌, refl, Bool, true, false, ◌&&◌, ◌||◌, Option, none, some, is_some, List, [],
  ◌∷◌, ◌++◌, map, length, any, String, ltb, leb, ◌==◌, if◌then◌else◌,
}
use insider_one_notification.Errors.{Error, sentinel, not_found, not_found_error, wrap}
use insider_one_notification.Result.{Result, ok, err, ◌>>=◌}
use insider_one_notification.Entity.{Notification, Status, cancelled, queued, Uuid, Time}
use insider_one_notification.Entity.Statuses.{is_pending, is_queued, is_failed}
use insider_one_notification.Postgres.Row.{
  Row, Json, to_row, scan_notification, collect_notifications, map_pg_error,
}
use insider_one_notification.Postgres.Server.{Server}
use insider_one_notification.Postgres.Clauses.{
  is_scheduled_ready, is_retry_ready, is_cancellable, has_id, extract_ids, set_status,
  set_cancelled, set_queued, set_attempted, mark_queued,
}

module _ (json : Json) (server : Server) where
  open server use {Db, now, insert, update, lock_rows, begin, commit, rollback}

  abbrev pub in_batch : Result Row → Result Row
  in_batch (ok r) = ok r
  in_batch (err e) = err (wrap "marshaling template vars for notification" e)

  -- The rows of the one INSERT of CreateBatch.
  unfoldable pub to_rows : List Notification → Result (List Row)
  to_rows [] = ok []
  to_rows (n ∷ rest) = do r ← in_batch (to_row json n); rs ← to_rows rest; ok (r ∷ rs)

  -- `if err := tx.Commit(ctx); err != nil`, and else the result of the method.
  unfoldable pub closed : {A : Type 0} → String → A → Result (Unit {0}) × Db → Result A × Db
  closed context a (ok u, db) = (ok a, db)
  closed context a (err e, db) = (err (wrap context e), db)

  finish_batch : Db → Result (Unit {0}) × Db → Result (Unit {0}) × Db
  finish_batch before (err e, inside) = (err (map_pg_error e), rollback before inside)
  finish_batch before (ok u, inside) = closed "committing batch insert" tt (commit before inside)

  insert_rows : Db → Result (List Row) → Db → Result (Unit {0}) × Db
  unfolding finish_batch
  insert_rows before (err e) inside = (err e, rollback before inside)
  insert_rows before (ok rs) inside = finish_batch before (insert rs inside)

  begun : List Notification → Db → Result (Unit {0}) × Db → Result (Unit {0}) × Db
  unfolding insert_rows
  begun ns before (err e, db) = (err (wrap "beginning transaction" e), db)
  begun ns before (ok u, inside) = insert_rows before (to_rows ns) inside

  unfoldable pub create_batch : List Notification → Db → Result (Unit {0}) × Db
  unfolding begun
  create_batch [] db = (ok tt, db)
  create_batch (n ∷ ns) db = begun (n ∷ ns) db (begin db)

  -- The second half of the two Fetch methods, from the notifications that were selected.
  finish_fetch : Db → Time → List Notification → Result ℕ × Db → Result (List Notification) × Db
  finish_fetch before now' ns (err e, inside) =
      (err (wrap "updating notifications to queued" e), rollback before inside)
  finish_fetch before now' ns (ok affected, inside) =
      closed "committing fetch" (map (mark_queued now') ns) (commit before inside)

  -- The UPDATE is left out when nothing was selected.
  pub mark_selected : Db → Time → Result (List Notification) → Db → Result (List Notification) × Db
  unfolding finish_fetch
  mark_selected before now' (err e) inside = (err e, rollback before inside)
  mark_selected before now' (ok []) inside = finish_fetch before now' [] (ok 0, inside)
  mark_selected before now' (ok (n ∷ ns)) inside =
      finish_fetch before now' (n ∷ ns)
        (update (λ r. any (λ id. r.id == id) (extract_ids (n ∷ ns))) (set_queued now') inside)

  select_ready : Db → Time → Result (List Row) × Db → Result (List Notification) × Db
  unfolding mark_selected
  select_ready before now' (err e, inside) =
      (err (wrap "selecting notifications" e), rollback before inside)
  select_ready before now' (ok rs, inside) =
      mark_selected before now' (collect_notifications json rs) inside

  begun_fetch :
      (Time → Row → Bool)
      → (Row → Option Time)
      → ℕ
      → Db
      → Result (Unit {0}) × Db
      → Result (List Notification) × Db
  unfolding select_ready
  begun_fetch matches column limit before (err e, db) = (err (wrap "beginning transaction" e), db)
  begun_fetch matches column limit before (ok u, inside) =
      select_ready before (now inside) (lock_rows (matches (now inside)) column limit inside)

  unfoldable pub fetch_ready :
      (Time → Row → Bool) → (Row → Option Time) → ℕ → Db → Result (List Notification) × Db
  unfolding begun_fetch
  fetch_ready matches column limit db = begun_fetch matches column limit db (begin db)

  unfoldable pub fetch_scheduled_ready : ℕ → Db → Result (List Notification) × Db
  unfolding fetch_ready
  fetch_scheduled_ready = fetch_ready is_scheduled_ready (λ r. r.scheduled_at)

  unfoldable pub fetch_retry_ready : ℕ → Db → Result (List Notification) × Db
  unfolding fetch_ready
  fetch_retry_ready = fetch_ready is_retry_ready (λ r. r.next_retry_at)
