-- ===== src/Postgres/Notifications.antt =====
-- Create, GetByID, UpdateStatus, Cancel and IncrementAttempts of
-- internal/infrastructure/postgres/notification_repository.go. Each method is a function of the database's
-- state.
pub mod Writes
pub mod Inserts
use insider_one_notification.Prelude.{
  ℕ, ◌+◌, ◌≡◌, refl, Bool, true, false, ◌&&◌, ◌||◌, Option, none, some, is_some, List, [], ◌∷◌,
  ◌++◌, map, length, any, String, ltb, leb, ◌==◌, if◌then◌else◌,
}
use insider_one_notification.Errors.{Error, sentinel, not_found, not_found_error, wrap}
use insider_one_notification.Result.{Result, ok, err, ◌>>=◌}
use insider_one_notification.Entity.{Notification, Status, cancelled, queued, Uuid, Time}
use insider_one_notification.Entity.Statuses.{is_pending, is_queued, is_failed}
use insider_one_notification.Postgres.Row.{
  Row, Json, to_row, scan_notification, collect_notifications, map_pg_error,
}
use insider_one_notification.Postgres.Server.{Server}
use insider_one_notification.Postgres.Clauses.{
  is_scheduled_ready, is_retry_ready, is_cancellable, has_id, extract_ids, set_status,
  set_cancelled, set_queued, set_attempted, mark_queued,
}

module _ (json : Json) (server : Server) where
  open server use {Db, now, insert, update, query_row, lock_rows, begin, commit, rollback}

  -- What a method makes of the tag of an UPDATE: no affected row is NotFoundError.
  affected_or_not_found : String → Uuid → Result ℕ × Db → Result (Unit {0}) × Db
  affected_or_not_found context id (err e, db) = (err (wrap context e), db)
  affected_or_not_found context id (ok affected, db) =
      if affected == 0 then (err (not_found_error "notification" id), db) else (ok tt, db)

  mapped : Result (Unit {0}) × Db → Result (Unit {0}) × Db
  mapped (ok u, db) = (ok u, db)
  mapped (err e, db) = (err (map_pg_error e), db)

  insert_row : Result Row → Db → Result (Unit {0}) × Db
  unfolding mapped
  insert_row (err e) db = (err (wrap "marshaling template vars" e), db)
  insert_row (ok r) db = mapped (insert (r ∷ []) db)

  unfoldable pub create : Notification → Db → Result (Unit {0}) × Db
  unfolding insert_row
  create n db = insert_row (to_row json n) db

  unfoldable pub update_status :
      Uuid → Status → Option String → Option String → Db → Result (Unit {0}) × Db
  unfolding affected_or_not_found
  update_status id status provider_msg_id err_msg db =
      affected_or_not_found "updating notification status" id
        (update (has_id id) (set_status status provider_msg_id err_msg (now db)) db)

  unfoldable pub cancel : Uuid → Db → Result (Unit {0}) × Db
  unfolding affected_or_not_found
  cancel id db =
      affected_or_not_found "cancelling notification" id
        (update (is_cancellable id) (set_cancelled (now db)) db)

  unfoldable pub increment_attempts : Uuid → Option Time → Db → Result (Unit {0}) × Db
  unfolding affected_or_not_found
  increment_attempts id next_retry_at db =
      affected_or_not_found "incrementing attempts" id
        (update (has_id id) (set_attempted next_retry_at (now db)) db)

  scanned : Result (Option Row) × Db → Result Notification × Db
  scanned (err e, db) = (err (wrap "scanning notification" e), db)
  scanned (ok none, db) = (err (sentinel not_found), db)
  scanned (ok (some r), db) = (scan_notification json r, db)

  unfoldable pub get_by_id : Uuid → Db → Result Notification × Db
  unfolding scanned
  get_by_id id db = scanned (query_row (has_id id) db)
