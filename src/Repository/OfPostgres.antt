-- ===== src/Repository/OfPostgres.antt =====
-- The repository of internal/infrastructure/postgres fulfils the contract of internal/domain/repository.
use insider_one_notification.Prelude.{
  ℕ, ◌≡◌, refl, sym, ap, inl, inr, Bool, String, List, [], ◌∷◌, map, any, All, length-map, arith,
  ◌==◌,
}
use insider_one_notification.Errors.{not_found_error, wrap}
use insider_one_notification.Result.{Result, ok, err, ◌>>=◌, >>=-eq-ok, ok-injective}
use insider_one_notification.Entity.{Notification, Uuid, Time}
use insider_one_notification.Postgres.Row.{
  Row, Json, columns, fields, marshal_template_vars, to_row, scan_vars, scan_notification,
}
use insider_one_notification.Postgres.Server.{Server}
use insider_one_notification.Postgres.Clauses.{
  is_scheduled_ready, is_retry_ready, is_cancellable, set_cancelled, set_attempted, has_id,
  set_status, mark_queued,
}
use insider_one_notification.Postgres.Notifications
use insider_one_notification.Postgres.Notifications.Writes.{
  UpdateEffect, update_status_update, cancel_update, increment_attempts_update,
}
use insider_one_notification.Postgres.Notifications.Inserts.{create_effect}
use insider_one_notification.Postgres.Transactions
use insider_one_notification.Postgres.Transactions.{in_batch, to_rows}
use insider_one_notification.Postgres.Transactions.Atomic.{create_batch_effect}
use insider_one_notification.Postgres.Transactions.Fetch.{
  is_one_of, IsReadFrom, FetchReady, fetch_scheduled_ready_effect, fetch_retry_ready_effect,
}
use insider_one_notification.Postgres.Transactions.Once.{mark_queued-ids}
use insider_one_notification.Repository.{
  IsRowOf, IsOfRow, AreRowsOf, Creates, CreatesAll, Changes, IsTaken, Fetches,
  NotificationRepository,
}

module _ (json : Json) (server : Server) where
  open server use {Db, rows}

  to_row-IsRowOf : (n : Notification) (r : Row) → to_row json n ≡ ok r → IsRowOf n r
  unfolding to_row
  to_row-IsRowOf n r h =
      let (vars, m, e) =
        >>=-eq-ok (marshal_template_vars json n.template_vars) (λ vars. ok (columns n vars)) h in
      (vars, sym (ok-injective e))

  scan-IsOfRow : (r : Row) (n : Notification) → scan_notification json r ≡ ok n → IsOfRow r n
  unfolding scan_notification
  scan-IsOfRow r n h =
      let (vars, m, e) =
        >>=-eq-ok (scan_vars json r.template_vars) (λ vars. ok (fields r vars)) h in
      (vars, sym (ok-injective e))

  in_batch-ok : (m : Result Row) (r : Row) → in_batch json server m ≡ ok r → m ≡ ok r
  in_batch-ok (ok r') r h = h
  in_batch-ok (err e) r h = cc

  to_rows-AreRowsOf :
      (ns : List Notification) (rs : List Row) → to_rows json server ns ≡ ok rs → AreRowsOf ns rs
  unfolding to_rows
  to_rows-AreRowsOf [] rs h = rw (sym (ok-injective h)) tt
  to_rows-AreRowsOf (n ∷ ns) rs h =
      let (r, row, h') =
        >>=-eq-ok (in_batch json server (to_row json n))
          (λ r. to_rows json server ns >>= λ rest. ok (r ∷ rest)) h in
      let (rest, made, e) = >>=-eq-ok (to_rows json server ns) (λ rest. ok (r ∷ rest)) h' in
      rw (sym (ok-injective e))
        (to_row-IsRowOf n r (in_batch-ok (to_row json n) r row), to_rows-AreRowsOf ns rest made)

  pub creates :
      (n : Notification) (db : Db)
      → let (result, db') = Notifications.create json server n db in
        Creates n (rows db) result (rows db')
  creates n db = elim (create_effect json server n db) [
    | inl (done, (r, row, rest, fresh)) ↦ inl (done, (r, to_row-IsRowOf n r row, rest, fresh))
    | inr failed ↦ inr failed
  ]

  pub creates_all :
      (ns : List Notification) (db : Db)
      → let (result, db') = Transactions.create_batch json server ns db in
        CreatesAll ns (rows db) result (rows db')
  creates_all ns db = elim (create_batch_effect json server ns db) [
    | inl (done, (rs, made, rest, fresh)) ↦
        inl (done, (rs, to_rows-AreRowsOf ns rs made, rest, fresh))
    | inr failed ↦ inr failed
  ]

  pub changes :
      (matches : Row → Bool) (assign : Time → Row → Row) (now : Time) (db : Db) (context : String)
      (id : Uuid) (out : Result (Unit {0}) × Db)
      → UpdateEffect json server matches (assign now) db context id out
      → Changes matches assign (rows db) out.0 (rows out.1)
  unfolding UpdateEffect
  changes matches assign now db context id out effect = elim effect [
    | inl (done, hit, changed) ↦ inl (done, hit, (now, server.server_now db, changed))
    | inr (inl (missing, no_row, same)) ↦ inr (not_found_error "notification" id, missing, same)
    | inr (inr (e, failed, same)) ↦ inr (wrap context e, failed, same)
  ]

  taken :
      (matches : Row → Bool) (now : Time) (table : List Row) (ns : List Notification)
      → All (IsReadFrom json server matches table) ns
      → All (IsTaken matches now table) (map (mark_queued now) ns)
  taken matches now table [] all = tt
  taken matches now table (n ∷ ns) ((r, m, hit, read), all) =
      ((r, m, hit, (n, scan-IsOfRow r n read, refl)), taken matches now table ns all)

  mark_queued-is_one_of :
      (now : Time) (ns : List Notification) → is_one_of (map (mark_queued now) ns) ≡ is_one_of ns
  mark_queued-is_one_of now ns =
      ap (λ (ids : List Uuid). λ (r : Row). any (λ id. r.id == id) ids)
        (mark_queued-ids json server now ns)

  pub fetches :
      (matches : Time → Row → Bool) (limit : ℕ) (db : Db) (out : Result (List Notification) × Db)
      → FetchReady json server matches limit db out
      → Fetches matches limit (rows db) out.0 (rows out.1)
  fetches matches limit db out (inr failed) = inr failed
  fetches matches limit db out (inl (ns, now, t, done, few, read, marked)) = inl (
    map (mark_queued now) ns,
    now,
    t,
    done,
    omega (arith, length-map (mark_queued now) ns),
    taken (matches now) now (rows db) ns read,
    rw (mark_queued-is_one_of now ns) marked,
  )

  -- The repository over a database server, with its contract.
  abbrev pub postgres_repository : NotificationRepository
  postgres_repository = record {
    Db = Db;
    rows = rows;
    create = Notifications.create json server;
    create_batch = Transactions.create_batch json server;
    update_status = Notifications.update_status json server;
    cancel = Notifications.cancel json server;
    increment_attempts = Notifications.increment_attempts json server;
    fetch_scheduled_ready = Transactions.fetch_scheduled_ready json server;
    fetch_retry_ready = Transactions.fetch_retry_ready json server;
    create_creates = creates;
    create_batch_creates = creates_all;
    update_status_changes = λ id status provider_msg_id err_msg db.
        changes (has_id id) (set_status status provider_msg_id err_msg) (server.now db) db
          "updating notification status" id _
          (update_status_update json server id status provider_msg_id err_msg db);
    cancel_changes = λ id db.
        changes (is_cancellable id) set_cancelled (server.now db) db "cancelling notification" id _
          (cancel_update json server id db);
    increment_attempts_changes = λ id next_retry_at db.
        changes (has_id id) (set_attempted next_retry_at) (server.now db) db "incrementing attempts"
          id _ (increment_attempts_update json server id next_retry_at db);
    fetch_scheduled_ready_fetches = λ limit db.
        fetches is_scheduled_ready limit db _ (fetch_scheduled_ready_effect json server limit db);
    fetch_retry_ready_fetches = λ limit db.
        fetches is_retry_ready limit db _ (fetch_retry_ready_effect json server limit db);
  }
