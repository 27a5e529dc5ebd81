-- ===== src/Postgres/Transactions/Fetch.antt =====
-- What FetchScheduledReady and FetchRetryReady return, and that they do not return it again.
use mathlib.Core.List.{Memᴰ}
use insider_one_notification.Prelude.{
  ℕ, suc, ◌≤◌, ◌≡◌, refl, sym, ap, ◌∙◌, ◌⊎◌, inl, inr, Bool, true, Option, List, [], ◌∷◌, map,
  length, any, All, arith, ◌==◌,
}
use insider_one_notification.Errors.{Error, wrap}
use insider_one_notification.Result.{◌>>=◌, Result, ok, err, >>=-eq-ok, ok-injective}
use insider_one_notification.Entity.{Notification, Time}
use insider_one_notification.Postgres.Row.{Row, Json, scan_notification, collect_notifications}
use insider_one_notification.Postgres.Server.{Server, updated}
use insider_one_notification.Postgres.Clauses.{
  is_scheduled_ready, is_retry_ready, extract_ids, set_queued, mark_queued,
}
use insider_one_notification.Postgres.Transactions.{
  mark_selected, select_ready, begun_fetch, fetch_ready, fetch_scheduled_ready, fetch_retry_ready,
}
use insider_one_notification.Postgres.Transactions.Atomic.{mark_selected_effect}

-- The row has one of the IDs of the notifications.
abbrev pub is_one_of : List Notification → Row → Bool
is_one_of ns r = any (λ id. r.id == id) (extract_ids ns)

module _ (json : Json) (server : Server) where
  open server use {Db, rows, now, lock_rows, begin}

  -- The notification was read from a row of the table that passes the test.
  abbrev pub IsReadFrom : (Row → Bool) → List Row → Notification → Type 0
  IsReadFrom matches table n =
      (r : Row) × Memᴰ r table × (matches r ≡ true) × (scan_notification json r ≡ ok n)

  -- At most `limit` notifications that pass the test were read; they are returned as queued, and
  -- exactly their rows are queued in the table. Or an error was returned, and the table is as it was.
  abbrev pub FetchReady : (Time → Row → Bool) → ℕ → Db → Result (List Notification) × Db → Type 0
  FetchReady matches limit before (result, db') =
      ((ns : List Notification) × (now' : Time) × (t : Time) × (result
          ≡ ok (map (mark_queued now') ns))
        × (length ns ≤ limit)
        × All (IsReadFrom (matches now') (rows before)) ns
        × (rows db' ≡ map (updated t (is_one_of ns) (set_queued now')) (rows before)))
      ⊎ ((e : Error) × (result ≡ err e) × (rows db' ≡ rows before))

  collect_read :
      (matches : Row → Bool) (table rs : List Row) (ns : List Notification)
      → collect_notifications json rs ≡ ok ns
      → All (λ r. (matches r ≡ true) × Memᴰ r table) rs
      → All (IsReadFrom matches table) ns × (length ns ≡ length rs)
  unfolding collect_notifications
  collect_read matches table [] ns h all = rw (sym (ok-injective h)) (tt, refl)
  collect_read matches table (r ∷ rs) ns h ((hit, m), all) =
      let (n, read, h') =
        >>=-eq-ok (scan_notification json r)
          (λ n. collect_notifications json rs >>= λ rest. ok (n ∷ rest)) h in
      let (rest, read_rest, e) =
        >>=-eq-ok (collect_notifications json rs) (λ rest. ok (n ∷ rest)) h' in
      let (others, count) = collect_read matches table rs rest read_rest all in
      rw (sym (ok-injective e)) (((r, m, hit, read), others), ap suc count)

  marked :
      (matches : Time → Row → Bool) (limit : ℕ) (before inside : Db) (now' : Time) (rs : List Row)
      (collected : Result (List Notification))
      → collect_notifications json rs ≡ collected
      → rows inside ≡ rows before
      → All (λ r. (matches now' r ≡ true) × Memᴰ r (rows before)) rs × (length rs ≤ limit)
      → FetchReady matches limit before (mark_selected json server before now' collected inside)
  marked matches limit before inside now' rs (err e) c same found =
      unfold mark_selected in inr (e, refl, server.rollback_rows before inside)
  marked matches limit before inside now' rs (ok ns) c same (all, few) =
      let (read, count) = collect_read (matches now') (rows before) rs ns c all in
      elim (mark_selected_effect json server ns now' before inside same) [
        | inl (e, (t, marked_rows)) ↦ inl (ns, now', t, e, omega (arith, count), read, marked_rows)
        | inr failed ↦ inr failed
      ]

  selected :
      (matches : Time → Row → Bool) (limit : ℕ) (before inside : Db) (now' : Time)
      (found : Result (List Row))
      → rows inside ≡ rows before
      → ((rs : List Row)
          → found ≡ ok rs
          → All (λ r. (matches now' r ≡ true) × Memᴰ r (rows before)) rs × (length rs ≤ limit))
      → FetchReady matches limit before (select_ready json server before now' (found, inside))
  unfolding select_ready
  selected matches limit before inside now' (err e) same here =
      inr (wrap "selecting notifications" e, refl, server.rollback_rows before inside)
  selected matches limit before inside now' (ok rs) same here =
      marked matches limit before inside now' rs (collect_notifications json rs) refl same
        (here rs refl)

  begun_fetch_effect :
      (matches : Time → Row → Bool) (column : Row → Option Time) (limit : ℕ) (before : Db)
      (result : Result (Unit {0})) (inside : Db)
      → rows inside ≡ rows before
      → FetchReady matches limit before
          (begun_fetch json server matches column limit before (result, inside))
  unfolding begun_fetch
  begun_fetch_effect matches column limit before (err e) inside same =
      inr (wrap "beginning transaction" e, refl, same)
  begun_fetch_effect matches column limit before (ok u) inside same =
      let now' = now inside in
      let (found, inside') = lock_rows (matches now') column limit inside in
      selected matches limit before inside' now' found
        (server.lock_rows_rows (matches now') column limit inside ∙ same)
        (λ rs e. rw same at (server.lock_rows_ok (matches now') column limit inside rs e))

  fetch_ready_effect :
      (matches : Time → Row → Bool) (column : Row → Option Time) (limit : ℕ) (db : Db)
      → FetchReady matches limit db (fetch_ready json server matches column limit db)
  unfolding fetch_ready
  fetch_ready_effect matches column limit db =
      let (result, inside) = begin db in
      begun_fetch_effect matches column limit db result inside (server.begin_rows db)

  -- FetchScheduledReady returns at most `limit` notifications, each pending with a schedule that has
  -- arrived, as queued, and makes exactly their rows queued; or it returns an error, and the table is
  -- as it was.
  pub fetch_scheduled_ready_effect :
      (limit : ℕ) (db : Db)
      → FetchReady is_scheduled_ready limit db (fetch_scheduled_ready json server limit db)
  unfolding fetch_scheduled_ready
  fetch_scheduled_ready_effect limit db =
      fetch_ready_effect is_scheduled_ready (λ r. r.scheduled_at) limit db

  -- FetchRetryReady returns at most `limit` notifications, each failed with attempts left and a retry
  -- time that has arrived, as queued, and makes exactly their rows queued; or it returns an error, and
  -- the table is as it was.
  pub fetch_retry_ready_effect :
      (limit : ℕ) (db : Db)
      → FetchReady is_retry_ready limit db (fetch_retry_ready json server limit db)
  unfolding fetch_retry_ready
  fetch_retry_ready_effect limit db =
      fetch_ready_effect is_retry_ready (λ r. r.next_retry_at) limit db
