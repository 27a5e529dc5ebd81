-- ===== src/Postgres/Server.antt =====
-- PostgreSQL and its driver, which the repository only calls: an interface of statements over an
-- abstract state, with what the documentation and migrations/000001_create_notifications.up.sql
-- promise of them. A statement that fails has changed nothing; any statement may fail.
use mathlib.Core.List.{Memᴰ}
use insider_one_notification.Prelude.{
  ℕ, ◌≤◌, ◌≡◌, Bool, true, false, ◌||◌, Option, none, some, List, [], ◌∷◌, ◌++◌, map, length,
  select, any, All, str_eq, ◌==◌, if◌then◌else◌,
}
use insider_one_notification.Errors.{Error}
use insider_one_notification.Result.{Result, ok, err}
use insider_one_notification.Entity.{Time}
use insider_one_notification.Postgres.Row.{Row}

-- Two rows share their primary key or their UNIQUE idempotency key.
abbrev pub conflicts : Row → Row → Bool
conflicts r s = (r.id == s.id) || str_eq r.idempotency_key s.idempotency_key

-- Inserting the new rows one after the other breaks a unique constraint.
abbrev pub clashes : List Row → List Row → Bool
clashes [] old = false
clashes (r ∷ new) old = any (conflicts r) old || clashes new (old ++ r ∷ [])

-- An UPDATE of the rows that pass a test; the trigger of the table sets `updated_at` to NOW().
abbrev pub updated : Time → (Row → Bool) → (Row → Row) → Row → Row
updated server_now matches assign r =
    if matches r then record (assign r) { updated_at = server_now } else r

pub record Server : Type 1 where
  pub Db : Type 0
  -- The rows of the table, as committed or as the running transaction sees them.
  pub rows : Db → List Row
  -- time.Now().UTC() in the process, and NOW() in the server.
  pub now : Db → Time
  pub server_now : Db → Time
  pub insert : List Row → Db → Result (Unit {0}) × Db
  pub update : (Row → Bool) → (Row → Row) → Db → Result ℕ × Db
  pub query_row : (Row → Bool) → Db → Result (Option Row) × Db
  -- FOR UPDATE SKIP LOCKED, ordered by a column, with a LIMIT.
  pub lock_rows : (Row → Bool) → (Row → Option Time) → ℕ → Db → Result (List Row) × Db
  pub begin : Db → Result (Unit {0}) × Db
  -- From the state before the transaction and the state in it.
  pub commit : Db → Db → Result (Unit {0}) × Db
  pub rollback : Db → Db → Db
  pub insert_ok :
      (new : List Row) (db : Db)
      → (insert new db).0 ≡ ok tt
      → (rows (insert new db).1 ≡ rows db ++ new) × (clashes new (rows db) ≡ false)
  pub insert_err :
      (new : List Row) (db : Db) (e : Error)
      → (insert new db).0 ≡ err e
      → rows (insert new db).1 ≡ rows db
  pub update_ok :
      (matches : Row → Bool) (assign : Row → Row) (db : Db) (affected : ℕ)
      → (update matches assign db).0 ≡ ok affected
      → (rows (update matches assign db).1 ≡ map (updated (server_now db) matches assign) (rows db))
        × (affected ≡ length (select matches (rows db)))
  pub update_err :
      (matches : Row → Bool) (assign : Row → Row) (db : Db) (e : Error)
      → (update matches assign db).0 ≡ err e
      → rows (update matches assign db).1 ≡ rows db
  pub query_row_rows : (matches : Row → Bool) (db : Db) → rows (query_row matches db).1 ≡ rows db
  pub query_row_some :
      (matches : Row → Bool) (db : Db) (r : Row)
      → (query_row matches db).0 ≡ ok (some r)
      → (matches r ≡ true) × Memᴰ r (rows db)
  pub query_row_none :
      (matches : Row → Bool) (db : Db)
      → (query_row matches db).0 ≡ ok none
      → select matches (rows db) ≡ []
  pub lock_rows_rows :
      (matches : Row → Bool) (column : Row → Option Time) (limit : ℕ) (db : Db)
      → rows (lock_rows matches column limit db).1 ≡ rows db
  pub lock_rows_ok :
      (matches : Row → Bool) (column : Row → Option Time) (limit : ℕ) (db : Db) (found : List Row)
      → (lock_rows matches column limit db).0 ≡ ok found
      → All (λ r. (matches r ≡ true) × Memᴰ r (rows db)) found × (length found ≤ limit)
  pub begin_rows : (db : Db) → rows (begin db).1 ≡ rows db
  pub commit_ok :
      (before inside : Db)
      → (commit before inside).0 ≡ ok tt
      → rows (commit before inside).1 ≡ rows inside
  pub commit_err :
      (before inside : Db) (e : Error)
      → (commit before inside).0 ≡ err e
      → rows (commit before inside).1 ≡ rows before
  pub rollback_rows : (before inside : Db) → rows (rollback before inside) ≡ rows before
