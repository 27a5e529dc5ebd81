-- ===== src/Repository.antt =====
-- internal/domain/repository/notification_repository.go: the contract between the repository and its
-- clients, in terms of the table. Postgres fills it in Repository/OfPostgres.antt.
pub mod OfPostgres
pub mod Requeues
pub mod Identity
use mathlib.Core.List.{Memᴰ}
use insider_one_notification.Prelude.{
  ℕ, ◌≤◌, ◌≡◌, ◌≢◌, ◌⊎◌, Bool, true, false, Option, String, List, [], ◌∷◌, ◌++◌, map, length,
  select, any, All,
}
use insider_one_notification.Errors.{Error}
use insider_one_notification.Result.{Result, ok, err}
use insider_one_notification.Entity.{Notification, Status, Uuid, Time, Vars}
use insider_one_notification.Postgres.Row.{Row, columns, fields}
use insider_one_notification.Postgres.Server.{conflicts, clashes, updated}
use insider_one_notification.Postgres.Clauses.{
  is_scheduled_ready, is_retry_ready, is_cancellable, has_id, extract_ids, set_status,
  set_cancelled, set_attempted, set_queued, mark_queued,
}
use insider_one_notification.Postgres.Transactions.Fetch.{is_one_of}

-- The row holds every field of the notification, its instants in whole microseconds.
abbrev pub IsRowOf : Notification → Row → Type 0
IsRowOf n r = (vars : Option String) × (r ≡ columns n vars)

-- The notification holds every field of the row.
abbrev pub IsOfRow : Row → Notification → Type 0
IsOfRow r n = (vars : Vars) × (n ≡ fields r vars)

abbrev pub AreRowsOf : List Notification → List Row → Type 0
AreRowsOf [] [] = Unit
AreRowsOf (n ∷ ns) (r ∷ rs) = IsRowOf n r × AreRowsOf ns rs
AreRowsOf _ _ = ⊥

-- Each effect relates the table before, the result, and the table after; an error changes nothing.
abbrev pub Fails {ℓ} : {A : Type ℓ} → List Row → Result A → List Row → Type ℓ
Fails old result new = (e : Error) × (result ≡ err e) × (new ≡ old)

abbrev pub Creates : Notification → List Row → Result (Unit {0}) → List Row → Type 0
Creates n old result new =
    ((result ≡ ok tt)
      × ((r : Row) × IsRowOf n r × (new ≡ old ++ r ∷ []) × (any (conflicts r) old ≡ false)))
    ⊎ Fails old result new

abbrev pub CreatesAll : List Notification → List Row → Result (Unit {0}) → List Row → Type 0
CreatesAll ns old result new =
    ((result ≡ ok tt)
      × ((rs : List Row) × AreRowsOf ns rs × (new ≡ old ++ rs) × (clashes rs old ≡ false)))
    ⊎ Fails old result new

-- One UPDATE at the time `now`, of at least one row.
abbrev pub Changes :
    (Row → Bool) → (Time → Row → Row) → List Row → Result (Unit {0}) → List Row → Type 0
Changes matches assign old result new =
    ((result ≡ ok tt)
      × (select matches old ≢ [])
      × ((now : Time) × (t : Time) × (new ≡ map (updated t matches (assign now)) old)))
    ⊎ Fails old result new

-- The notification was read from a row of the table that passes the test, and is queued now.
abbrev pub IsTaken : (Row → Bool) → Time → List Row → Notification → Type 0
IsTaken matches now table n =
    (r : Row) × Memᴰ r table
    × (matches r ≡ true)
    × ((m : Notification) × IsOfRow r m × (n ≡ mark_queued now m))

abbrev pub Fetches :
    (Time → Row → Bool) → ℕ → List Row → Result (List Notification) → List Row → Type 0
Fetches matches limit old result new =
    ((ns : List Notification) × (now : Time) × (t : Time) × (result ≡ ok ns)
      × (length ns ≤ limit)
      × All (IsTaken (matches now) now old) ns
      × (new ≡ map (updated t (is_one_of ns) (set_queued now)) old))
    ⊎ Fails old result new

pub record NotificationRepository : Type 1 where
  pub Db : Type 0
  pub rows : Db → List Row
  pub create : Notification → Db → Result (Unit {0}) × Db
  pub create_batch : List Notification → Db → Result (Unit {0}) × Db
  pub update_status : Uuid → Status → Option String → Option String → Db → Result (Unit {0}) × Db
  pub cancel : Uuid → Db → Result (Unit {0}) × Db
  pub increment_attempts : Uuid → Option Time → Db → Result (Unit {0}) × Db
  pub fetch_scheduled_ready : ℕ → Db → Result (List Notification) × Db
  pub fetch_retry_ready : ℕ → Db → Result (List Notification) × Db
  pub create_creates :
      (n : Notification) (db : Db) → Creates n (rows db) (create n db).0 (rows (create n db).1)
  pub create_batch_creates :
      (ns : List Notification) (db : Db)
      → CreatesAll ns (rows db) (create_batch ns db).0 (rows (create_batch ns db).1)
  pub update_status_changes :
      (id : Uuid) (status : Status) (provider_msg_id err_msg : Option String) (db : Db)
      → Changes
          (has_id id)
          (set_status status provider_msg_id err_msg)
          (rows db)
          (update_status id status provider_msg_id err_msg db).0
          (rows (update_status id status provider_msg_id err_msg db).1)
  pub cancel_changes :
      (id : Uuid) (db : Db)
      → Changes (is_cancellable id) set_cancelled (rows db) (cancel id db).0 (rows (cancel id db).1)
  pub increment_attempts_changes :
      (id : Uuid) (next_retry_at : Option Time) (db : Db)
      → Changes
          (has_id id)
          (set_attempted next_retry_at)
          (rows db)
          (increment_attempts id next_retry_at db).0
          (rows (increment_attempts id next_retry_at db).1)
  pub fetch_scheduled_ready_fetches :
      (limit : ℕ) (db : Db)
      → Fetches is_scheduled_ready limit
          (rows db)
          (fetch_scheduled_ready limit db).0
          (rows (fetch_scheduled_ready limit db).1)
  pub fetch_retry_ready_fetches :
      (limit : ℕ) (db : Db)
      → Fetches is_retry_ready limit
          (rows db)
          (fetch_retry_ready limit db).0
          (rows (fetch_retry_ready limit db).1)
