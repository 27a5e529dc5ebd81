-- ===== src/NotificationService/Batch.antt =====
-- CreateBatch. The batch ID is what uuid.New draws. Logged errors are left out.
pub mod Enqueues
pub mod Length
pub mod Prepared
use insider_one_notification.Prelude.{
  ℕ, Bool, true, false, not, Option, none, some, is_some, List, [], ◌∷◌, ltb, length,
}
use insider_one_notification.Errors.{Error, validation_error, wrap}
use insider_one_notification.Result.{Result, ok, err, ◌>>=◌}
use insider_one_notification.Entity.{Notification, pending, queued, Uuid}
use insider_one_notification.NotificationService.{
  NotificationService, World, max_batch_size, validate_notification, broadcast_status,
  render_template,
}

-- What a call returns: its error, if any, the notifications, and the new state. If one of them is
-- refused they are the ones given, without what the loop had changed in them by then.
abbrev pub BatchOutcome : NotificationService → Type 0
BatchOutcome s = Option Error × List Notification × World s

-- The notification as `CreateBatch` persists it.
abbrev pub in_batch : Uuid → Notification → Notification
in_batch batch_id n = record n { batch_id = some batch_id; status = pending }

-- The error of a notification names its index.
abbrev pub at_index : Result Notification → Result Notification
at_index (ok n) = ok n
at_index (err e) = err (wrap "notification at index" e)

abbrev pub unless_invalid : Option Error → Notification → Result Notification
unless_invalid none n = ok n
unless_invalid (some e) n = err e

abbrev pub is_immediate : Notification → Bool
is_immediate n = not (is_some n.scheduled_at)

module _ (s : NotificationService) where
  open s use {repo, producer, parse_address}

  unfoldable pub prepare_one : Uuid → Notification → Result Notification
  prepare_one batch_id n = do
    m ← at_index (render_template s n)
    valid ← at_index (unless_invalid (validate_notification parse_address m) m)
    ok (in_batch batch_id valid)

  unfoldable pub prepare : Uuid → List Notification → Result (List Notification)
  prepare batch_id [] = ok []
  prepare batch_id (n ∷ ns) = do m ← prepare_one batch_id n; ms ← prepare batch_id ns; ok (m ∷ ms)

  unfoldable pub broadcast_all : List Notification → World s → World s
  broadcast_all [] w = w
  broadcast_all (n ∷ ns) w = broadcast_all ns (broadcast_status s n.id n.status w)

  after_update : Notification → World s → Result (Unit {0}) × repo.Db → Notification × World s
  after_update n w (err e, db) = (n, record w { db = db })
  after_update n w (ok u, db) = (n, broadcast_status s n.id queued (record w { db = db }))

  after_enqueue :
      Notification → World s → Result (Unit {0}) × producer.Queue → Notification × World s
  unfolding after_update
  after_enqueue n w (err e, queue) = (n, record w { queue = queue })
  after_enqueue n w (ok u, queue) =
      after_update (record n { status = queued }) (record w { queue = queue })
        (repo.update_status n.id queued none none w.db)

  -- The body of the loop that enqueues.
  unfoldable pub dispatch_one : Option ℕ → Notification → World s → Notification × World s
  unfolding after_enqueue
  dispatch_one (some at) n w = (n, w)
  dispatch_one none n w = after_enqueue n w (producer.enqueue n w.queue)

  unfoldable pub dispatch_all : List Notification → World s → List Notification × World s
  dispatch_all [] w = ([], w)
  dispatch_all (n ∷ ns) w =
      let (m, w₁) = dispatch_one n.scheduled_at n w in
      let (ms, w₂) = dispatch_all ns w₁ in (m ∷ ms, w₂)

  after_insert : List Notification → World s → Result (Unit {0}) × repo.Db → BatchOutcome s
  after_insert ns w (err e, db) =
      (some (wrap "persisting notification batch" e), ns, record w { db = db })
  after_insert ns w (ok u, db) =
      let (ms, w') = dispatch_all ns (broadcast_all ns (record w { db = db })) in (none, ms, w')

  after_prepare : List Notification → World s → Result (List Notification) → BatchOutcome s
  unfolding after_insert
  after_prepare ns w (err e) = (some e, ns, w)
  after_prepare ns w (ok ms) = after_insert ms w (repo.create_batch ms w.db)

  sized : Bool → Uuid → List Notification → World s → BatchOutcome s
  unfolding after_prepare
  sized true batch_id ns w =
      (some (validation_error "notifications" "batch size exceeds maximum"), ns, w)
  sized false batch_id ns w = after_prepare ns w (prepare batch_id ns)

  unfoldable pub create_batch : Uuid → List Notification → World s → BatchOutcome s
  unfolding sized
  create_batch batch_id [] w = (
    some (validation_error "notifications" "batch must contain at least one notification"),
    [],
    w,
  )
  create_batch batch_id (n ∷ ns) w =
      sized (ltb max_batch_size (length (n ∷ ns))) batch_id (n ∷ ns) w
