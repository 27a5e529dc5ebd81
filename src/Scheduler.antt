-- ===== src/Scheduler.antt =====
-- internal/scheduler/scheduler.go: one tick of each of the two tickers. The errors that a tick logs are
-- returned as a list; the loops of the tickers are in Scheduler/Tickers.antt.
pub mod Cycle
pub mod Enqueue
pub mod Tickers
use insider_one_notification.Prelude.{ℕ, String, Option, none, some, List, [], ◌∷◌}
use insider_one_notification.Errors.{Error, wrap}
use insider_one_notification.Result.{Result, ok, err}
use insider_one_notification.Entity.{Notification, queued}
use insider_one_notification.Repository.{NotificationRepository}
use insider_one_notification.Ports.{Producer}

abbrev pub scheduler_batch_size : ℕ
scheduler_batch_size = 100

pub record Scheduler : Type 1 where
  pub repo : NotificationRepository
  pub producer : Producer

pub record World (s : Scheduler) : Type 0 where
  pub db : s.repo.Db
  pub queue : s.producer.Queue

-- What one enqueueNotification leaves in the log.
abbrev pub logged : Option Error → List Error → List Error
logged none log = log
logged (some e) log = e ∷ log

module _ (s : Scheduler) where
  open s use {repo, producer}

  after_enqueue : World s → Result (Unit {0}) × producer.Queue → Option Error × World s
  after_enqueue w (ok u, queue) = (none, record w { queue = queue })
  after_enqueue w (err e, queue) =
      (some (wrap "enqueuing notification" e), record w { queue = queue })

  after_update : Notification → World s → Result (Unit {0}) × repo.Db → Option Error × World s
  unfolding after_enqueue
  after_update n w (err e, db) =
      (some (wrap "updating notification to queued" e), record w { db = db })
  after_update n w (ok u, db) = after_enqueue (record w { db = db }) (producer.enqueue n w.queue)

  unfoldable pub enqueue_notification : Notification → World s → Option Error × World s
  unfolding after_update
  enqueue_notification n w = after_update n w (repo.update_status n.id queued none none w.db)

  -- The loop over the notifications: a failure is logged, and the loop continues.
  unfoldable pub enqueue_all : List Notification → World s → List Error × World s
  enqueue_all [] w = ([], w)
  enqueue_all (n ∷ ns) w =
      let (failure, w₁) = enqueue_notification n w in
      let (log, w₂) = enqueue_all ns w₁ in (logged failure log, w₂)

  after_fetch :
      String → World s → Result (List Notification) × repo.Db → Result (List Error) × World s
  after_fetch context w (err e, db) = (err (wrap context e), record w { db = db })
  after_fetch context w (ok ns, db) =
      let (log, w') = enqueue_all ns (record w { db = db }) in (ok log, w')

  unfoldable pub process_scheduled_notifications : World s → Result (List Error) × World s
  unfolding after_fetch
  process_scheduled_notifications w =
      after_fetch "fetching scheduled-ready notifications" w
        (repo.fetch_scheduled_ready scheduler_batch_size w.db)

  unfoldable pub process_retry_notifications : World s → Result (List Error) × World s
  unfolding after_fetch
  process_retry_notifications w =
      after_fetch "fetching retry-ready notifications" w
        (repo.fetch_retry_ready scheduler_batch_size w.db)
