-- ===== src/NotificationService.antt =====
-- internal/service/notification_service.go. The notification that the caller passes by pointer is returned
-- as the call leaves it, with the state of the repository, the queue and the status channel.
-- json.Marshal of a status update does not fail; logging is left out.
pub mod Create
pub mod Cancel
pub mod Request
pub mod Batch
use Prim.Native.String.{◌++◌ as ◌+++◌}
use insider_one_notification.Prelude.{
  ℕ, String, Bool, true, false, Option, none, some, is_some, List, [], ◌∷◌, ltb, str_eq, length,
  if◌then◌else◌,
}
use insider_one_notification.Errors.{Error, validation_error, wrap, plain}
use insider_one_notification.Result.{Result, ok, err}
use insider_one_notification.Entity.{Notification, Status, pending, queued, cancelled, Uuid, Vars}
use insider_one_notification.Entity.Validation.{validate}
use insider_one_notification.Repository.{NotificationRepository}
use insider_one_notification.Ports.{Producer, PubSub, StatusUpdate, service_update}

abbrev pub max_batch_size : ℕ
max_batch_size = 1000

-- The text of an error that `Validate` builds.
unfoldable pub message : Error → String
message (plain text) = text
message (wrap context e) = context +++ (": " +++ message e)
message _ = ""

-- strings.Join(msgs, "; ")
unfoldable pub join_messages : List Error → String
unfolding message
join_messages [] = ""
join_messages (e ∷ []) = message e
join_messages (e ∷ f ∷ es) = message e +++ ("; " +++ join_messages (f ∷ es))

-- validateNotification
unfoldable pub validate_notification : (String → Option Error) → Notification → Option Error
validate_notification parse_address n = elim (validate parse_address n) [
  | [] ↦ none
  | e ∷ es ↦ some (validation_error "notification" (join_messages (e ∷ es)))
]

-- The fields of the struct, with net/mail's ParseAddress.
pub record NotificationService : Type 1 where
  pub repo : NotificationRepository
  pub producer : Producer
  pub pubsub : PubSub
  pub render : Uuid → Vars → Result (String × String)
  pub parse_address : String → Option Error

pub record World (s : NotificationService) : Type 0 where
  pub db : s.repo.Db
  pub queue : s.producer.Queue
  pub channel : s.pubsub.Channel

-- What a call returns: its error, if any, the notification, and the new state.
abbrev pub Outcome : NotificationService → Type 0
Outcome s = Option Error × Notification × World s

abbrev pub with_rendered : Notification → String → String → Notification
with_rendered n subject content = record n {
  content = content;
  subject = if str_eq subject "" then n.subject else some subject;
}

module _ (s : NotificationService) where
  open s use {repo, producer, pubsub, render, parse_address}

  -- Errors of the publication are logged only.
  unfoldable pub broadcast_status : Uuid → Status → World s → World s
  broadcast_status id status w = record w {
    channel = (pubsub.publish (service_update id status) w.channel).1;
  }

  rendered : Notification → Result (String × String) → Result Notification
  rendered n (err e) = err (wrap "rendering template" e)
  rendered n (ok (subject, content)) = ok (with_rendered n subject content)

  render_with : Option Uuid → Notification → Result Notification
  unfolding rendered
  render_with none n = ok n
  render_with (some id) n = rendered n (render id n.template_vars)

  unfoldable pub render_template : Notification → Result Notification
  unfolding render_with
  render_template n = render_with n.template_id n

  after_update : Notification → World s → Result (Unit {0}) × repo.Db → Outcome s
  after_update n w (err e, db) =
      (some (wrap "updating status to queued for notification" e), n, record w { db = db })
  after_update n w (ok u, db) = (none, n, broadcast_status n.id queued (record w { db = db }))

  after_enqueue : Notification → World s → Result (Unit {0}) × producer.Queue → Outcome s
  unfolding after_update
  after_enqueue n w (err e, queue) =
      (some (wrap "enqueuing notification" e), n, record w { queue = queue })
  after_enqueue n w (ok u, queue) =
      after_update (record n { status = queued }) (record w { queue = queue })
        (repo.update_status n.id queued none none w.db)

  -- Scheduled notifications stay pending.
  dispatch : Option ℕ → Notification → World s → Outcome s
  unfolding after_enqueue
  dispatch (some at) n w = (none, n, w)
  dispatch none n w = after_enqueue n w (producer.enqueue n w.queue)

  after_create : Notification → World s → Result (Unit {0}) × repo.Db → Outcome s
  unfolding dispatch
  after_create n w (err e, db) = (some (wrap "persisting notification" e), n, record w { db = db })
  after_create n w (ok u, db) =
      dispatch n.scheduled_at n (broadcast_status n.id n.status (record w { db = db }))

  after_validation : Option Error → Notification → World s → Outcome s
  unfolding after_create
  after_validation (some e) n w = (some e, n, w)
  after_validation none n w =
      let n' = record n { status = pending } in after_create n' w (repo.create n' w.db)

  after_render : Notification → Result Notification → World s → Outcome s
  unfolding after_validation
  after_render n (err e) w = (some e, n, w)
  after_render n (ok n') w = after_validation (validate_notification parse_address n') n' w

  unfoldable pub create : Notification → World s → Outcome s
  unfolding after_render
  create n w = after_render n (render_template n) w

  after_cancel : Uuid → World s → Result (Unit {0}) × repo.Db → Result (Unit {0}) × World s
  after_cancel id w (err e, db) = (err (wrap "cancelling notification" e), record w { db = db })
  after_cancel id w (ok u, db) = (ok tt, broadcast_status id cancelled (record w { db = db }))

  unfoldable pub cancel : Uuid → World s → Result (Unit {0}) × World s
  unfolding after_cancel
  cancel id w = after_cancel id w (repo.cancel id w.db)
