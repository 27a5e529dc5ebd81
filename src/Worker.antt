-- ===== src/Worker.antt =====
-- internal/worker/processor.go. Process returns its error, if any, with the state of the repository, the
-- consumer, the provider, the limiter and the status channel. The clock and the random number that
-- calculateNextRetry reads are arguments. Logging and the timestamp of a status update are left out.

pub mod Backoff
pub mod Effects
pub mod Lifecycle
pub mod Retry
pub mod Waiting
use Prim.Native.String.{String}
use insider_one_notification.Prelude.{
  ℕ, ◌+◌, ◌*◌, ◌/◌, ◌^◌, ◌≡◌, ◌⊎◌, Option, none, some, List, [], ◌∷◌, ◌++◌, map, ltb, if◌then◌else◌,
}
use insider_one_notification.Errors.{Error, wrap}
use insider_one_notification.Result.{Result, ok, err}
use insider_one_notification.Entity.{
  Notification, Channel, Priority, Status, processing, delivered, failed, Uuid, Time,
}
use insider_one_notification.Repository.{NotificationRepository}
use insider_one_notification.Ports.{PubSub, worker_update, Appends}

pub record QueueMessage : Type 0 where
  pub stream_msg_id : String
  pub notification : Notification

abbrev pub Takes : Result (List QueueMessage) → List Notification → List Notification → Type 0
Takes (ok ms) old new = old ≡ map (λ (m : QueueMessage). m.notification) ms ++ new
Takes (err e) old new = (lost : List Notification) × (old ≡ lost ++ new)

pub record Consumer : Type 1 where
  pub Queue : Type 0
  -- What an acknowledgement names: a message of a channel and a priority, by its ID.
  pub Ticket : Type 0
  pub ticket : Channel → Priority → String → Ticket
  -- The messages that were acknowledged, in order.
  pub acked : Queue → List Ticket
  -- The notifications that no consumer was given yet, in order.
  pub waiting : Channel → Priority → Queue → List Notification
  pub dequeue : Channel → Priority → ℕ → Queue → Result (List QueueMessage) × Queue
  pub ack : Channel → Priority → String → Queue → Result (Unit {0}) × Queue
  pub ack_appends :
      (c : Channel) (p : Priority) (id : String) (q : Queue)
      → Appends (ticket c p id) (acked q) (ack c p id q).0 (acked (ack c p id q).1)
  pub ack_waiting :
      (c c' : Channel) (p p' : Priority) (id : String) (q : Queue)
      → waiting c' p' (ack c p id q).1 ≡ waiting c' p' q
  pub dequeue_acked :
      (c : Channel) (p : Priority) (count : ℕ) (q : Queue) → acked (dequeue c p count q).1 ≡ acked q
  -- A dequeue takes from the front, and what it returns is what it took. If it fails, what it took is
  -- not returned.
  pub dequeue_takes :
      (c : Channel) (p : Priority) (count : ℕ) (q : Queue)
      → Takes (dequeue c p count q).0 (waiting c p q) (waiting c p (dequeue c p count q).1)

pub record DeliveryResponse : Type 0 where
  pub message_id : String
  pub status : String
  pub timestamp : Time

-- A send that fails may have reached the provider.
pub record DeliveryClient : Type 1 where
  pub Provider : Type 0
  -- What is sent to the provider for a notification, and all that was sent, in order.
  pub Request : Type 0
  pub request : Notification → Request
  pub requests : Provider → List Request
  pub send : Notification → Provider → Result DeliveryResponse × Provider
  pub send_requests :
      (n : Notification) (p : Provider)
      → (((resp : DeliveryResponse) × ((send n p).0 ≡ ok resp))
          × (requests (send n p).1 ≡ requests p ++ request n ∷ []))
        ⊎ ((e : Error) × ((send n p).0 ≡ err e)
            × ((requests (send n p).1 ≡ requests p)
                ⊎ (requests (send n p).1 ≡ requests p ++ request n ∷ [])))

pub record RateLimiter : Type 1 where
  pub Limits : Type 0
  pub wait : Channel → Limits → Result (Unit {0}) × Limits

pub record Processor : Type 1 where
  pub repo : NotificationRepository
  pub consumer : Consumer
  pub delivery : DeliveryClient
  pub limiter : RateLimiter
  pub pubsub : PubSub
  pub retry_base_delay : ℕ  -- nanoseconds
  pub retry_max_delay : ℕ

pub record World (p : Processor) : Type 0 where
  pub db : p.repo.Db
  pub queue : p.consumer.Queue
  pub provider : p.delivery.Provider
  pub limits : p.limiter.Limits
  pub channel : p.pubsub.Channel

-- The draws of rand.Float64 are the multiples of 1 / 2^53 below 1.
abbrev pub draws : ℕ
draws = 9007199254740992

-- `delay` with its jitter, `delay + delay * 0.2 * (2 * draw / 2^53 - 1)`, in exact arithmetic and cut
-- to whole nanoseconds.
unfoldable pub jittered : ℕ → ℕ → ℕ
jittered delay draw = delay * (4 * draws + 2 * draw) / (5 * draws)

unfoldable pub capped_delay : ℕ → ℕ → ℕ → ℕ
capped_delay attempts base_delay max_delay =
    let delay = base_delay * 2 ^ attempts in if ltb max_delay delay then max_delay else delay

unfoldable pub calculate_next_retry : ℕ → ℕ → ℕ → ℕ → Time → Time
calculate_next_retry attempts base_delay max_delay draw now =
    let delay = jittered (capped_delay attempts base_delay max_delay) draw in
    now + (if ltb delay base_delay then base_delay else delay)

module _ (p : Processor) where
  open p use {repo, consumer, delivery, limiter, pubsub}

  -- Errors of the publication are logged only.
  unfoldable pub publish_status_update : Uuid → Status → String → World p → World p
  publish_status_update id status err_msg w = record w {
    channel = (pubsub.publish (worker_update id status err_msg) w.channel).1;
  }

  after_ack : String → World p → Result (Unit {0}) × consumer.Queue → Option Error × World p
  after_ack context w (ok u, queue) = (none, record w { queue = queue })
  after_ack context w (err e, queue) = (some (wrap context e), record w { queue = queue })

  acknowledge : String → QueueMessage → World p → Option Error × World p
  unfolding after_ack
  acknowledge context msg w =
      let n = msg.notification in
      after_ack context w (consumer.ack n.channel n.priority msg.stream_msg_id w.queue)

  after_delivered : QueueMessage → World p → Result (Unit {0}) × repo.Db → Option Error × World p
  unfolding acknowledge
  after_delivered msg w (err e, db) =
      (some (wrap "updating status to delivered" e), record w { db = db })
  after_delivered msg w (ok u, db) =
      acknowledge "acking message" msg
        (publish_status_update msg.notification.id delivered "" (record w { db = db }))

  after_failed :
      String → QueueMessage → World p → Result (Unit {0}) × repo.Db → Option Error × World p
  unfolding acknowledge
  after_failed err_msg msg w (err e, db) =
      (some (wrap "updating status to failed" e), record w { db = db })
  after_failed err_msg msg w (ok u, db) =
      acknowledge "acking failed message" msg
        (publish_status_update msg.notification.id failed err_msg (record w { db = db }))

  after_increment :
      String → QueueMessage → World p → Result (Unit {0}) × repo.Db → Option Error × World p
  unfolding after_failed
  after_increment err_msg msg w (err e, db) =
      (some (wrap "incrementing attempts" e), record w { db = db })
  after_increment err_msg msg w (ok u, db) =
      after_failed err_msg msg (record w { db = db })
        (repo.update_status msg.notification.id failed none (some err_msg) db)

  -- The time of the next attempt, or none for a failure that is terminal.
  unfoldable pub next_retry : Notification → ℕ → Time → Option Time
  next_retry n draw now =
      if ltb (n.attempts + 1) n.max_attempts
      then some
          (calculate_next_retry (n.attempts + 1) p.retry_base_delay p.retry_max_delay draw now)
      else none

  -- Steps d and e. `error_text` is the method Error.
  after_send :
      (Error → String)
      → ℕ
      → Time
      → QueueMessage
      → World p
      → Result DeliveryResponse × delivery.Provider
      → Option Error × World p
  unfolding after_delivered after_increment
  after_send error_text draw now msg w (ok resp, provider) =
      let w₁ = record w { provider = provider } in
      after_delivered msg w₁
        (repo.update_status msg.notification.id delivered (some resp.message_id) none w.db)
  after_send error_text draw now msg w (err e, provider) =
      let n = msg.notification in
      let w₁ = record w { provider = provider } in
      after_increment (error_text e) msg w₁
        (repo.increment_attempts n.id (next_retry n draw now) w.db)

  after_wait :
      (Error → String)
      → ℕ
      → Time
      → QueueMessage
      → World p
      → Result (Unit {0}) × limiter.Limits
      → Option Error × World p
  unfolding after_send
  after_wait error_text draw now msg w (err e, limits) =
      (some (wrap "rate limiter wait" e), record w { limits = limits })
  after_wait error_text draw now msg w (ok u, limits) =
      let w₁ = record w { limits = limits } in
      after_send error_text draw now msg w₁ (delivery.send msg.notification w.provider)

  after_processing :
      (Error → String)
      → ℕ
      → Time
      → QueueMessage
      → World p
      → Result (Unit {0}) × repo.Db
      → Option Error × World p
  unfolding after_wait
  after_processing error_text draw now msg w (err e, db) =
      (some (wrap "updating status to processing" e), record w { db = db })
  after_processing error_text draw now msg w (ok u, db) =
      let n = msg.notification in
      let w₁ = publish_status_update n.id processing "" (record w { db = db }) in
      after_wait error_text draw now msg w₁ (limiter.wait n.channel w.limits)

  unfoldable pub process :
      (Error → String) → ℕ → Time → QueueMessage → World p → Option Error × World p
  unfolding after_processing
  process error_text draw now msg w =
      after_processing error_text draw now msg w
        (repo.update_status msg.notification.id processing none none w.db)
