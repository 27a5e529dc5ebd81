-- ===== src/Examples/WorkerRuns.antt =====
-- A processor and a scheduler over a table of one notification.
use insider_one_notification.Prelude.{
  ◌⊎◌, true, map, ◌≡◌, refl, inl, inr, none, some, List, [], ◌∷◌, ◌++◌, String,
}
use insider_one_notification.Errors.{Error, plain}
use insider_one_notification.Result.{ok, err}
use insider_one_notification.Entity.{Channel, Priority, Notification, delivered, Time}
use insider_one_notification.Postgres.Row.{Row, columns}
use insider_one_notification.Postgres.Notifications.{update_status, increment_attempts}
use insider_one_notification.Repository.OfPostgres.{postgres_repository}
use insider_one_notification.Worker.{
  QueueMessage, Consumer, DeliveryClient, RateLimiter, Processor, process,
}
use insider_one_notification.Worker.Lifecycle.{table}
use insider_one_notification.Worker.Retry.{must_retry, process_retry}
use insider_one_notification.Scheduler.{
  Scheduler, process_scheduled_notifications, process_retry_notifications,
}
use insider_one_notification.Scheduler.Cycle.{TickOutcome, tick_outcome}
use insider_one_notification.Postgres.Clauses.{has_id, is_scheduled_ready, is_retry_ready}
use insider_one_notification.Examples.Memory.{memory, empty_json, list_producer, list_pubsub}
use insider_one_notification.Examples.EntityRuns.{welcome}
use insider_one_notification.Worker as W
use insider_one_notification.Scheduler as S

-- The messages of every channel and priority in one list, with those that were acknowledged.
abbrev pub Inbox : Type 0
Inbox = (Channel → Priority → List QueueMessage) × List (Channel × Priority × String)

abbrev pub list_consumer : Consumer
list_consumer = record {
  Queue = Inbox;
  Ticket = Channel × Priority × String;
  ticket = λ c p id. (c, p, id);
  acked = λ q. q.1;
  waiting = λ c p q. map (λ (m : QueueMessage). m.notification) (q.0 c p);
  dequeue = λ c p count q. (ok [], q);
  ack = λ c p id q. (ok tt, (q.0, q.1 ++ (c, p, id) ∷ []));
  ack_appends = λ c p id q. inl (refl, refl);
  ack_waiting = λ c c' p p' id q. refl;
  dequeue_acked = λ c p count q. refl;
  dequeue_takes = λ c p count q. refl;
}

-- Every send fails before it reaches the provider.
abbrev pub unreachable : DeliveryClient
unreachable = record {
  Provider = List Notification;
  Request = Notification;
  request = λ n. n;
  requests = λ q. q;
  send = λ n q. (err (plain "connection refused"), q);
  send_requests = λ n q. inr (plain "connection refused", refl, inl refl);
}

abbrev pub unlimited : RateLimiter
unlimited = record { Limits = Unit {0}; wait = λ c l. (ok tt, l) }

abbrev processor : Processor
processor = record {
  repo = postgres_repository empty_json memory;
  consumer = list_consumer;
  delivery = unreachable;
  limiter = unlimited;
  pubsub = list_pubsub;
  retry_base_delay = 1000000000;
  retry_max_delay = 300000000000;
}

abbrev pub welcomed : QueueMessage
welcomed = record { stream_msg_id = "1-0"; notification = welcome 1 "k1" }

abbrev started : W.World processor
started = record {
  db = columns (welcome 1 "k1") none ∷ [];
  queue = (λ c p. [], []);
  provider = [];
  limits = tt;
  channel = [];
}

abbrev text : Error → String
text e = "connection refused"

-- The failed attempt was the first of five.
process_returns : (process processor text 0 100 welcomed started).0 ≡ none
unfolding process welcome update_status increment_attempts W.publish_status_update
process_returns = refl

process_retry_example :
    let w' = (process processor text 0 100 welcomed started).1 in
    (change : Row → Row) × (table processor text 0 100 welcomed w'
      ≡ map change (table processor text 0 100 welcomed started))
    × ((r : Row)
        → has_id (welcome 1 "k1").id r ≡ true
        → r.attempts ≡ (welcome 1 "k1").attempts
        → r.max_attempts ≡ (welcome 1 "k1").max_attempts
        → ((change r).status ≡ delivered)
          ⊎ ((t : Time) → is_retry_ready t (change r) ≡ must_retry processor text 0 100 welcomed t))
process_retry_example = process_retry processor text 0 100 welcomed started process_returns

abbrev scheduler : Scheduler
scheduler = record { repo = postgres_repository empty_json memory; producer = list_producer }

abbrev waiting : S.World scheduler
waiting = record {
  db = columns (record (welcome 1 "k1") { scheduled_at = some 90 }) none ∷ [];
  queue = [];
}

tick_outcome_example :
    TickOutcome scheduler is_scheduled_ready waiting
      (process_scheduled_notifications scheduler waiting)
    × TickOutcome scheduler is_retry_ready waiting (process_retry_notifications scheduler waiting)
tick_outcome_example = tick_outcome scheduler waiting
