-- ===== src/System.antt =====
-- cmd/api/main.go: the services over one database, one queue and one status channel, and what the
-- requests, the workers and the tickers do to them, one after the other. The log of the streams,
-- which the producer writes, and the state of the consumer group are two parts of the state.
pub mod Table
use Prim.Native.String.{String}
use insider_one_notification.Prelude.{ℕ, Option, none, some, List, [], ◌∷◌}
use insider_one_notification.Errors.{Error}
use insider_one_notification.Result.{Result}
use insider_one_notification.Entity.{Notification, Uuid, Vars, Time}
use insider_one_notification.Repository.{NotificationRepository}
use insider_one_notification.Ports.{Producer, PubSub}
use insider_one_notification.NotificationService.{NotificationService}
use insider_one_notification.NotificationService
use insider_one_notification.NotificationService.Batch
use insider_one_notification.Worker.{
  Consumer, DeliveryClient, RateLimiter, Processor, QueueMessage, process,
}
use insider_one_notification.Worker
use insider_one_notification.Scheduler.{
  Scheduler, process_scheduled_notifications, process_retry_notifications,
}
use insider_one_notification.Scheduler

pub record System : Type 1 where
  pub repo : NotificationRepository
  pub producer : Producer
  pub consumer : Consumer
  pub delivery : DeliveryClient
  pub limiter : RateLimiter
  pub pubsub : PubSub
  pub render : Uuid → Vars → Result (String × String)
  pub parse_address : String → Option Error
  pub error_text : Error → String
  pub retry_base_delay : ℕ
  pub retry_max_delay : ℕ

-- What enters from outside: the calls of the API, with the batch ID that is drawn; a message that a
-- worker got, with the draw and the time of its retry; and the two tickers.
pub data Action : Type 0 where
  create : Notification → Action
  create_batch : Uuid → List Notification → Action
  cancel : Uuid → Action
  process_message : ℕ → Time → QueueMessage → Action
  scheduled_tick retry_tick : Action

pub record State (sys : System) : Type 0 where
  pub db : sys.repo.Db
  pub queue : sys.producer.Queue
  pub group : sys.consumer.Queue
  pub provider : sys.delivery.Provider
  pub limits : sys.limiter.Limits
  pub channel : sys.pubsub.Channel

module _ (sys : System) where
  abbrev pub notification_service : NotificationService
  notification_service = record {
    repo = sys.repo;
    producer = sys.producer;
    pubsub = sys.pubsub;
    render = sys.render;
    parse_address = sys.parse_address;
  }

  abbrev pub processor : Processor
  processor = record {
    repo = sys.repo;
    consumer = sys.consumer;
    delivery = sys.delivery;
    limiter = sys.limiter;
    pubsub = sys.pubsub;
    retry_base_delay = sys.retry_base_delay;
    retry_max_delay = sys.retry_max_delay;
  }

  abbrev pub scheduler : Scheduler
  scheduler = record { repo = sys.repo; producer = sys.producer }

  -- The parts of the state that each service sees, and the state after it.
  abbrev pub service_view : State sys → NotificationService.World notification_service
  service_view st = record { db = st.db; queue = st.queue; channel = st.channel }

  abbrev pub after_service : State sys → NotificationService.World notification_service → State sys
  after_service st w = record st { db = w.db; queue = w.queue; channel = w.channel }

  abbrev pub worker_view : State sys → Worker.World processor
  worker_view st = record {
    db = st.db;
    queue = st.group;
    provider = st.provider;
    limits = st.limits;
    channel = st.channel;
  }

  abbrev pub after_worker : State sys → Worker.World processor → State sys
  after_worker st w = record st {
    db = w.db;
    group = w.queue;
    provider = w.provider;
    limits = w.limits;
    channel = w.channel;
  }

  abbrev pub scheduler_view : State sys → Scheduler.World scheduler
  scheduler_view st = record { db = st.db; queue = st.queue }

  abbrev pub after_scheduler : State sys → Scheduler.World scheduler → State sys
  after_scheduler st w = record st { db = w.db; queue = w.queue }

  unfoldable pub act : Action → State sys → State sys
  act (create n) st =
      after_service st (NotificationService.create notification_service n (service_view st)).2
  act (create_batch id ns) st =
      after_service st (Batch.create_batch notification_service id ns (service_view st)).2
  act (cancel id) st =
      after_service st (NotificationService.cancel notification_service id (service_view st)).1
  act (process_message draw now msg) st =
      after_worker st (process processor sys.error_text draw now msg (worker_view st)).1
  act scheduled_tick st =
      after_scheduler st (process_scheduled_notifications scheduler (scheduler_view st)).1
  act retry_tick st =
      after_scheduler st (process_retry_notifications scheduler (scheduler_view st)).1

  unfoldable pub run : List Action → State sys → State sys
  run [] st = st
  run (a ∷ rest) st = run rest (act a st)
