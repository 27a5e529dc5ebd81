-- ===== src/Examples/SystemRuns.antt =====
-- The system over a table of one notification, a Redis server and a webhook: a create with a key that is
-- taken, a batch, a worker, the tickers, and a cancellation.
use insider_one_notification.Prelude.{refl, ◌≡◌, ◌++◌, none, List, [], ◌∷◌}
use insider_one_notification.Result.{ok}
use insider_one_notification.Postgres.Row.{Row, columns}
use insider_one_notification.Repository.OfPostgres.{postgres_repository}
use insider_one_notification.Repository.Identity.{identities, IsUnique}
use insider_one_notification.System.{
  System, State, Action, create, create_batch, cancel, process_message, scheduled_tick, retry_tick,
  run,
}
use insider_one_notification.System.Table.{table, run_keeps}
use insider_one_notification.Examples.Memory.{memory, empty_json, list_pubsub}
use insider_one_notification.Examples.EntityRuns.{welcome, any_address}
use insider_one_notification.Streams.Ports.{stream_producer, stream_consumer}
use insider_one_notification.Breaker.{default_circuit_breaker_config}
use insider_one_notification.Webhook.Guarded.{webhook_delivery}
use insider_one_notification.Examples.StreamRuns.{codec, redis, redis_laws, empty, with_one}
use insider_one_notification.Examples.DeliveryRuns.{http, format, url, fresh}
use insider_one_notification.Examples.WorkerRuns.{unlimited, welcomed}

abbrev system : System
system = record {
  repo = postgres_repository empty_json memory;
  producer = stream_producer codec redis redis_laws;
  consumer = stream_consumer codec redis redis_laws;
  delivery = webhook_delivery format http url default_circuit_breaker_config (λ payload w. refl);
  limiter = unlimited;
  pubsub = list_pubsub;
  render = λ id vars. ok ("", "rendered");
  parse_address = any_address;
  error_text = λ e. "connection refused";
  retry_base_delay = 1000000000;
  retry_max_delay = 300000000000;
}

abbrev started : State system
started = record {
  db = columns (welcome 1 "k1") none ∷ [];
  queue = empty;
  group = with_one;
  provider = fresh;
  limits = tt;
  channel = [];
}

abbrev actions : List Action
actions =
    create (welcome 2 "k1")
    ∷ create_batch 9 (welcome 3 "k3" ∷ [])
    ∷ process_message 0 100 welcomed
    ∷ scheduled_tick
    ∷ retry_tick
    ∷ cancel 3
    ∷ []

run_keeps_example :
    ((added : List Row) × (identities (table system (run system actions started))
        ≡ identities (table system started) ++ identities added))
    × (IsUnique (table system started) → IsUnique (table system (run system actions started)))
run_keeps_example = run_keeps system actions started
