-- ===== src/Examples/DeliveryRuns.antt =====
-- A worker that takes a notification from a Redis stream and sends it, through the circuit breaker, to a
-- webhook that answers every request with an empty 200.
use insider_one_notification.Prelude.{◌++◌, true, false, none, String, List, [], ◌∷◌, refl}
use insider_one_notification.Errors.{Error, plain}
use insider_one_notification.Result.{ok, err}
use insider_one_notification.Entity.{email, high}
use insider_one_notification.Postgres.Row.{columns}
use insider_one_notification.Repository.OfPostgres.{postgres_repository}
use insider_one_notification.Breaker.{new_circuit_breaker, default_circuit_breaker_config}
use insider_one_notification.Streams.Ports.{stream_consumer}
use insider_one_notification.Webhook.{Http, Format, webhook_url}
use insider_one_notification.Webhook.Guarded.{
  Line, send, GuardedOutcome, guarded_outcome, webhook_delivery,
}
use insider_one_notification.Worker.{Processor, World}
use insider_one_notification.Pool.{Round, run_worker}
use insider_one_notification.Pool.Once.{Handles, run_worker_once}
use insider_one_notification.Examples.Memory.{memory, empty_json, list_pubsub}
use insider_one_notification.Examples.StreamRuns.{codec, redis, redis_laws, with_one, known}
use insider_one_notification.Examples.WorkerRuns.{unlimited}

abbrev pub http : Http
http = record {
  World = List (String × String);
  posts = λ w. w;
  now = λ w. 100;
  new_request = λ url. none;
  do_post =
      λ url payload w. (ok (record { status_code = 200; body = ok "" }), w ++ (url, payload) ∷ []);
}

abbrev pub format : Format
format = record {
  marshal = λ b. ok b.content;
  unmarshal = λ text. record { message_id = ""; status = ""; timestamp = "" };
  parse_rfc3339 = λ text. err (plain "cannot parse");
  decimal = λ n. "100";
}

abbrev pub url : String
url = webhook_url (record { base_url = "https://webhook.site"; uuid = "u" })

abbrev pub fresh : Line format http url default_circuit_breaker_config
fresh = record { breaker = new_circuit_breaker; world = [] }

guarded_outcome_example :
    GuardedOutcome format http url default_circuit_breaker_config
      (λ payload w. refl)
      known
      fresh
      (send format http url default_circuit_breaker_config known fresh)
guarded_outcome_example =
    guarded_outcome format http url default_circuit_breaker_config (λ payload w. refl) known fresh

abbrev processor : Processor
processor = record {
  repo = postgres_repository empty_json memory;
  consumer = stream_consumer codec redis redis_laws;
  delivery = webhook_delivery format http url default_circuit_breaker_config (λ payload w. refl);
  limiter = unlimited;
  pubsub = list_pubsub;
  retry_base_delay = 1000000000;
  retry_max_delay = 300000000000;
}

abbrev started : World processor
started = record {
  db = columns known none ∷ [];
  queue = with_one;
  provider = fresh;
  limits = tt;
  channel = [];
}

abbrev text : Error → String
text e = "webhook returned non-2xx status"

-- Two rounds, and then the context is done.
abbrev rounds : List Round
rounds =
    record { is_done = false; is_done_in_dequeue = false; reads = λ m. (0, 100) }
    ∷ record { is_done = false; is_done_in_dequeue = false; reads = λ m. (0, 100) }
    ∷ record { is_done = true; is_done_in_dequeue = true; reads = λ m. (0, 100) }
    ∷ []

run_worker_once_example :
    Handles processor text email high started (run_worker processor text email high rounds started)
run_worker_once_example = run_worker_once processor text email high rounds started
