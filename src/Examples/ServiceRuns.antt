-- ===== src/Examples/ServiceRuns.antt =====
-- A service over an empty table and empty queues.
use insider_one_notification.Prelude.{none, [], ◌∷◌}
use insider_one_notification.Result.{ok}
use insider_one_notification.Repository.OfPostgres.{postgres_repository}
use insider_one_notification.NotificationService.{NotificationService, World, create, cancel}
use insider_one_notification.NotificationService.Create.{CreateOutcome, create_outcome}
use insider_one_notification.NotificationService.Cancel.{CancelOutcome, cancel_outcome}
use insider_one_notification.Postgres.Row.{columns}
use insider_one_notification.NotificationService.Batch.{create_batch}
use insider_one_notification.NotificationService.Batch.Enqueues.{
  CreateBatchOutcome, create_batch_outcome,
}
use insider_one_notification.Examples.Memory.{memory, empty_json, list_producer, list_pubsub}
use insider_one_notification.Examples.EntityRuns.{welcome, any_address}

abbrev pub service : NotificationService
service = record {
  repo = postgres_repository empty_json memory;
  producer = list_producer;
  pubsub = list_pubsub;
  render = λ id vars. ok ("", "rendered");
  parse_address = any_address;
}

abbrev pub idle : World service
idle = record { db = []; queue = []; channel = [] }

create_outcome_example : CreateOutcome service idle (create service (welcome 1 "k1") idle)
create_outcome_example = create_outcome service (welcome 1 "k1") idle

create_batch_outcome_example :
    CreateBatchOutcome service 9
      (welcome 1 "k1" ∷ welcome 2 "k2" ∷ [])
      idle
      (create_batch service 9 (welcome 1 "k1" ∷ welcome 2 "k2" ∷ []) idle)
create_batch_outcome_example =
    create_batch_outcome service 9 (welcome 1 "k1" ∷ welcome 2 "k2" ∷ []) idle

-- A pending notification is waiting in the table.
abbrev pub waiting : World service
waiting = record { db = columns (welcome 1 "k1") none ∷ []; queue = []; channel = [] }

cancel_outcome_example : CancelOutcome service 1 waiting (cancel service 1 waiting)
cancel_outcome_example = cancel_outcome service 1 waiting
