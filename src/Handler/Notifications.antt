-- ===== src/Handler/Notifications.antt =====
-- The handlers of internal/delivery/handler/notification_handler.go that change state, and the requests and
-- responses of internal/delivery/handler/dto.go. gin's ShouldBindJSON, uuid.Parse and the method String
-- of a UUID are the record `Web`; what uuid.New and time.Now return are arguments.
pub mod Batches
pub mod Created
pub mod Reads
use insider_one_notification.Prelude.{
  ℕ, zero, suc, ◌≡◌, String, Bool, true, false, Option, none, some, List, [], ◌∷◌, length, ltb,
  if◌then◌else◌,
}
use insider_one_notification.Errors.{Error}
use insider_one_notification.Result.{Result, ok, err}
use insider_one_notification.Entity.{Notification, Uuid, Time, Vars, cancelled, new_notification}
use insider_one_notification.Entity.Channels
use insider_one_notification.Entity.Priorities
use insider_one_notification.Entity.Statuses
use insider_one_notification.Handler.{ErrorResponse, respond, map_domain_error}
use insider_one_notification.NotificationService.{
  NotificationService, World, Outcome, create, cancel,
}
use insider_one_notification.NotificationService.Batch.{BatchOutcome, create_batch}

pub record CreateNotificationRequest : Type 0 where
  pub idempotency_key : String
  pub channel : String
  pub priority : String
  pub recipient : String
  pub subject : Option String
  pub content : String
  pub template_id : Option String
  pub template_vars : Vars
  pub scheduled_at : Option Time

pub record CreateNotificationResponse : Type 0 where
  pub id : String
  pub status : String
  pub created_at : Time

pub record BatchNotificationSummary : Type 0 where
  pub id : String
  pub status : String

pub record BatchCreateResponse : Type 0 where
  pub batch_id : String
  pub notifications : List BatchNotificationSummary
  pub total : ℕ

pub record CancelNotificationResponse : Type 0 where
  pub id : String
  pub status : String

-- What a handler writes: an error, or a status code with a body; or it panics.
pub data Answer (A : Type 0) : Type 0 where
  refused : ErrorResponse → Answer A
  reply : ℕ → A → Answer A
  panicked : Answer A

pub record Web : Type 0 where
  pub bind_create : String → Result CreateNotificationRequest
  pub bind_batch : String → Result (List CreateNotificationRequest)
  pub parse_uuid : String → Option Uuid
  pub uuid_string : Uuid → String
  pub error_text : Error → String

abbrev pub max_batch_size : ℕ
max_batch_size = 1000

module _ (web : Web) where
  open web use {bind_create, bind_batch, parse_uuid, uuid_string, error_text}

  parsed_template_id : Option String → Option Uuid
  parsed_template_id none = none
  parsed_template_id (some text) = parse_uuid text

  unfoldable pub map_create_request_to_entity :
      Time → Uuid → CreateNotificationRequest → Notification
  unfolding parsed_template_id
  map_create_request_to_entity now id req =
      record (new_notification now id (Channels.of_string req.channel)
        (Priorities.of_string req.priority) req.recipient req.content req.idempotency_key) {
          subject = req.subject;
          template_vars = req.template_vars;
          scheduled_at = req.scheduled_at;
          template_id = parsed_template_id req.template_id;
        }

  -- The loop over the requests; the calls of time.Now and uuid.New are counted.
  unfoldable pub map_requests :
      (ℕ → Time × Uuid) → ℕ → List CreateNotificationRequest → List Notification
  map_requests fresh i [] = []
  map_requests fresh i (req ∷ reqs) =
      map_create_request_to_entity (fresh i).0 (fresh i).1 req ∷ map_requests fresh (suc i) reqs

  unfoldable pub summaries : List Notification → List BatchNotificationSummary
  summaries [] = []
  summaries (n ∷ ns) =
      record { id = uuid_string n.id; status = Statuses.to_string n.status } ∷ summaries ns

  batch_id_text : Option Uuid → String
  batch_id_text none = ""
  batch_id_text (some id) = uuid_string id

  bad_request : {A : Type 0} → String → Answer A
  bad_request text = refused (respond 400 text)

  module _ (s : NotificationService) where
    created : Outcome s → Answer CreateNotificationResponse × World s
    created (some e, n, w) = (refused (map_domain_error error_text e), w)
    created (none, n, w) = (
      reply 201 (record {
        id = uuid_string n.id;
        status = Statuses.to_string n.status;
        created_at = n.created_at;
      }),
      w,
    )

    after_bind_create :
        Time
        → Uuid
        → Result CreateNotificationRequest
        → World s
        → Answer CreateNotificationResponse × World s
    unfolding created bad_request
    after_bind_create now id (err e) w = (bad_request (error_text e), w)
    after_bind_create now id (ok req) w =
        created (create s (map_create_request_to_entity now id req) w)

    -- NotificationHandler.Create
    unfoldable pub handle_create :
        Time → Uuid → String → World s → Answer CreateNotificationResponse × World s
    unfolding after_bind_create
    handle_create now id body w = after_bind_create now id (bind_create body) w

    -- `entities[0]` of an empty slice panics.
    batch_created : BatchOutcome s → Answer BatchCreateResponse × World s
    unfolding batch_id_text
    batch_created (some e, ns, w) = (refused (map_domain_error error_text e), w)
    batch_created (none, [], w) = (panicked, w)
    batch_created (none, n ∷ ns, w) = (
      reply 201 (record {
        batch_id = batch_id_text n.batch_id;
        notifications = summaries (n ∷ ns);
        total = length (n ∷ ns);
      }),
      w,
    )

    after_bind_batch :
        (ℕ → Time × Uuid)
        → Uuid
        → Result (List CreateNotificationRequest)
        → World s
        → Answer BatchCreateResponse × World s
    unfolding batch_created bad_request
    after_bind_batch fresh batch_id (err e) w = (bad_request (error_text e), w)
    after_bind_batch fresh batch_id (ok reqs) w =
        if ltb max_batch_size (length reqs)
        then (bad_request "batch size exceeds maximum of 1000", w)
        else batch_created (create_batch s batch_id (map_requests fresh zero reqs) w)

    -- NotificationHandler.CreateBatch
    unfoldable pub handle_create_batch :
        (ℕ → Time × Uuid) → Uuid → String → World s → Answer BatchCreateResponse × World s
    unfolding after_bind_batch
    handle_create_batch fresh batch_id body w = after_bind_batch fresh batch_id (bind_batch body) w

    cancel_answered :
        Uuid → Result (Unit {0}) × World s → Answer CancelNotificationResponse × World s
    cancel_answered id (err e, w) = (refused (map_domain_error error_text e), w)
    cancel_answered id (ok u, w) =
        (reply 200 (record { id = uuid_string id; status = Statuses.to_string cancelled }), w)

    after_parse : Option Uuid → World s → Answer CancelNotificationResponse × World s
    unfolding cancel_answered bad_request
    after_parse none w = (bad_request "invalid notification id", w)
    after_parse (some id) w = cancel_answered id (cancel s id w)

    -- NotificationHandler.Cancel
    unfoldable pub handle_cancel : String → World s → Answer CancelNotificationResponse × World s
    unfolding after_parse
    handle_cancel param w = after_parse (parse_uuid param) w
