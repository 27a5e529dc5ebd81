-- ===== src/Handler/Notifications/Reads.antt =====
-- GetByID, GetByBatchID and List of internal/delivery/handler/notification_handler.go, with the responses of
-- internal/delivery/handler/dto.go. A parameter that is absent from the query is none.
pub mod Listed
use insider_one_notification.Prelude.{
  ℕ, Bool, true, false, Option, none, some, String, List, [], ◌∷◌, map, str_eq, if◌then◌else◌,
}
use insider_one_notification.Prelude.Int.{ℤ}
use insider_one_notification.Errors.{Error, wrap}
use insider_one_notification.Result.{Result, ok, err}
use insider_one_notification.Entity.{Notification, Uuid, Time, Vars}
use insider_one_notification.Entity.Channels
use insider_one_notification.Entity.Priorities
use insider_one_notification.Entity.Statuses
use insider_one_notification.Postgres.Row.{Json}
use insider_one_notification.Postgres.Listing.{ListFilter, Reader, list, get_by_batch_id}
use insider_one_notification.Handler.{respond, map_domain_error, parse_pagination}
use insider_one_notification.Handler.Notifications.{Web, Answer, refused, reply}

pub record NotificationResponse : Type 0 where
  pub id : String
  pub batch_id : Option String
  pub idempotency_key : String
  pub channel : String
  pub priority : String
  pub recipient : String
  pub subject : Option String
  pub content : String
  pub template_id : Option String
  pub template_vars : Vars
  pub status : String
  pub scheduled_at : Option Time
  pub attempts : ℕ
  pub max_attempts : ℕ
  pub last_attempt_at : Option Time
  pub next_retry_at : Option Time
  pub provider_message_id : Option String
  pub error_message : Option String
  pub created_at : Time
  pub updated_at : Time

pub record PaginatedNotificationsResponse : Type 0 where
  pub notifications : List NotificationResponse
  pub total : ℕ
  pub offset : ℕ
  pub limit : ℕ

abbrev pub Values : Type 0
Values = String → Option String

-- c.DefaultQuery; c.Query is the same with "".
unfoldable pub default_query : Values → String → String → String
default_query query key fallback = elim (query key) [ none ↦ fallback | some value ↦ value ]

-- `if v := c.Query(key); v != ""`
unfoldable pub filter_value : Values → String → Option String
unfolding default_query
filter_value query key =
    if str_eq (default_query query key "") "" then none else some (default_query query key "")

-- `if p != nil { v := convert(*p); q = &v }`
abbrev pub converted {ℓ κ} : {A : Type ℓ} {B : Type κ} → (A → B) → Option A → Option B
converted convert none = none
converted convert (some value) = some (convert value)

unfoldable pub list_filter : (String → Option ℤ) → Values → ListFilter
unfolding filter_value default_query
list_filter atoi query =
    let (offset, limit) =
      parse_pagination atoi (default_query query "offset" "") (default_query query "limit" "") in
    record {
      channel = converted Channels.of_string (filter_value query "channel");
      status = converted Statuses.of_string (filter_value query "status");
      priority = converted Priorities.of_string (filter_value query "priority");
      recipient = filter_value query "recipient";
      offset = offset;
      limit = limit;
      sort_by = default_query query "sort_by" "created_at";
      sort_order = default_query query "sort_order" "desc";
    }

module _ (web : Web) where
  open web use {parse_uuid, uuid_string, error_text}

  unfoldable pub map_notification_to_response : Notification → NotificationResponse
  map_notification_to_response n = record {
    id = uuid_string n.id;
    batch_id = converted uuid_string n.batch_id;
    idempotency_key = n.idempotency_key;
    channel = Channels.to_string n.channel;
    priority = Priorities.to_string n.priority;
    recipient = n.recipient;
    subject = n.subject;
    content = n.content;
    template_id = converted uuid_string n.template_id;
    template_vars = n.template_vars;
    status = Statuses.to_string n.status;
    scheduled_at = n.scheduled_at;
    attempts = n.attempts;
    max_attempts = n.max_attempts;
    last_attempt_at = n.last_attempt_at;
    next_retry_at = n.next_retry_at;
    provider_message_id = n.provider_message_id;
    error_message = n.error_message;
    created_at = n.created_at;
    updated_at = n.updated_at;
  }

  abbrev pub map_notifications_to_response : List Notification → List NotificationResponse
  map_notifications_to_response ns = map map_notification_to_response ns

  notification_found : Result Notification → Answer NotificationResponse
  unfolding map_notification_to_response
  notification_found (err e) = refused (map_domain_error error_text (wrap "getting notification" e))
  notification_found (ok n) = reply 200 (map_notification_to_response n)

  after_parse_id : Option Uuid → (Uuid → Result Notification) → Answer NotificationResponse
  unfolding notification_found
  after_parse_id none get_by_id = refused (respond 400 "invalid notification id")
  after_parse_id (some id) get_by_id = notification_found (get_by_id id)

  -- NotificationHandler.GetByID, from what GetByID of the repository returns.
  unfoldable pub handle_get_by_id :
      String → (Uuid → Result Notification) → Answer NotificationResponse
  unfolding after_parse_id
  handle_get_by_id param get_by_id = after_parse_id (parse_uuid param) get_by_id

  listed : ListFilter → Result (List Notification × ℕ) → Answer PaginatedNotificationsResponse
  unfolding map_notification_to_response
  listed filter (err e) = refused (map_domain_error error_text (wrap "listing notifications" e))
  listed filter (ok (ns, total)) = reply 200 (record {
    notifications = map_notifications_to_response ns;
    total = total;
    offset = filter.offset;
    limit = filter.limit;
  })

  -- NotificationHandler.List
  unfoldable pub handle_list :
      (json : Json)
      → (reader : Reader) → (String → Option ℤ)
      → Values
      → reader.Db
      → Answer PaginatedNotificationsResponse
  unfolding listed
  handle_list json reader atoi query db =
      let filter = list_filter atoi query in listed filter (list json reader filter db)

  shown : ℕ → ℕ → Result (List Notification × ℕ) → Answer PaginatedNotificationsResponse
  unfolding map_notification_to_response
  shown offset limit (err e) =
      refused (map_domain_error error_text (wrap "getting notifications for batch" e))
  shown offset limit (ok (ns, total)) = reply 200 (record {
    notifications = map_notifications_to_response ns;
    total = total;
    offset = offset;
    limit = limit;
  })

  after_parse_batch :
      (json : Json)
      → (reader : Reader) → Option Uuid
      → ℕ × ℕ
      → reader.Db
      → Answer PaginatedNotificationsResponse
  unfolding shown
  after_parse_batch json reader none (offset, limit) db = refused (respond 400 "invalid batch id")
  after_parse_batch json reader (some id) (offset, limit) db =
      shown offset limit (get_by_batch_id json reader id limit offset db)

  -- NotificationHandler.GetByBatchID
  unfoldable pub handle_get_by_batch_id :
      (json : Json)
      → (reader : Reader) → (String → Option ℤ)
      → String
      → Values
      → reader.Db
      → Answer PaginatedNotificationsResponse
  unfolding after_parse_batch
  handle_get_by_batch_id json reader atoi param query db =
      after_parse_batch json reader (parse_uuid param)
        (parse_pagination atoi (default_query query "offset" "") (default_query query "limit" ""))
        db
