-- ===== src/Entity/Struct.antt =====
-- The struct `Notification` of internal/domain/entity/notification.go and its constructor. Attempts and
-- MaxAttempts are set to 0 and 5 and only ever incremented, so they are natural numbers.
use insider_one_notification.Prelude.{
  ℕ, String, Bool, Option, none, List, [], false, ◌||◌, ltb, if◌then◌else◌,
}
use insider_one_notification.Entity.Channels.{Channel}
use insider_one_notification.Entity.Priorities.{Priority}
use insider_one_notification.Entity.Statuses.{Status, pending, is_cancelled, is_delivered}

abbrev pub Uuid : Type 0
Uuid = ℕ

abbrev pub Time : Type 0
Time = ℕ

abbrev pub Vars : Type 0
Vars = List (String × String)

pub record Notification : Type 0 where
  pub id : Uuid
  pub batch_id : Option Uuid
  pub idempotency_key : String
  pub channel : Channel
  pub priority : Priority
  pub recipient : String
  pub subject : Option String
  pub content : String
  pub template_id : Option Uuid
  pub template_vars : Vars
  pub status : Status
  pub scheduled_at : Option Time
  pub attempts : ℕ
  pub max_attempts : ℕ
  pub last_attempt_at : Option Time
  pub next_retry_at : Option Time
  pub provider_message_id : Option String
  pub error_message : Option String
  pub created_at : Time
  pub updated_at : Time

abbrev pub default_max_attempts : ℕ
default_max_attempts = 5

-- `now` and `id` are what time.Now and uuid.New return.
unfoldable pub new_notification :
    Time → Uuid → Channel → Priority → String → String → String → Notification
new_notification now id channel priority recipient content idempotency_key = record {
  id = id;
  batch_id = none;
  idempotency_key = idempotency_key;
  channel = channel;
  priority = priority;
  recipient = recipient;
  subject = none;
  content = content;
  template_id = none;
  template_vars = [];
  status = pending;
  scheduled_at = none;
  attempts = 0;
  max_attempts = default_max_attempts;
  last_attempt_at = none;
  next_retry_at = none;
  provider_message_id = none;
  error_message = none;
  created_at = now;
  updated_at = now;
}

unfoldable pub is_retryable : Notification → Bool
is_retryable n =
    if is_cancelled n.status || is_delivered n.status then false else ltb n.attempts n.max_attempts
