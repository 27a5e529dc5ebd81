-- ===== src/Postgres/Row.antt =====
-- scanNotification, collectNotifications, marshalTemplateVars and mapPgError of
-- internal/infrastructure/postgres/notification_repository.go, and the columns of
-- migrations/000001_create_notifications.up.sql. encoding/json is a parameter.
use mathlib.Core.Option.{some-injective}
use insider_one_notification.Prelude.{
  ℕ, ◌*◌, ◌/◌, String, ◌≡◌, sym, false, Option, none, some, List, [], ◌∷◌, str_eq, ◌≢◌, refl, ap,
  ◌∙◌, inl, inr, Bool-cases, true≢false, eq_iff, if◌then◌else◌,
}
use insider_one_notification.Errors.{Error, sentinel, duplicate_idempotency_key, wrap, pg_error}
use insider_one_notification.Result.{Result, ok, err, ◌>>=◌, ok-injective, >>=-eq-ok}
use insider_one_notification.Entity.{Notification, Channel, Priority, Status, Uuid, Time, Vars}

-- A row of the table `notifications`; `template_vars` is NULL or a JSON text.
pub record Row : Type 0 where
  pub id : Uuid
  pub batch_id : Option Uuid
  pub idempotency_key : String
  pub channel : Channel
  pub priority : Priority
  pub recipient : String
  pub subject : Option String
  pub content : String
  pub template_id : Option Uuid
  pub template_vars : Option String
  pub status : Status
  pub scheduled_at : Option Time
  pub attempts : ℕ
  pub max_attempts : ℕ
  pub last_attempt_at : Option Time
  pub next_retry_at : Option Time
  pub provider_message_id : Option String
  pub error_message : Option String
  pub created_at : Time
  pub updated_at : Time

-- json.Marshal and json.Unmarshal on a map of strings. What was marshalled is not empty and is read
-- back as the same map.
pub record Json : Type 0 where
  pub marshal : Vars → Result String
  pub unmarshal : String → Result Vars
  pub marshal_back :
      (vars : Vars) (text : String) → marshal vars ≡ ok text → unmarshal text ≡ ok vars
  pub marshal_nonempty :
      (vars : Vars) (text : String) → marshal vars ≡ ok text → str_eq text "" ≡ false

-- A TIMESTAMPTZ column, and an argument that is compared with one, holds whole microseconds.
abbrev pub microseconds : Time → Time
microseconds t = t / 1000 * 1000

abbrev pub stored_at : Option Time → Option Time
stored_at none = none
stored_at (some t) = some (microseconds t)

-- The arguments of an INSERT, in the order of the columns, as the columns hold them.
abbrev pub columns : Notification → Option String → Row
columns n vars = record {
  id = n.id;
  batch_id = n.batch_id;
  idempotency_key = n.idempotency_key;
  channel = n.channel;
  priority = n.priority;
  recipient = n.recipient;
  subject = n.subject;
  content = n.content;
  template_id = n.template_id;
  template_vars = vars;
  status = n.status;
  scheduled_at = stored_at n.scheduled_at;
  attempts = n.attempts;
  max_attempts = n.max_attempts;
  last_attempt_at = stored_at n.last_attempt_at;
  next_retry_at = stored_at n.next_retry_at;
  provider_message_id = n.provider_message_id;
  error_message = n.error_message;
  created_at = microseconds n.created_at;
  updated_at = microseconds n.updated_at;
}

-- The destinations of a Scan.
abbrev pub fields : Row → Vars → Notification
fields r vars = record {
  id = r.id;
  batch_id = r.batch_id;
  idempotency_key = r.idempotency_key;
  channel = r.channel;
  priority = r.priority;
  recipient = r.recipient;
  subject = r.subject;
  content = r.content;
  template_id = r.template_id;
  template_vars = vars;
  status = r.status;
  scheduled_at = r.scheduled_at;
  attempts = r.attempts;
  max_attempts = r.max_attempts;
  last_attempt_at = r.last_attempt_at;
  next_retry_at = r.next_retry_at;
  provider_message_id = r.provider_message_id;
  error_message = r.error_message;
  created_at = r.created_at;
  updated_at = r.updated_at;
}

-- The notification with its instants in whole microseconds.
abbrev pub in_microseconds : Notification → Notification
in_microseconds n = record n {
  scheduled_at = stored_at n.scheduled_at;
  last_attempt_at = stored_at n.last_attempt_at;
  next_retry_at = stored_at n.next_retry_at;
  created_at = microseconds n.created_at;
  updated_at = microseconds n.updated_at;
}

module _ (json : Json) where
  open json use {marshal, unmarshal}

  unfoldable pub marshal_template_vars : Vars → Result (Option String)
  marshal_template_vars [] = ok none
  marshal_template_vars (v ∷ vars) = marshal (v ∷ vars) >>= λ text. ok (some text)

  unfoldable pub to_row : Notification → Result Row
  to_row n = marshal_template_vars n.template_vars >>= λ vars. ok (columns n vars)

  -- `if len(templateVarsJSON) > 0`
  unfoldable pub scan_vars : Option String → Result Vars
  scan_vars none = ok []
  scan_vars (some text) = if str_eq text "" then ok [] else elim (unmarshal text) [
    | ok vars ↦ ok vars
    | err e ↦ err (wrap "unmarshaling template vars" e)
  ]

  unfoldable pub scan_notification : Row → Result Notification
  scan_notification r = scan_vars r.template_vars >>= λ vars. ok (fields r vars)

  unfoldable pub collect_notifications : List Row → Result (List Notification)
  collect_notifications [] = ok []
  collect_notifications (r ∷ rows) =
      scan_notification r >>= λ n. collect_notifications rows >>= λ rest. ok (n ∷ rest)

  scan_vars-marshal :
      (vars : Vars) (text : Option String)
      → marshal_template_vars vars ≡ ok text
      → scan_vars text ≡ ok vars
  unfolding marshal_template_vars scan_vars
  scan_vars-marshal [] text h = rw (sym (ok-injective h))
  scan_vars-marshal (v ∷ vars) text h =
      let (t, m, e) = >>=-eq-ok (marshal (v ∷ vars)) (λ t. ok (some t)) h in
      rw (sym (ok-injective e))
        (rw (json.marshal_nonempty (v ∷ vars) t m, json.marshal_back (v ∷ vars) t m))

  -- What is written to the table is read from it as it was, but for the instants.
  pub scan_notification-to_row :
      (n : Notification) (r : Row) → to_row n ≡ ok r → scan_notification r ≡ ok (in_microseconds n)
  unfolding to_row scan_notification
  scan_notification-to_row n r h =
      let (text, m, e) =
        >>=-eq-ok (marshal_template_vars n.template_vars) (λ vars. ok (columns n vars)) h in
      rw (sym (ok-injective e)) (rw (scan_vars-marshal n.template_vars text m))

-- `errors.As(err, &pgErr)`: the code of the first *pgconn.PgError of the chain.
unfoldable pub pg_code : Error → Option String
pg_code (pg_error code) = some code
pg_code (wrap context e) = pg_code e
pg_code _ = none

abbrev pub unique_violation_code : String
unique_violation_code = "23505"

abbrev pub map_pg_code : Option String → Error → Error
map_pg_code none e = wrap "postgres error" e
map_pg_code (some code) e =
    if str_eq code unique_violation_code
    then sentinel duplicate_idempotency_key
    else wrap "postgres error" e

unfoldable pub map_pg_error : Error → Error
unfolding pg_code
map_pg_error e = map_pg_code (pg_code e) e

map_pg_code_lem :
    (code : Option String) (e : Error)
    → (code ≡ some "23505" → map_pg_code code e ≡ sentinel duplicate_idempotency_key)
      × (code ≢ some "23505" → map_pg_code code e ≡ wrap "postgres error" e)
map_pg_code_lem none e = (λ h. cc, λ h. refl)
map_pg_code_lem (some code) e = elim (Bool-cases (str_eq code "23505")) [
  | inl hit ↦ (λ h. rw hit refl, λ h. absurd (h (ap (λ c. some c) ((eq_iff code "23505").0 hit))))
  | inr miss ↦ (
    λ h. absurd (true≢false (sym ((eq_iff code "23505").1 (some-injective code "23505" h)) ∙ miss)),
    λ h. rw miss refl,
  )
]

pub map_pg_error_lem :
    (e : Error)
    → (pg_code e ≡ some "23505" → map_pg_error e ≡ sentinel duplicate_idempotency_key)
      × (pg_code e ≢ some "23505" → map_pg_error e ≡ wrap "postgres error" e)
unfolding map_pg_error
map_pg_error_lem e = map_pg_code_lem (pg_code e) e
