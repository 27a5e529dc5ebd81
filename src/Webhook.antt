-- ===== src/Webhook.antt =====
-- internal/infrastructure/httpclient/client.go: the webhook client. net/http is the record `Http`, whose
-- `posts` are the calls of Do with a POST request; the redirects that it may follow are part of the
-- call. encoding/json, time.Parse and the printing of a number are parameters. The context's deadline is
-- one of the errors of Do.
pub mod Guarded
pub mod Sending
use Prim.Native.String.{String, ◌++◌ as join}
use insider_one_notification.Prelude.{
  ℕ, ◌≡◌, ◌⊎◌, Bool, ◌||◌, true, false, not, Option, none, some, List, [], ◌∷◌, ◌++◌, map, ltb, leb,
  str_eq, if◌then◌else◌,
}
use insider_one_notification.Errors.{Error, plain, wrap}
use insider_one_notification.Result.{Result, ok, err}
use insider_one_notification.Entity.{Notification, Time}
use insider_one_notification.Entity.Channels
use insider_one_notification.Ports.{Appends}
use insider_one_notification.Worker.{DeliveryResponse}

pub record WebhookConfig : Type 0 where
  pub base_url : String
  pub uuid : String

pub record WebhookRequestBody : Type 0 where
  pub to : String
  pub channel : String
  pub content : String
  pub subject : String  -- left out of the JSON if empty

pub record WebhookDeliveryResponse : Type 0 where
  pub message_id : String
  pub status : String
  pub timestamp : String

-- The status code and the body, which may fail to be read.
pub record Response : Type 0 where
  pub status_code : ℕ
  pub body : Result String

pub record Http : Type 1 where
  pub World : Type 0
  pub posts : World → List (String × String)
  pub now : World → Time
  -- NewRequestWithContext: the error of a URL that cannot be parsed.
  pub new_request : String → Option Error
  pub do_post : String → String → World → Result Response × World

-- A call of Do that fails may have reached the server.
abbrev pub Posts : (h : Http) → String × String → h.World → Result Response × h.World → Type 0
Posts h p w (ok resp, w') = h.posts w' ≡ h.posts w ++ p ∷ []
Posts h p w (err e, w') = (h.posts w' ≡ h.posts w) ⊎ (h.posts w' ≡ h.posts w ++ p ∷ [])

pub record Format : Type 0 where
  pub marshal : WebhookRequestBody → Result String
  -- What json.Unmarshal leaves in a zero struct, whether it returns an error or not.
  pub unmarshal : String → WebhookDeliveryResponse
  pub parse_rfc3339 : String → Result Time
  pub decimal : ℕ → String

-- NewDeliveryClient: the URL that every request goes to.
unfoldable pub webhook_url : WebhookConfig → String
webhook_url cfg =
    if not (str_eq cfg.uuid "") then join cfg.base_url (join "/" cfg.uuid) else cfg.base_url

subject_of : Option String → String
subject_of none = ""
subject_of (some s) = if not (str_eq s "") then s else ""

unfoldable pub request_body : Notification → WebhookRequestBody
unfolding subject_of
request_body n = record {
  to = n.recipient;
  channel = Channels.to_string n.channel;
  content = n.content;
  subject = subject_of n.subject;
}

timestamp_of : Time → Result Time → Time
timestamp_of now (err e) = now
timestamp_of now (ok t) = t

unfoldable pub is_success : ℕ → Bool
is_success code = not (ltb code 200 || leb 300 code)

module _ (f : Format) (h : Http) where
  -- The defaults for an empty body or plain text.
  unfoldable pub to_delivery_response : Time → WebhookDeliveryResponse → DeliveryResponse
  unfolding timestamp_of
  to_delivery_response now r = record {
    message_id = if str_eq r.message_id "" then join "wh-" (f.decimal now) else r.message_id;
    status = if str_eq r.status "" then "accepted" else r.status;
    timestamp = timestamp_of now (f.parse_rfc3339 r.timestamp);
  }

  read_response : Time → ℕ → Result String → Result DeliveryResponse
  unfolding is_success to_delivery_response
  read_response now code (err e) = err (wrap "reading webhook response body" e)
  read_response now code (ok text) =
      if not (is_success code)
      then err (plain "webhook returned non-2xx status")
      else ok (to_delivery_response now (f.unmarshal text))

  after_do : Result Response × h.World → Result DeliveryResponse × h.World
  unfolding read_response
  after_do (err e, w) = (err (wrap "executing webhook HTTP request" e), w)
  after_do (ok resp, w) = (read_response (h.now w) resp.status_code resp.body, w)

  after_new_request : String → String → h.World → Option Error → Result DeliveryResponse × h.World
  unfolding after_do
  after_new_request url payload w (some e) = (err (wrap "creating webhook HTTP request" e), w)
  after_new_request url payload w none = after_do (h.do_post url payload w)

  after_marshal : String → h.World → Result String → Result DeliveryResponse × h.World
  unfolding after_new_request
  after_marshal url w (err e) = (err (wrap "marshalling webhook request body" e), w)
  after_marshal url w (ok payload) = after_new_request url payload w (h.new_request url)

  unfoldable pub send : String → Notification → h.World → Result DeliveryResponse × h.World
  unfolding after_marshal
  send url n w = after_marshal url w (f.marshal (request_body n))
