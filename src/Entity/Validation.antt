-- ===== src/Entity/Validation.antt =====
-- `Validate` and `validateRecipient` of internal/domain/entity/notification.go. net/mail's ParseAddress is a
-- parameter: the error that it returns for a text, if any. A message keeps its fixed text.
pub mod Rules
use Prim.Native.String.{len}
use mathlib.Core.List.{append-eq-nil_iff}
use insider_one_notification.Prelude.{
  refl, ℕ, ◌≤◌, ◌<◌, ◌≡◌, ◌≢◌, ◌↔◌, ◌⊎◌, String, Bool, true, false, not, ◌&&◌, ◌||◌, Option, none,
  some, is_some, List, [], ◌∷◌, ◌++◌, arith, str_eq, eq_iff, ltb, leb, ◌==◌, if◌then◌else◌,
}
use insider_one_notification.Errors.{Error, wrap, plain}
use insider_one_notification.Entity.Channels
use insider_one_notification.Entity.Channels.{Channel, sms, email, push}
use insider_one_notification.Entity.Priorities
use insider_one_notification.Entity.Priorities.{Priority, high, normal, low}
use insider_one_notification.Entity.Statuses.{Status, pending, other_status}
use insider_one_notification.Entity.Statuses
use insider_one_notification.Entity.Struct.{Notification, Uuid, Time}

-- `if failed { errs = append(errs, ...) }`
abbrev pub check : Bool → String → List Error
check failed message = if failed then plain message ∷ [] else []

-- `s == nil || *s == ""`
abbrev pub is_blank : Option String → Bool
is_blank none = true
is_blank (some s) = str_eq s ""

abbrev pub is_before : Option Time → Time → Bool
is_before none created = false
is_before (some t) created = ltb t created

abbrev pub is_email : Channel → Bool
is_email email = true
is_email _ = false

module _ (parse_address : String → Option Error) where
  abbrev pub bad_address : Option Error → List Error
  bad_address none = []
  bad_address (some e) = wrap "recipient is not a valid email address" e ∷ []

  unfoldable pub validate_recipient : Channel → String → List Error
  validate_recipient email recipient = bad_address (parse_address recipient)
  validate_recipient sms recipient =
      check (ltb (len recipient) 7) "recipient phone number is too short"
  validate_recipient push recipient =
      check (ltb (len recipient) 1) "recipient device token must not be empty"
  validate_recipient _ recipient = []

  unfoldable pub validate : Notification → List Error
  unfolding validate_recipient
  validate n =
      check (n.id == 0) "id must not be nil"
      ++ (check (str_eq n.idempotency_key "") "idempotency_key must not be empty"
          ++ (check (not (Channels.is_valid n.channel)) "channel is not valid"
              ++ (check (not (Priorities.is_valid n.priority)) "priority is not valid"
                  ++ (check (str_eq n.recipient "") "recipient must not be empty"
                      ++ (check (str_eq n.content "" && not (is_some n.template_id))
                            "content must not be empty when no template is specified"
                          ++ (check (not (Statuses.is_valid n.status)) "status is not valid"
                              ++ (check (leb n.max_attempts 0)
                                    "max_attempts must be greater than zero"
                                  ++ ((if Channels.is_valid n.channel
                                        then validate_recipient n.channel n.recipient
                                        else [])
                                      ++ (check
                                            (is_email n.channel
                                              && is_blank n.subject
                                              && not (is_some n.template_id))
                                            "subject is required for email notifications without a template"
                                          ++ check (is_before n.scheduled_at n.created_at)
                                              "scheduled_at must not be in the past")))))))))
