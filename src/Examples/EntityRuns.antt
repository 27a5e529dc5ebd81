-- ===== src/Examples/EntityRuns.antt =====
-- A welcome email, as a client may send it.
use insider_one_notification.Prelude.{◌≡◌, ◌↔◌, String, Option, none, some, []}
use insider_one_notification.Errors.{Error}
use insider_one_notification.Entity.{Notification, Uuid, email, high, new_notification}
use insider_one_notification.Entity.Validation.{validate}
use insider_one_notification.Entity.Validation.Rules.{IsWellFormed, validate_iff-IsWellFormed}

abbrev pub any_address : String → Option Error
any_address text = none

-- Created at 50 with a given ID, unscheduled.
unfoldable pub welcome : Uuid → String → Notification
unfolding new_notification
welcome id key = record (new_notification 50 id email high "user@example.com" "Hello" key) {
  subject = some "Welcome!";
}

validate_iff-IsWellFormed_example :
    (validate any_address (welcome 1 "k1") ≡ []) ↔ IsWellFormed any_address (welcome 1 "k1")
validate_iff-IsWellFormed_example = validate_iff-IsWellFormed any_address (welcome 1 "k1")
