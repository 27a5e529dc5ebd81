-- ===== src/Entity/Statuses.antt =====
-- `Status` of internal/domain/entity/notification.go, a Go string type: its constants are constructors,
-- and `other_status` is any other string, which only `of_string` makes.
use insider_one_notification.Prelude.{String, Bool, true, false, str_eq, if◌then◌else◌}

pub data Status : Type 0 where
  pending queued processing delivered failed cancelled : Status
  other_status : String → Status

-- The conversion `entity.Status(s)`.
unfoldable pub of_string : String → Status
of_string s =
    if str_eq s "pending"
    then pending
    else if str_eq s "queued"
    then queued
    else if str_eq s "processing"
    then processing
    else if str_eq s "delivered"
    then delivered
    else if str_eq s "failed"
    then failed
    else if str_eq s "cancelled"
    then cancelled
    else other_status s

-- The conversion `string(...)`.
unfoldable pub to_string : Status → String
to_string pending = "pending"
to_string queued = "queued"
to_string processing = "processing"
to_string delivered = "delivered"
to_string failed = "failed"
to_string cancelled = "cancelled"
to_string (other_status s) = s

unfoldable pub is_valid : Status → Bool
is_valid pending = true
is_valid queued = true
is_valid processing = true
is_valid delivered = true
is_valid failed = true
is_valid cancelled = true
is_valid (other_status s) = false

-- IsTerminal of the entity.
unfoldable pub is_terminal : Status → Bool
is_terminal delivered = true
is_terminal failed = true
is_terminal cancelled = true
is_terminal _ = false

abbrev pub is_pending : Status → Bool
is_pending pending = true
is_pending _ = false

abbrev pub is_queued : Status → Bool
is_queued queued = true
is_queued _ = false

abbrev pub is_failed : Status → Bool
is_failed failed = true
is_failed _ = false

abbrev pub is_delivered : Status → Bool
is_delivered delivered = true
is_delivered _ = false

abbrev pub is_cancelled : Status → Bool
is_cancelled cancelled = true
is_cancelled _ = false
