-- ===== src/Handler/Notifications/Reads/Listed.antt =====
-- The GETs of the list and of a batch, from the query to the rows of the table.
use insider_one_notification.Prelude.{
  ◌≢◌, ◌⊎◌, none, some, ◌≤◌, ◌<◌, ◌≡◌, String, List, Option, length,
}
use insider_one_notification.Prelude.Int.{ℤ}
use insider_one_notification.Errors.{Error, wrap}
use insider_one_notification.Result.{Result, ok, err}
use insider_one_notification.Entity.{Notification, Uuid}
use insider_one_notification.Entity.Channels
use insider_one_notification.Entity.Priorities
use insider_one_notification.Entity.Statuses
use insider_one_notification.Postgres.Row.{Json}
use insider_one_notification.Postgres.Listing.{ListFilter, Reader}
use insider_one_notification.Postgres.Listing.Batches.{BatchListOutcome}
use insider_one_notification.Postgres.Listing.Pages.{ListOutcome}
use insider_one_notification.Handler.{map_domain_error, respond}
use insider_one_notification.Handler.Notifications.{Web, Answer, refused, reply, panicked}
use insider_one_notification.Handler.Notifications.Reads.{
  PaginatedNotificationsResponse, Values, list_filter, map_notifications_to_response,
}

-- A parameter of the query that is absent or empty asks for nothing, and another for its value.
abbrev Asks {ℓ} : {A : Type ℓ} → (String → A) → Option String → Option A → Type ℓ
Asks convert value column =
    ((value ≡ none) ⊎ (value ≡ some "") → column ≡ none)
    × ((v : String) → value ≡ some v → v ≢ "" → column ≡ some (convert v))

-- A parameter that is absent stands for a default.
abbrev Defaults : String → Option String → String → Type 0
Defaults default value text =
    (value ≡ none → text ≡ default) × ((v : String) → value ≡ some v → text ≡ v)

-- The filter asks for what the query says.
abbrev pub IsFilterOf : Values → ListFilter → Type 0
IsFilterOf query filter =
    Asks Channels.of_string (query "channel") filter.channel
    × Asks Statuses.of_string (query "status") filter.status
    × Asks Priorities.of_string (query "priority") filter.priority
    × Asks (λ v. v) (query "recipient") filter.recipient
    × Defaults "created_at" (query "sort_by") filter.sort_by
    × Defaults "desc" (query "sort_order") filter.sort_order

module _ (web : Web) (json : Json) (reader : Reader) (atoi : String → Option ℤ)
    (query : Values) where
  abbrev pub wanted : ListFilter
  wanted = list_filter atoi query

  abbrev pub ListAnswer : reader.Db → Answer PaginatedNotificationsResponse → Type 0
  ListAnswer db (refused e) =
      (failure : Error) × (e
        ≡ map_domain_error web.error_text (wrap "listing notifications" failure))
      × ListOutcome json reader wanted db (err failure)
  ListAnswer db (reply code resp) =
      (ns : List Notification) × (code ≡ 200)
      × (resp.notifications ≡ map_notifications_to_response web ns)
      × (length resp.notifications ≤ resp.limit)
      × (0 < resp.limit)
      × (resp.limit ≤ 100)
      × (resp.limit ≡ wanted.limit)
      × (resp.offset ≡ wanted.offset)
      × ListOutcome json reader wanted db (ok (ns, resp.total))
  ListAnswer db panicked = ⊥

  module _ (param : String) where
    abbrev pub BatchListAnswer : reader.Db → Answer PaginatedNotificationsResponse → Type 0
    BatchListAnswer db (refused e) =
        ((web.parse_uuid param ≡ none) × (e ≡ respond 400 "invalid batch id"))
        ⊎ ((id : Uuid) × (failure : Error) × (web.parse_uuid param ≡ some id)
            × (e ≡ map_domain_error web.error_text (wrap "getting notifications for batch" failure))
            × BatchListOutcome json reader id wanted.limit wanted.offset db (err failure))
    BatchListAnswer db (reply code resp) =
        (id : Uuid) × (ns : List Notification) × (web.parse_uuid param ≡ some id)
        × (code ≡ 200)
        × (resp.notifications ≡ map_notifications_to_response web ns)
        × (resp.limit ≡ wanted.limit)
        × (resp.offset ≡ wanted.offset)
        × BatchListOutcome json reader id resp.limit resp.offset db (ok (ns, resp.total))
    BatchListAnswer db panicked = ⊥
