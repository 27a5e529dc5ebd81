-- ===== src/Examples/HandlerRuns.antt =====
-- Requests to a service whose table holds one notification.
use insider_one_notification.Prelude.{◌≡◌, ◌↔◌, refl, none, some, [], ◌∷◌, All}
use insider_one_notification.Errors.{Error, plain}
use insider_one_notification.Result.{ok}
use insider_one_notification.Handler.{ErrorResponse}
use insider_one_notification.Handler.Health.{readiness, IsUp, readiness-200}
use insider_one_notification.Handler.Notifications.{
  Web, CreateNotificationRequest, refused, handle_create, handle_create_batch,
}
use insider_one_notification.Handler.Notifications.Created.{
  CreateAnswer, handle_create_outcome, handle_create_taken,
}
use insider_one_notification.Handler.Notifications.Batches.{
  BatchAnswer, handle_create_batch_outcome,
}
use insider_one_notification.NotificationService.Create.{table, messages}
use insider_one_notification.Examples.EntityRuns.{welcome}
use insider_one_notification.Examples.ServiceRuns.{service, idle, waiting}

abbrev request : CreateNotificationRequest
request = record {
  idempotency_key = "k1";
  channel = "email";
  priority = "high";
  recipient = "user@example.com";
  subject = some "Welcome!";
  content = "Hello";
  template_id = none;
  template_vars = [];
  scheduled_at = none;
}

-- Every body is read as the one request.
abbrev pub web : Web
web = record {
  bind_create = λ body. ok request;
  bind_batch = λ body. ok (request ∷ []);
  parse_uuid = λ text. some 7;
  uuid_string = λ id. "7";
  error_text = λ e. "error";
}

handle_create_outcome_example :
    CreateAnswer web service 50 2 "{}" idle (handle_create web service 50 2 "{}" idle)
handle_create_outcome_example = handle_create_outcome web service 50 2 "{}" idle

handle_create_taken_example :
    ((e : ErrorResponse) × ((handle_create web service 50 2 "{}" waiting).0 ≡ refused e))
    × (table service (handle_create web service 50 2 "{}" waiting).1 ≡ table service waiting)
    × (messages service (handle_create web service 50 2 "{}" waiting).1 ≡ messages service waiting)
unfolding welcome
handle_create_taken_example = handle_create_taken web service 50 2 "{}" request waiting refl refl

handle_create_batch_outcome_example :
    BatchAnswer web service
      (λ i. (50, i))
      9
      "{}"
      idle
      (handle_create_batch web service (λ i. (50, i)) 9 "{}" idle)
handle_create_batch_outcome_example =
    handle_create_batch_outcome web service (λ i. (50, i)) 9 "{}" idle

abbrev unreachable : Error
unreachable = plain "connection refused"

-- One dependency answers and the other does not.
readiness-200_example :
    ((readiness web.error_text (("postgres", none) ∷ ("redis", some unreachable) ∷ [])).0 ≡ 200)
    ↔ All (IsUp web.error_text) (("postgres", none) ∷ ("redis", some unreachable) ∷ [])
readiness-200_example =
    readiness-200 web.error_text (("postgres", none) ∷ ("redis", some unreachable) ∷ [])
