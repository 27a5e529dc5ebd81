-- ===== src/Handler/Notifications/Created.antt =====
-- A POST of a notification, from the body of the request to the table and the queue.
use insider_one_notification.Prelude.{
  ◌≡◌, refl, sym, ap, ◌∙◌, ◌⊎◌, inl, inr, Bool, true, true≢false, Bool-cases, none, some, String,
  List, [], ◌∷◌, any, str_eq, ◌==◌, or_true,
}
use insider_one_notification.Errors.{Error}
use insider_one_notification.Result.{Result, ok, err}
use insider_one_notification.Entity.{Notification, Uuid, Time, new_notification}
use insider_one_notification.Entity.Channels
use insider_one_notification.Entity.Priorities
use insider_one_notification.Entity.Statuses
use insider_one_notification.Postgres.Row.{Row}
use insider_one_notification.Postgres.Server.{conflicts}
use insider_one_notification.Repository.{IsRowOf}
use insider_one_notification.Handler.{ErrorResponse, map_domain_error, respond}
use insider_one_notification.Handler.Notifications.{
  Web, Answer, refused, reply, panicked, CreateNotificationRequest, CreateNotificationResponse,
  map_create_request_to_entity, created, parsed_template_id, after_bind_create, bad_request,
  handle_create,
}
use insider_one_notification.NotificationService.{NotificationService, World, Outcome, create}
use insider_one_notification.NotificationService.Create.{
  table, messages, as_pending, Succeeded, Failed, CreateOutcome, create_outcome,
}
use insider_one_notification.NotificationService.Request.{SameRequest, create-SameRequest}

any_weaker :
    (p q : Row → Bool) (rs : List Row)
    → ((r : Row) → p r ≡ true → q r ≡ true)
    → any p rs ≡ true
    → any q rs ≡ true
any_weaker p q [] weaker h = h
any_weaker p q (r ∷ rs) weaker h = elim (Bool-cases (p r)) [
  | inl hit ↦ rw (weaker r hit)
  | inr miss ↦
      let rest = any_weaker p q rs weaker (rw miss at h) in
      elim (Bool-cases (q r)) [ inl hit ↦ rw hit | inr other ↦ rw (other, rest) ]
]

module _ (web : Web) (s : NotificationService) (now : Time) (id : Uuid) (body : String) where
  abbrev requested : CreateNotificationRequest → Notification
  requested req = map_create_request_to_entity web now id req

  -- The notification of a request that could be read, as the service left it: its subject and content are
  -- the request's, unless a template was to be rendered.
  abbrev pub IsRequested : CreateNotificationRequest → Notification → Type 0
  IsRequested req n =
      (web.bind_create body ≡ ok req)
      × (n ≡ record {
        id = id;
        batch_id = none;
        idempotency_key = req.idempotency_key;
        channel = Channels.of_string req.channel;
        priority = Priorities.of_string req.priority;
        recipient = req.recipient;
        subject = n.subject;
        content = n.content;
        template_id = n.template_id;
        template_vars = req.template_vars;
        status = n.status;
        scheduled_at = req.scheduled_at;
        attempts = 0;
        max_attempts = 5;
        last_attempt_at = none;
        next_retry_at = none;
        provider_message_id = none;
        error_message = none;
        created_at = now;
        updated_at = now;
      })
      × (req.template_id ≡ none → n.template_id ≡ none)
      × ((text : String) → req.template_id ≡ some text → n.template_id ≡ web.parse_uuid text)
      × (n.template_id ≡ none → (n.subject ≡ req.subject) × (n.content ≡ req.content))

  requested_lem :
      (req : CreateNotificationRequest) (n : Notification)
      → web.bind_create body ≡ ok req
      → SameRequest (requested req) n
      → IsRequested req n
  unfolding map_create_request_to_entity new_notification parsed_template_id
  requested_lem req n bound (same, text) =
      let template = ap (λ (x : Notification). x.template_id) same in
      (
        bound,
        ap
            (λ (x : Notification). record x {
              subject = n.subject;
              content = n.content;
              status = n.status;
              template_id = n.template_id;
            })
            same,
        λ none_at. template ∙ ap (parsed_template_id web) none_at,
        λ given some_at. template ∙ ap (parsed_template_id web) some_at,
        λ none_at. text (sym template ∙ none_at),
      )

  abbrev pub CreateAnswer : World s → Answer CreateNotificationResponse × World s → Type 0
  CreateAnswer w (refused e, w') =
      ((failure : Error) × (web.bind_create body ≡ err failure)
        × (e ≡ respond 400 (web.error_text failure))
        × (w' ≡ w))
      ⊎ ((req : CreateNotificationRequest) × (n : Notification) × (failure : Error) × (create s
              (requested req) w
            ≡ (some failure, n, w'))
          × (e ≡ map_domain_error web.error_text failure)
          × Failed s w n w'
          × IsRequested req n)
  CreateAnswer w (reply code resp, w') =
      (req : CreateNotificationRequest) × (n : Notification) × (create s (requested req) w
        ≡ (none, n, w'))
      × (code ≡ 201)
      × (resp ≡ record {
        id = web.uuid_string id;
        status = Statuses.to_string n.status;
        created_at = now;
      })
      × Succeeded s w n w'
      × IsRequested req n
  CreateAnswer w (panicked, w') = ⊥

  created_answer :
      (req : CreateNotificationRequest) (w : World s) (out : Outcome s)
      → create s (requested req) w ≡ out
      → IsRequested req out.1
      → CreateOutcome s w out
      → CreateAnswer w (created web s out)
  unfolding created
  created_answer req w (some e, n, w') made same failed = inr (req, n, e, made, refl, failed, same)
  created_answer req w (none, n, w') made same succeeded = (
    req,
    n,
    made,
    refl,
    ap
        (λ (x : Notification). record {
          id = web.uuid_string x.id;
          status = Statuses.to_string n.status;
          created_at = x.created_at;
        })
        same.1,
    succeeded,
    same,
  )

  bound_answer :
      (w : World s) (bound : Result CreateNotificationRequest)
      → web.bind_create body ≡ bound
      → CreateAnswer w (after_bind_create web s now id bound w)
  unfolding after_bind_create bad_request
  bound_answer w (err e) same = inl (e, same, refl, refl)
  bound_answer w (ok req) same =
      let n = requested req in
      let (failure, m, w') = create s n w in
      created_answer req w (create s n w) refl (requested_lem req m same (create-SameRequest s n w))
        (create_outcome s n w)

  -- POST of one notification. The answer is 201 only if the body could be read and the service, called
  -- with the notification of the request, stored and, unless it is scheduled, enqueued it; it shows the ID of
  -- the new row. That notification has every field of the request, with a subject and a content of its own
  -- only if there is a template. A body that cannot be read is answered with 400, and nothing happens; if the
  -- service returns an error, that error is mapped, and either nothing happened or the new row is left
  -- pending. The handler never panics.
  pub handle_create_outcome : (w : World s) → CreateAnswer w (handle_create web s now id body w)
  unfolding handle_create
  handle_create_outcome w = bound_answer w (web.bind_create body) refl

  taken_clash :
      (req req' : CreateNotificationRequest) (n : Notification) (r : Row) (rs : List Row)
      → web.bind_create body ≡ ok req
      → IsRequested req' n
      → IsRowOf (as_pending n) r
      → any (λ (x : Row). str_eq req.idempotency_key x.idempotency_key) rs ≡ true
      → any (conflicts r) rs ≡ true
  taken_clash req req' n r rs bound (bound', same, unset, given, text) (vars, row) taken =
      let one : req ≡ req' = cc in
      let key : r.idempotency_key ≡ req.idempotency_key =
        ap (λ (x : Row). x.idempotency_key) row
        ∙ ap (λ (x : Notification). x.idempotency_key) same
        ∙ ap (λ (x : CreateNotificationRequest). x.idempotency_key) (sym one) in
      any_weaker (λ (x : Row). str_eq req.idempotency_key x.idempotency_key) (conflicts r) rs
        (λ x hit. rw (key, hit) (or_true (r.id == x.id))) taken

  -- What is left of an answer when the key is taken.
  abbrev Untouched : World s → Answer CreateNotificationResponse × World s → Type 0
  Untouched w (answer, w') =
      ((e : ErrorResponse) × (answer ≡ refused e))
      × (table s w' ≡ table s w)
      × (messages s w' ≡ messages s w)

  taken-Untouched :
      (req : CreateNotificationRequest) (w : World s)
      (out : Answer CreateNotificationResponse × World s)
      → web.bind_create body ≡ ok req
      → any (λ (x : Row). str_eq req.idempotency_key x.idempotency_key) (table s w) ≡ true
      → CreateAnswer w out
      → Untouched w out
  taken-Untouched req w (refused e, w') bound taken (inl (failure, unread, text, same)) = cc
  taken-Untouched req w (refused e, w') bound taken
        (inr (req', n, failure, made, text, inl (same, unsent), asked)) =
      ((e, refl), same, unsent)
  taken-Untouched req w (refused e, w') bound taken
        (inr (
          req',
          n,
          failure,
          made,
          text,
          inr (r, row, stored, fresh, waiting, unset, never),
          asked,
        )) =
      let clash = taken_clash req req' n r (table s w) bound asked row taken in
      absurd (true≢false (sym clash ∙ fresh))
  taken-Untouched req w (reply code resp, w') bound taken
        (req', n, made, code', shown, (r, row, fresh, rest), asked) =
      let clash = taken_clash req req' n r (table s w) bound asked row taken in
      absurd (true≢false (sym clash ∙ fresh))
  taken-Untouched req w (panicked, w') bound taken nothing = elim nothing [ ]

  -- POST of a notification whose idempotency key a row of the table has already is answered with an
  -- error, whatever fails or not; no row is added or changed and no message is sent.
  pub handle_create_taken :
      (req : CreateNotificationRequest) (w : World s)
      → web.bind_create body ≡ ok req
      → any (λ (x : Row). str_eq req.idempotency_key x.idempotency_key) (table s w) ≡ true
      → ((e : ErrorResponse) × ((handle_create web s now id body w).0 ≡ refused e))
        × (table s (handle_create web s now id body w).1 ≡ table s w)
        × (messages s (handle_create web s now id body w).1 ≡ messages s w)
  handle_create_taken req w bound taken =
      taken-Untouched req w (handle_create web s now id body w) bound taken
        (handle_create_outcome w)
