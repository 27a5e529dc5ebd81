-- ===== src/Handler/Notifications/Batches.antt =====
-- A POST of a batch, from the body of the request to the table and the queue.
use insider_one_notification.Prelude.{
  ℕ, zero, suc, ◌≤◌, ◌≡◌, refl, sym, ap, Bool-cases, inl, inr, none, some, List, [], ◌∷◌, String,
  length, ltb, arith,
}
use insider_one_notification.Errors.{Error}
use insider_one_notification.Result.{Result, ok, err}
use insider_one_notification.Entity.{Notification, Uuid, Time}
use insider_one_notification.Handler.Notifications.{
  Web, Answer, refused, reply, panicked, CreateNotificationRequest, BatchCreateResponse,
  max_batch_size, map_requests, summaries, batch_id_text, batch_created, after_bind_batch,
  bad_request, handle_create_batch,
}
use insider_one_notification.NotificationService.{NotificationService, World}
use insider_one_notification.NotificationService.Create.{table, messages}
use insider_one_notification.NotificationService.Batch.{BatchOutcome, create_batch}
use insider_one_notification.NotificationService.Batch.Enqueues.{
  CreateBatchOutcome, create_batch_outcome,
}
use insider_one_notification.NotificationService.Batch.Length.{IfDone, create_batch-IfDone}

length-map_requests :
    (web : Web) (fresh : ℕ → Time × Uuid) (i : ℕ) (reqs : List CreateNotificationRequest)
    → length (map_requests web fresh i reqs) ≡ length reqs
unfolding map_requests
length-map_requests web fresh i [] = refl
length-map_requests web fresh i (req ∷ reqs) = ap suc (length-map_requests web fresh (suc i) reqs)

length-summaries : (web : Web) (ns : List Notification) → length (summaries web ns) ≡ length ns
unfolding summaries
length-summaries web [] = refl
length-summaries web (n ∷ ns) = ap suc (length-summaries web ns)

module _ (web : Web) (s : NotificationService) (fresh : ℕ → Time × Uuid) (batch_id : Uuid)
    (body : String) where
  abbrev pub entities : List CreateNotificationRequest → List Notification
  entities reqs = map_requests web fresh zero reqs

  abbrev pub BatchAnswer : World s → Answer BatchCreateResponse × World s → Type 0
  BatchAnswer w (refused e, w') = (table s w' ≡ table s w) × (messages s w' ≡ messages s w)
  BatchAnswer w (reply code resp, w') =
      (reqs : List CreateNotificationRequest) × (ms : List Notification) × (web.bind_batch body
        ≡ ok reqs)
      × (code ≡ 201)
      × (resp.batch_id ≡ web.uuid_string batch_id)
      × (resp.total ≡ length reqs)
      × (length resp.notifications ≡ resp.total)
      × (1 ≤ resp.total)
      × (resp.total ≤ 1000)
      × CreateBatchOutcome s batch_id (entities reqs) w (none, ms, w')
  BatchAnswer w (panicked, w') = ⊥

  created_answer :
      (reqs : List CreateNotificationRequest) (w : World s) (out : BatchOutcome s)
      → web.bind_batch body ≡ ok reqs
      → length reqs ≤ 1000
      → (length reqs ≡ 0 → (e : Error) × (out.0 ≡ some e))
      → IfDone s batch_id (length reqs) out
      → CreateBatchOutcome s batch_id (entities reqs) w out
      → BatchAnswer w (batch_created web s out)
  unfolding batch_created batch_id_text
  created_answer reqs w (some e, ms, w') bound few some_of done stored = stored
  created_answer reqs w (none, [], w') bound few some_of (same, all) stored =
      let (e, failure) = some_of (sym same) in cc
  created_answer reqs w (none, n ∷ ns, w') bound few some_of (same, (this, all)) stored = (
    reqs,
    n ∷ ns,
    bound,
    refl,
    ap (λ id. batch_id_text web id) this,
    same,
    length-summaries web (n ∷ ns),
    omega arith,
    omega (arith, same),
    stored,
  )

  empty_fails :
      (reqs : List CreateNotificationRequest) (w : World s)
      → length reqs ≡ 0
      → (e : Error) × ((create_batch s batch_id (entities reqs) w).0 ≡ some e)
  unfolding create_batch map_requests
  empty_fails [] w h = (_, refl)
  empty_fails (req ∷ reqs) w h = cc

  bound_answer :
      (w : World s) (bound : Result (List CreateNotificationRequest))
      → web.bind_batch body ≡ bound
      → BatchAnswer w (after_bind_batch web s fresh batch_id bound w)
  unfolding after_bind_batch bad_request
  bound_answer w (err e) same = (refl, refl)
  bound_answer w (ok reqs) same = elim (Bool-cases (ltb max_batch_size (length reqs))) [
    | inl long ↦ rw long (refl, refl)
    | inr few ↦ rw few (
        created_answer reqs w (create_batch s batch_id (entities reqs) w) same (ground (arith, few))
          (empty_fails reqs w)
          (rw (sym (length-map_requests web fresh zero reqs))
            (create_batch-IfDone s batch_id (entities reqs) w))
          (create_batch_outcome s batch_id (entities reqs) w))
  ]

  -- POST of a batch. Every answer but 201 leaves the table and the queue as they were. The answer 201 comes
  -- for a body that could be read, of 1 to 1000 requests; it shows the ID of the batch and one summary for
  -- each request, and the service has stored them all. The handler never panics, so `entities[0]` is there.
  pub handle_create_batch_outcome :
      (w : World s) → BatchAnswer w (handle_create_batch web s fresh batch_id body w)
  unfolding handle_create_batch
  handle_create_batch_outcome w = bound_answer w (web.bind_batch body) refl
