-- ===== src/NotificationService/Create.antt =====
-- What Create leaves behind, on success and on every error.
use insider_one_notification.Prelude.{
  ◌≡◌, ◌≢◌, refl, sym, ap, ◌∙◌, ◌⊎◌, inl, inr, false, Option, none, some, List, [], ◌∷◌, ◌++◌, map,
  any,
}
use insider_one_notification.Errors.{Error}
use insider_one_notification.Result.{Result, ok, err}
use insider_one_notification.Entity.{Notification, pending, queued, Time}
use insider_one_notification.Postgres.Row.{Row, stored_at}
use insider_one_notification.Postgres.Server.{updated, conflicts}
use insider_one_notification.Postgres.Clauses.{
  has_id, set_status, is_scheduled_ready, is_retry_ready,
}
use insider_one_notification.Repository.{IsRowOf, Creates, Changes}
use insider_one_notification.Ports.{Appends}
use insider_one_notification.NotificationService.{
  NotificationService, World, Outcome, broadcast_status, validate_notification, render_template,
  after_update, after_enqueue, dispatch, after_create, after_validation, after_render, create,
}

abbrev pub as_pending : Notification → Notification
as_pending n = record n { status = pending }

module _ (s : NotificationService) where
  open s use {repo, producer}

  abbrev pub table : World s → List Row
  table w = repo.rows w.db

  abbrev pub messages : World s → List Notification
  messages w = producer.sent w.queue

  -- The new row is pending, conflicts with no other, and waits for its schedule; or it has no
  -- schedule, its message is the last of the queue, and then the row was made queued.
  abbrev pub Succeeded : World s → Notification → World s → Type 0
  Succeeded w n w' =
      (r : Row) × IsRowOf (as_pending n) r
      × (any (conflicts r) (table w) ≡ false)
      × (((n.scheduled_at ≢ none)
            × (n.status ≡ pending)
            × (table w' ≡ table w ++ r ∷ [])
            × (messages w' ≡ messages w))
          ⊎ ((n.scheduled_at ≡ none)
              × (n.status ≡ queued)
              × (messages w' ≡ messages w ++ as_pending n ∷ [])
              × ((now : Time) × (t : Time) × (table w'
                    ≡ map (updated t (has_id n.id) (set_status queued none none now))
                        (table w ++ r ∷ [])))))

  -- Nothing was stored or sent; or the row of the notification was added, in conflict with no
  -- other, and the call failed later. That row is pending and
  -- has no schedule, so neither fetch of the scheduler ever selects it as it stands.
  abbrev pub Failed : World s → Notification → World s → Type 0
  Failed w n w' =
      ((table w' ≡ table w) × (messages w' ≡ messages w))
      ⊎ ((r : Row) × IsRowOf (as_pending n) r
          × (table w' ≡ table w ++ r ∷ [])
          × (any (conflicts r) (table w) ≡ false)
          × (r.status ≡ pending)
          × (r.scheduled_at ≡ none)
          × ((now : Time) → (is_scheduled_ready now r ≡ false) × (is_retry_ready now r ≡ false)))

  abbrev pub CreateOutcome : World s → Outcome s → Type 0
  CreateOutcome w (none, n, w') = Succeeded w n w'
  CreateOutcome w (some e, n, w') = Failed w n w'

  -- The row of a notification with no schedule, as it was inserted.
  stranded :
      (n : Notification) (r : Row)
      → n.status ≡ pending
      → n.scheduled_at ≡ none
      → IsRowOf n r
      → (r.status ≡ pending)
        × (r.scheduled_at ≡ none)
        × ((now : Time) → (is_scheduled_ready now r ≡ false) × (is_retry_ready now r ≡ false))
  stranded n r p none_at (vars, e) =
      let status : r.status ≡ pending = ap (λ (x : Row). x.status) e ∙ p in
      let schedule : r.scheduled_at ≡ none =
        ap (λ (x : Row). x.scheduled_at) e ∙ ap stored_at none_at in
      (status, schedule, λ now. (rw (status, schedule), rw status))

  -- Each lemma follows one call; `m` is the notification as it was persisted.
  update_outcome :
      (n : Notification) (w w₁ : World s) (r : Row) (result : Result (Unit {0})) (db : repo.Db)
      → let m = as_pending n in
        n.scheduled_at ≡ none
        → IsRowOf m r
        → any (conflicts r) (table w) ≡ false
        → table w₁ ≡ table w ++ r ∷ []
        → messages w₁ ≡ messages w ++ m ∷ []
        → Changes (has_id n.id) (set_status queued none none) (table w₁) result (repo.rows db)
        → CreateOutcome w (after_update s (record m { status = queued }) w₁ (result, db))
  unfolding after_update broadcast_status
  update_outcome n w w₁ r (err e) db none_at row fresh stored sent (inl (done, hit, changed)) = cc
  update_outcome n w w₁ r (err e) db none_at row fresh stored sent (inr (x, failed, same)) =
      let (waiting, unset, never) = stranded (as_pending n) r refl none_at row in
      inr (r, row, same ∙ stored, fresh, waiting, unset, never)
  update_outcome n w w₁ r (ok u) db none_at row fresh stored sent (inr (x, failed, same)) = cc
  update_outcome n w w₁ r (ok u) db none_at row fresh stored sent
        (inl (done, hit, (now, t, changed))) =
      (r, row, fresh, inr (none_at, refl, sent, (now, t, rw (sym stored) changed)))

  enqueue_outcome :
      (n : Notification) (w w₁ : World s) (r : Row) (result : Result (Unit {0}))
      (queue : producer.Queue)
      → let m = as_pending n in
        n.scheduled_at ≡ none
        → IsRowOf m r
        → any (conflicts r) (table w) ≡ false
        → table w₁ ≡ table w ++ r ∷ []
        → messages w₁ ≡ messages w
        → Appends m (messages w₁) result (producer.sent queue)
        → CreateOutcome w (after_enqueue s m w₁ (result, queue))
  unfolding after_enqueue
  enqueue_outcome n w w₁ r (err e) queue none_at row fresh stored sent appended =
      let (waiting, unset, never) = stranded (as_pending n) r refl none_at row in
      inr (r, row, stored, fresh, waiting, unset, never)
  enqueue_outcome n w w₁ r (ok u) queue none_at row fresh stored sent (inr (x, failed, maybe)) = cc
  enqueue_outcome n w w₁ r (ok u) queue none_at row fresh stored sent (inl (done, appended)) =
      let m = as_pending n in
      let w₂ = record w₁ { queue = queue } in
      let (result, db) = repo.update_status n.id queued none none w₂.db in
      update_outcome n w w₂ r result db none_at row fresh stored (rw (sym sent) appended)
        (repo.update_status_changes n.id queued none none w₂.db)

  dispatch_outcome :
      (n : Notification) (w w₁ : World s) (r : Row) (scheduled_at : Option Time)
      → n.scheduled_at ≡ scheduled_at
      → IsRowOf (as_pending n) r
      → any (conflicts r) (table w) ≡ false
      → table w₁ ≡ table w ++ r ∷ []
      → messages w₁ ≡ messages w
      → CreateOutcome w (dispatch s scheduled_at (as_pending n) w₁)
  unfolding dispatch
  dispatch_outcome n w w₁ r (some at) e row fresh stored sent =
      (r, row, fresh, inl ((λ z. cc (e, z)), refl, stored, sent))
  dispatch_outcome n w w₁ r none e row fresh stored sent =
      let (result, queue) = producer.enqueue (as_pending n) w₁.queue in
      enqueue_outcome n w w₁ r result queue e row fresh stored sent
        (producer.enqueue_appends (as_pending n) w₁.queue)

  create_row_outcome :
      (n : Notification) (w : World s) (result : Result (Unit {0})) (db : repo.Db)
      → Creates (as_pending n) (table w) result (repo.rows db)
      → CreateOutcome w (after_create s (as_pending n) w (result, db))
  unfolding after_create broadcast_status
  create_row_outcome n w (err e) db (inl (done, created)) = cc
  create_row_outcome n w (err e) db (inr (x, failed, same)) = inl (same, refl)
  create_row_outcome n w (ok u) db (inr (x, failed, same)) = cc
  create_row_outcome n w (ok u) db (inl (done, (r, row, stored, fresh))) =
      let w₁ = broadcast_status s n.id pending (record w { db = db }) in
      dispatch_outcome n w w₁ r n.scheduled_at refl row fresh stored refl

  validation_outcome :
      (n : Notification) (w : World s) (invalid : Option Error)
      → CreateOutcome w (after_validation s invalid n w)
  unfolding after_validation
  validation_outcome n w (some e) = inl (refl, refl)
  validation_outcome n w none =
      let m = as_pending n in
      let (result, db) = repo.create m w.db in
      create_row_outcome n w result db (repo.create_creates m w.db)

  render_outcome :
      (n : Notification) (w : World s) (made : Result Notification)
      → CreateOutcome w (after_render s n made w)
  unfolding after_render
  render_outcome n w (err e) = inl (refl, refl)
  render_outcome n w (ok m) = validation_outcome m w (validate_notification s.parse_address m)

  -- What Create leaves behind, however validation and rendering end. If it returns nil, one new row holds the notification: pending, with no message
  -- sent, if it has a schedule; else made queued, with its message sent last. If it returns an error,
  -- either nothing was stored or sent, or the row stays in the table as pending with no schedule,
  -- where neither of the scheduler's fetches can select it at any time.
  pub create_outcome : (n : Notification) (w : World s) → CreateOutcome w (create s n w)
  unfolding create
  create_outcome n w = render_outcome n w (render_template s n)
