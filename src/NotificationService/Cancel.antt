-- ===== src/NotificationService/Cancel.antt =====
-- What Cancel leaves behind.
use insider_one_notification.Prelude.{◌≡◌, refl, ◌⊎◌, inl, inr, List, [], ◌∷◌, ◌++◌}
use insider_one_notification.Result.{Result, ok, err}
use insider_one_notification.Entity.{Uuid, cancelled}
use insider_one_notification.Postgres.Clauses.{is_cancellable, set_cancelled}
use insider_one_notification.Postgres.Updates.{
  Writes, Hits, IsCancellable, IsCancelled, is_cancellable-IsCancellable, set_cancelled-IsCancelled,
  updated-Writes, select-Hits,
}
use insider_one_notification.Repository.{Changes}
use insider_one_notification.Ports.{StatusUpdate, service_update, Appends}
use insider_one_notification.NotificationService.{
  NotificationService, World, after_cancel, broadcast_status, cancel,
}
use insider_one_notification.NotificationService.Create.{table, messages}

module _ (s : NotificationService) where
  open s use {repo, pubsub}

  abbrev published : World s → List StatusUpdate
  published w = pubsub.published w.channel

  -- On success some row was pending or queued, and is cancelled now; the status may have been published.
  abbrev pub CancelOutcome : Uuid → World s → Result (Unit {0}) × World s → Type 0
  CancelOutcome id w (err e, w') =
      (table s w' ≡ table s w) × (messages s w' ≡ messages s w) × (published w' ≡ published w)
  CancelOutcome id w (ok u, w') =
      Hits (IsCancellable id) (table s w)
      × Writes (IsCancellable id) IsCancelled (table s w) (table s w')
      × (messages s w' ≡ messages s w)
      × ((published w' ≡ published w)
          ⊎ (published w' ≡ published w ++ service_update id cancelled ∷ []))

  publishes :
      (old new : List StatusUpdate) (u : StatusUpdate) (result : Result (Unit {0}))
      → Appends u old result new
      → (new ≡ old) ⊎ (new ≡ old ++ u ∷ [])
  publishes old new u result (inl (done, appended)) = inr appended
  publishes old new u result (inr (e, failure, maybe)) = maybe

  after_cancel_outcome :
      (id : Uuid) (w : World s) (result : Result (Unit {0})) (db : repo.Db)
      → Changes (is_cancellable id) set_cancelled (table s w) result (repo.rows db)
      → CancelOutcome id w (after_cancel s id w (result, db))
  unfolding after_cancel broadcast_status
  after_cancel_outcome id w (err e) db (inl (done, hit, changed)) = cc
  after_cancel_outcome id w (err e) db (inr (x, failure, same)) = (same, refl, refl)
  after_cancel_outcome id w (ok u) db (inr (x, failure, same)) = cc
  after_cancel_outcome id w (ok u) db (inl (done, hit, (now, t, changed))) =
      let update = service_update id cancelled in
      (
        select-Hits (IsCancellable id) (is_cancellable id) (table s w)
            (is_cancellable-IsCancellable id) hit,
        updated-Writes (IsCancellable id) IsCancelled t (is_cancellable id) (set_cancelled now)
            (table s w) (repo.rows db) (is_cancellable-IsCancellable id)
            (set_cancelled-IsCancelled now t) changed,
        refl,
        publishes (published w) (pubsub.published (pubsub.publish update w.channel).1) update
            (pubsub.publish update w.channel).0 (pubsub.publish_appends update w.channel),
      )

  -- Cancel in full. If it returns nil, there was a pending or queued row of that ID; every such row is
  -- cancelled, with its other columns but the time of the update as they were, no other row changed, and
  -- the new status was published at most once. If it returns an error, the table is as it was and nothing
  -- was published. The messages in the queue stay in both cases.
  pub cancel_outcome : (id : Uuid) (w : World s) → CancelOutcome id w (cancel s id w)
  unfolding cancel
  cancel_outcome id w =
      let (result, db) = repo.cancel id w.db in
      after_cancel_outcome id w result db (repo.cancel_changes id w.db)
