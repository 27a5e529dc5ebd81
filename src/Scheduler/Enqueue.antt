-- ===== src/Scheduler/Enqueue.antt =====
-- What the scheduler's loop over fetched notifications does.
use mathlib.Core.List.{append-nil, append_assoc}
use insider_one_notification.Prelude.{
  ◌≡◌, ◌≢◌, refl, sym, ap, ◌∙◌, ◌⊎◌, inl, inr, Bool, Option, none, some, List, [], ◌∷◌, ◌++◌, All,
}
use insider_one_notification.Errors.{Error}
use insider_one_notification.Result.{Result, ok, err}
use insider_one_notification.Entity.{Notification, queued}
use insider_one_notification.Postgres.Row.{Row}
use insider_one_notification.Postgres.Clauses.{has_id, set_status}
use insider_one_notification.Repository.{Changes}
use insider_one_notification.Repository.Requeues.{
  Requeues, Inside, Requeues-same, Requeues-then, Requeues-update,
}
use insider_one_notification.Ports.{Appends, IsSublist, none_left, keep, skip}
use insider_one_notification.Scheduler.{
  Scheduler, World, logged, after_enqueue, after_update, enqueue_notification, enqueue_all,
}

module _ (s : Scheduler) where
  open s use {repo, producer}

  abbrev pub table : World s → List Row
  table w = repo.rows w.db

  abbrev pub sent : World s → List Notification
  sent w = producer.sent w.queue

  -- One call: the row is queued or as it was, the message was sent or was not; without an error it was.
  abbrev pub Attempted : (Row → Bool) → Notification → World s → Option Error × World s → Type 0
  Attempted test n w (failure, w') =
      Requeues test (table w) (table w')
      × (((sent w' ≡ sent w) × (failure ≢ none)) ⊎ (sent w' ≡ sent w ++ n ∷ []))

  enqueue-Attempted :
      (test : Row → Bool) (n : Notification) (w w₁ : World s) (result : Result (Unit {0}))
      (queue : producer.Queue)
      → Requeues test (table w) (table w₁)
      → sent w₁ ≡ sent w
      → Appends n (sent w₁) result (producer.sent queue)
      → Attempted test n w (after_enqueue s w₁ (result, queue))
  unfolding after_enqueue
  enqueue-Attempted test n w w₁ (ok u) queue moved same (inl (done, appended)) =
      (moved, inr (rw (sym same) appended))
  enqueue-Attempted test n w w₁ (ok u) queue moved same (inr (e, failure, maybe)) = cc
  enqueue-Attempted test n w w₁ (err e) queue moved same (inl (done, appended)) = cc
  enqueue-Attempted test n w w₁ (err e) queue moved same (inr (x, failure, inl unchanged)) =
      (moved, inl (unchanged ∙ same, λ z. cc))
  enqueue-Attempted test n w w₁ (err e) queue moved same (inr (x, failure, inr appended)) =
      (moved, inr (rw (sym same) appended))

  update-Attempted :
      (test : Row → Bool) (n : Notification) (w : World s) (result : Result (Unit {0}))
      (db : repo.Db)
      → Inside test n
      → Changes (has_id n.id) (set_status queued none none) (table w) result (repo.rows db)
      → Attempted test n w (after_update s n w (result, db))
  unfolding after_update
  update-Attempted test n w (err e) db inside (inl (done, hit, changed)) = cc
  update-Attempted test n w (err e) db inside (inr (x, failure, same)) =
      (Requeues-same test (table w) (repo.rows db) same, inl (refl, λ z. cc))
  update-Attempted test n w (ok u) db inside (inr (x, failure, same)) = cc
  update-Attempted test n w (ok u) db inside (inl (done, hit, (now, t, changed))) =
      let w₁ = record w { db = db } in
      let (result, queue) = producer.enqueue n w.queue in
      enqueue-Attempted test n w w₁ result queue
        (Requeues-update n.id test (table w) (repo.rows db) now t inside changed) refl
        (producer.enqueue_appends n w.queue)

  notification-Attempted :
      (test : Row → Bool) (n : Notification) (w : World s)
      → Inside test n
      → Attempted test n w (enqueue_notification s n w)
  unfolding enqueue_notification
  notification-Attempted test n w inside =
      let (result, db) = repo.update_status n.id queued none none w.db in
      update-Attempted test n w result db inside
        (repo.update_status_changes n.id queued none none w.db)

  -- What the loop over notifications does to the table and the queue.
  abbrev pub Enqueues : (Row → Bool) → List Notification → World s → List Error × World s → Type 0
  Enqueues test ns w (log, w') =
      Requeues test (table w) (table w')
      × ((added : List Notification) × (sent w' ≡ sent w ++ added)
          × IsSublist added ns
          × (log ≡ [] → added ≡ ns))

  Enqueues-cons :
      (test : Row → Bool) (n : Notification) (ns : List Notification) (w w₁ w₂ : World s)
      (failure : Option Error) (log : List Error)
      → Attempted test n w (failure, w₁)
      → Enqueues test ns w₁ (log, w₂)
      → Enqueues test (n ∷ ns) w (logged failure log, w₂)
  Enqueues-cons test n ns w w₁ w₂ none log (moved, inl (same, failed)) rest = absurd (failed refl)
  Enqueues-cons test n ns w w₁ w₂ (some e) log (moved, inl (same, failed))
        (moved', (added, grown, sub, all)) =
      (
        Requeues-then test (table w) (table w₁) (table w₂) moved moved',
        (added, rw (sym same) grown, skip sub, λ z. cc),
      )
  Enqueues-cons test n ns w w₁ w₂ none log (moved, inr grown) (moved', (added, grown', sub, all)) =
      (
        Requeues-then test (table w) (table w₁) (table w₂) moved moved',
        (
          n ∷ added,
          grown' ∙ ap (λ q. q ++ added) grown ∙ append_assoc (sent w) (n ∷ []) added,
          keep sub,
          λ z. ap (λ ms. n ∷ ms) (all z),
        ),
      )
  Enqueues-cons test n ns w w₁ w₂ (some e) log (moved, inr grown)
        (moved', (added, grown', sub, all)) =
      (
        Requeues-then test (table w) (table w₁) (table w₂) moved moved',
        (
          n ∷ added,
          grown' ∙ ap (λ q. q ++ added) grown ∙ append_assoc (sent w) (n ∷ []) added,
          keep sub,
          λ z. cc,
        ),
      )

  pub enqueue_all-Enqueues :
      (test : Row → Bool) (ns : List Notification) (w : World s)
      → All (Inside test) ns
      → Enqueues test ns w (enqueue_all s ns w)
  unfolding enqueue_all
  enqueue_all-Enqueues test [] w inside = (
    Requeues-same test (table w) (table w) refl,
    ([], sym (append-nil (sent w)), none_left, λ z. refl),
  )
  enqueue_all-Enqueues test (n ∷ ns) w (this, inside) =
      let (failure, w₁) = enqueue_notification s n w in
      let (log, w₂) = enqueue_all s ns w₁ in
      Enqueues-cons test n ns w w₁ w₂ failure log (notification-Attempted test n w this)
        (enqueue_all-Enqueues test ns w₁ inside)
