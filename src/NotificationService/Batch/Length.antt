-- ===== src/NotificationService/Batch/Length.antt =====
-- The notifications that a successful CreateBatch leaves: as many as it was given, all of the one batch.
use insider_one_notification.Prelude.{
  ℕ, suc, ◌≡◌, refl, sym, ap, ◌∙◌, Bool, true, false, Option, none, some, List, [], ◌∷◌, length,
  All, ltb,
}
use insider_one_notification.Result.{Result, ok, err, >>=-eq-ok, ok-injective}
use insider_one_notification.Entity.{Notification, Uuid, queued}
use insider_one_notification.NotificationService.{
  NotificationService, World, validate_notification, render_template, max_batch_size,
}
use insider_one_notification.NotificationService.Batch.{
  BatchOutcome, at_index, unless_invalid, prepare_one, prepare, broadcast_all, after_update,
  after_enqueue, dispatch_one, dispatch_all, after_insert, after_prepare, sized, create_batch,
}

abbrev pub InBatch : Uuid → Notification → Type 0
InBatch batch_id n = n.batch_id ≡ some batch_id

abbrev pub IsBatch : Uuid → ℕ → List Notification → Type 0
IsBatch batch_id k ms = (length ms ≡ k) × All (InBatch batch_id) ms

-- What holds of the notifications if the error is nil.
abbrev pub IfDone : (s : NotificationService) → Uuid → ℕ → BatchOutcome s → Type 0
IfDone s batch_id k (some e, ms, w) = Unit
IfDone s batch_id k (none, ms, w) = IsBatch batch_id k ms

module _ (s : NotificationService) where
  open s use {repo, producer, parse_address}

  prepare_one-InBatch :
      (batch_id : Uuid) (n m : Notification) → prepare_one s batch_id n ≡ ok m → InBatch batch_id m
  unfolding prepare_one
  prepare_one-InBatch batch_id n m h =
      let (r, first, rest) = >>=-eq-ok (at_index (render_template s n)) _ h in
      let (v, second, last) =
        >>=-eq-ok (at_index (unless_invalid (validate_notification parse_address r) r)) _ rest in
      ap (λ (x : Notification). x.batch_id) (sym (ok-injective last))

  prepare-IsBatch :
      (batch_id : Uuid) (ns ms : List Notification)
      → prepare s batch_id ns ≡ ok ms
      → IsBatch batch_id (length ns) ms
  unfolding prepare
  prepare-IsBatch batch_id [] ms h = rw (sym (ok-injective h)) (refl, tt)
  prepare-IsBatch batch_id (n ∷ ns) ms h =
      let (m, first, rest) = >>=-eq-ok (prepare_one s batch_id n) _ h in
      let (others, second, last) = >>=-eq-ok (prepare s batch_id ns) _ rest in
      let (same, all) = prepare-IsBatch batch_id ns others second in
      rw (sym (ok-injective last)) (ap suc same, (prepare_one-InBatch batch_id n m first, all))

  update-InBatch :
      (batch_id : Uuid) (m : Notification) (w : World s) (out : Result (Unit {0}) × repo.Db)
      → InBatch batch_id m
      → InBatch batch_id (after_update s m w out).0
  unfolding after_update
  update-InBatch batch_id m w (err e, db) h = h
  update-InBatch batch_id m w (ok u, db) h = h

  enqueue-InBatch :
      (batch_id : Uuid) (m : Notification) (w : World s) (out : Result (Unit {0}) × producer.Queue)
      → InBatch batch_id m
      → InBatch batch_id (after_enqueue s m w out).0
  unfolding after_enqueue
  enqueue-InBatch batch_id m w (err e, queue) h = h
  enqueue-InBatch batch_id m w (ok u, queue) h =
      let m' : Notification = record m { status = queued } in
      let w₁ : World s = record w { queue = queue } in
      update-InBatch batch_id m' w₁ (repo.update_status m.id queued none none w.db) h

  dispatch-InBatch :
      (batch_id : Uuid) (at : Option ℕ) (m : Notification) (w : World s)
      → InBatch batch_id m
      → InBatch batch_id (dispatch_one s at m w).0
  unfolding dispatch_one
  dispatch-InBatch batch_id (some at) m w h = h
  dispatch-InBatch batch_id none m w h = enqueue-InBatch batch_id m w (producer.enqueue m w.queue) h

  dispatch_all-IsBatch :
      (batch_id : Uuid) (k : ℕ) (ms : List Notification) (w : World s)
      → IsBatch batch_id k ms
      → IsBatch batch_id k (dispatch_all s ms w).0
  unfolding dispatch_all
  dispatch_all-IsBatch batch_id k [] w h = h
  dispatch_all-IsBatch batch_id k (m ∷ ms) w (same, (this, all)) =
      let (same', all') =
        dispatch_all-IsBatch batch_id (length ms) ms (dispatch_one s m.scheduled_at m w).1
          (refl, all) in
      (ap suc same' ∙ same, (dispatch-InBatch batch_id m.scheduled_at m w this, all'))

  insert-IfDone :
      (batch_id : Uuid) (k : ℕ) (ms : List Notification) (w : World s)
      (out : Result (Unit {0}) × repo.Db)
      → IsBatch batch_id k ms
      → IfDone s batch_id k (after_insert s ms w out)
  unfolding after_insert
  insert-IfDone batch_id k ms w (err e, db) h = tt
  insert-IfDone batch_id k ms w (ok u, db) h =
      dispatch_all-IsBatch batch_id k ms (broadcast_all s ms (record w { db = db })) h

  prepared-IfDone :
      (batch_id : Uuid) (k : ℕ) (ns : List Notification) (w : World s)
      (made : Result (List Notification))
      → ((ms : List Notification) → made ≡ ok ms → IsBatch batch_id k ms)
      → IfDone s batch_id k (after_prepare s ns w made)
  unfolding after_prepare
  prepared-IfDone batch_id k ns w (err e) h = tt
  prepared-IfDone batch_id k ns w (ok ms) h =
      insert-IfDone batch_id k ms w (repo.create_batch ms w.db) (h ms refl)

  sized-IfDone :
      (too_long : Bool) (batch_id : Uuid) (ns : List Notification) (w : World s)
      → IfDone s batch_id (length ns) (sized s too_long batch_id ns w)
  unfolding sized
  sized-IfDone true batch_id ns w = tt
  sized-IfDone false batch_id ns w =
      prepared-IfDone batch_id (length ns) ns w (prepare s batch_id ns)
        (prepare-IsBatch batch_id ns)

  pub create_batch-IfDone :
      (batch_id : Uuid) (ns : List Notification) (w : World s)
      → IfDone s batch_id (length ns) (create_batch s batch_id ns w)
  unfolding create_batch
  create_batch-IfDone batch_id [] w = tt
  create_batch-IfDone batch_id (n ∷ ns) w =
      sized-IfDone (ltb max_batch_size (length (n ∷ ns))) batch_id (n ∷ ns) w
