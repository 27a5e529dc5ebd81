-- ===== src/NotificationService/Batch/Enqueues.antt =====
-- What CreateBatch leaves behind, on success and on every error.
use mathlib.Core.List.{append-nil, append_assoc}
use insider_one_notification.Prelude.{
  ℕ, ◌≡◌, refl, sym, ap, ◌∙◌, ◌⊎◌, inl, inr, Bool, true, false, Option, none, some, List, [], ◌∷◌,
  ◌++◌, All, AllPairs, select, ltb, length,
}
use insider_one_notification.Result.{Result, ok, err}
use insider_one_notification.Entity.{Notification, queued, Uuid}
use insider_one_notification.Postgres.Row.{Row}
use insider_one_notification.Postgres.Server.{clashes}
use insider_one_notification.Postgres.Clauses.{has_id, set_status}
use insider_one_notification.Postgres.Transactions.Fetch.{is_one_of}
use insider_one_notification.Repository.{AreRowsOf, Changes, CreatesAll}
use insider_one_notification.Repository.Requeues.{
  Requeues, Inside, Inside-All, Requeues-same, Requeues-then, Requeues-update,
}
use insider_one_notification.Ports.{Appends, IsSublist, none_left, keep, skip}
use insider_one_notification.NotificationService.{
  NotificationService, World, max_batch_size, broadcast_status,
}
use insider_one_notification.NotificationService.Create.{table, messages}
use insider_one_notification.NotificationService.Batch.Prepared.{IsPrepared, prepare-IsPrepared}
use insider_one_notification.NotificationService.Batch.{
  BatchOutcome, is_immediate, prepare, broadcast_all, after_update, after_enqueue, dispatch_one,
  dispatch_all, after_insert, after_prepare, sized, create_batch,
}

module _ (s : NotificationService) where
  open s use {repo, producer}

  -- One round of the loop.
  abbrev Dispatched : (Row → Bool) → Notification → World s → World s → Type 0
  Dispatched test n w w' =
      (w'.queue ≡ (producer.enqueue n w.queue).1)
      × Requeues test (table s w) (table s w')
      × ((messages s w' ≡ messages s w) ⊎ (messages s w' ≡ messages s w ++ n ∷ []))

  update-Dispatched :
      (test : Row → Bool) (n m : Notification) (w w₁ : World s) (result : Result (Unit {0}))
      (db : repo.Db)
      → Inside test n
      → w₁.queue ≡ (producer.enqueue n w.queue).1
      → table s w₁ ≡ table s w
      → messages s w₁ ≡ messages s w ++ n ∷ []
      → Changes (has_id n.id) (set_status queued none none) (table s w₁) result (repo.rows db)
      → Dispatched test n w (after_update s m w₁ (result, db)).1
  unfolding after_update broadcast_status
  update-Dispatched test n m w w₁ (err e) db inside tried same grown (inl (done, hit, changed)) = cc
  update-Dispatched test n m w w₁ (err e) db inside tried same grown (inr (x, failure, kept)) =
      (tried, Requeues-same test (table s w) (repo.rows db) (kept ∙ same), inr grown)
  update-Dispatched test n m w w₁ (ok u) db inside tried same grown (inr (x, failure, kept)) = cc
  update-Dispatched test n m w w₁ (ok u) db inside tried same grown
        (inl (done, hit, (now, t, changed))) =
      (
        tried,
        Requeues-update n.id test (table s w) (repo.rows db) now t inside (rw (sym same) changed),
        inr grown,
      )

  enqueue-Dispatched :
      (test : Row → Bool) (n : Notification) (w : World s) (result : Result (Unit {0}))
      (queue : producer.Queue)
      → Inside test n
      → queue ≡ (producer.enqueue n w.queue).1
      → Appends n (messages s w) result (producer.sent queue)
      → Dispatched test n w (after_enqueue s n w (result, queue)).1
  unfolding after_enqueue
  enqueue-Dispatched test n w (err e) queue inside tried (inl (done, appended)) = cc
  enqueue-Dispatched test n w (err e) queue inside tried (inr (x, failure, maybe)) =
      (tried, Requeues-same test (table s w) (table s w) refl, maybe)
  enqueue-Dispatched test n w (ok u) queue inside tried (inr (x, failure, maybe)) = cc
  enqueue-Dispatched test n w (ok u) queue inside tried (inl (done, appended)) =
      let w₁ = record w { queue = queue } in
      let (result, db) = repo.update_status n.id queued none none w.db in
      update-Dispatched test n (record n { status = queued }) w w₁ result db inside tried refl
        appended (repo.update_status_changes n.id queued none none w.db)

  -- The queue after Enqueue was called once for each, in order.
  abbrev pub enqueued : List Notification → producer.Queue → producer.Queue
  enqueued [] queue = queue
  enqueued (n ∷ ns) queue = enqueued ns (producer.enqueue n queue).1

  -- The rounds, one after the other.
  abbrev Enqueues : (Row → Bool) → List Notification → World s → World s → Type 0
  Enqueues test ns w w' =
      (w'.queue ≡ enqueued (select is_immediate ns) w.queue)
      × Requeues test (table s w) (table s w')
      × ((added : List Notification) × (messages s w' ≡ messages s w ++ added)
          × IsSublist added (select is_immediate ns))

  Enqueues-cons :
      (test : Row → Bool) (n : Notification) (ns : List Notification) (w w₁ w₂ : World s)
      → is_immediate n ≡ true
      → Dispatched test n w w₁
      → Enqueues test ns w₁ w₂
      → Enqueues test (n ∷ ns) w w₂
  Enqueues-cons test n ns w w₁ w₂ now (tried, moved, inl same)
        (tried', moved', (added, grown, sub)) =
      (
        tried' ∙ ap (enqueued (select is_immediate ns)) tried ∙ rw now refl,
        Requeues-then test (table s w) (table s w₁) (table s w₂) moved moved',
        (added, rw (sym same) grown, rw now (skip sub)),
      )
  Enqueues-cons test n ns w w₁ w₂ now (tried, moved, inr once)
        (tried', moved', (added, grown, sub)) =
      (
        tried' ∙ ap (enqueued (select is_immediate ns)) tried ∙ rw now refl,
        Requeues-then test (table s w) (table s w₁) (table s w₂) moved moved',
        (
          n ∷ added,
          grown ∙ ap (λ q. q ++ added) once ∙ append_assoc (messages s w) (n ∷ []) added,
          rw now (keep sub),
        ),
      )

  dispatch-Enqueues :
      (test : Row → Bool) (n : Notification) (ns : List Notification) (w : World s)
      (scheduled_at : Option ℕ)
      → n.scheduled_at ≡ scheduled_at
      → All (Inside test) (select is_immediate (n ∷ ns))
      → ((w₁ : World s)
          → All (Inside test) (select is_immediate ns)
          → Enqueues test ns w₁ (dispatch_all s ns w₁).1)
      → Enqueues test (n ∷ ns) w (dispatch_all s ns (dispatch_one s scheduled_at n w).1).1
  unfolding dispatch_one
  dispatch-Enqueues test n ns w (some at) e inside rest =
      let later : is_immediate n ≡ false = rw e refl in rw later (rest w (rw later at inside))
  dispatch-Enqueues test n ns w none e inside rest =
      let now : is_immediate n ≡ true = rw e refl in
      let all : All (Inside test) (n ∷ select is_immediate ns) = rw now at inside in
      let (result, queue) = producer.enqueue n w.queue in
      let w₁ = (after_enqueue s n w (result, queue)).1 in
      Enqueues-cons test n ns w w₁ (dispatch_all s ns w₁).1 now
        (enqueue-Dispatched test n w result queue all.0 refl (producer.enqueue_appends n w.queue))
        (rest w₁ all.1)

  dispatch_all-Enqueues :
      (test : Row → Bool) (ns : List Notification) (w : World s)
      → All (Inside test) (select is_immediate ns)
      → Enqueues test ns w (dispatch_all s ns w).1
  unfolding dispatch_all
  dispatch_all-Enqueues test [] w inside = (
    refl,
    Requeues-same test (table s w) (table s w) refl,
    ([], sym (append-nil (messages s w)), none_left),
  )
  dispatch_all-Enqueues test (n ∷ ns) w inside =
      dispatch-Enqueues test n ns w n.scheduled_at refl inside
        (λ w₁ rest. dispatch_all-Enqueues test ns w₁ rest)

  broadcast_all_keeps :
      (ns : List Notification) (w : World s)
      → (table s (broadcast_all s ns w) ≡ table s w)
        × (messages s (broadcast_all s ns w) ≡ messages s w)
        × ((broadcast_all s ns w).queue ≡ w.queue)
  unfolding broadcast_all broadcast_status
  broadcast_all_keeps [] w = (refl, refl, refl)
  broadcast_all_keeps (n ∷ ns) w = broadcast_all_keeps ns (broadcast_status s n.id n.status w)

  -- With no error, the notifications, prepared, are rows of the table, those without a schedule may be
  -- queued by now, Enqueue was called for each of these, and some of their messages were sent.
  abbrev pub CreateBatchOutcome : Uuid → List Notification → World s → BatchOutcome s → Type 0
  CreateBatchOutcome batch_id ns w (some e, ms, w') =
      (table s w' ≡ table s w) × (messages s w' ≡ messages s w)
  CreateBatchOutcome batch_id ns w (none, ms, w') =
      (valid : List Notification) × (rs : List Row) × AllPairs (IsPrepared s batch_id) ns valid
      × AreRowsOf valid rs
      × (clashes rs (table s w) ≡ false)
      × Requeues (is_one_of (select is_immediate valid)) (table s w ++ rs) (table s w')
      × (w'.queue ≡ enqueued (select is_immediate valid) w.queue)
      × ((added : List Notification) × (messages s w' ≡ messages s w ++ added)
          × IsSublist added (select is_immediate valid))

  insert_outcome :
      (batch_id : Uuid) (ns valid : List Notification) (w : World s) (result : Result (Unit {0}))
      (db : repo.Db)
      → AllPairs (IsPrepared s batch_id) ns valid
      → CreatesAll valid (table s w) result (repo.rows db)
      → CreateBatchOutcome batch_id ns w (after_insert s valid w (result, db))
  unfolding after_insert
  insert_outcome batch_id ns valid w (err e) db made (inl (done, rest)) = cc
  insert_outcome batch_id ns valid w (err e) db made (inr (x, failure, same)) = (same, refl)
  insert_outcome batch_id ns valid w (ok u) db made (inr (x, failure, same)) = cc
  insert_outcome batch_id ns valid w (ok u) db made (inl (done, (rs, rows, stored, fresh))) =
      let now = select is_immediate valid in
      let w₁ = broadcast_all s valid (record w { db = db }) in
      let (kept, same, unqueued) = broadcast_all_keeps valid (record w { db = db }) in
      let (tried, moved, (added, grown, sub)) =
        dispatch_all-Enqueues (is_one_of now) valid w₁
          (Inside-All (is_one_of now) now (λ r h. h)) in
      (
        valid,
        rs,
        made,
        rows,
        fresh,
        Requeues-then (is_one_of now) (table s w ++ rs) (table s w₁)
            (table s (dispatch_all s valid w₁).1)
            (Requeues-same (is_one_of now) (table s w ++ rs) (table s w₁) (kept ∙ stored)) moved,
        tried ∙ ap (enqueued now) unqueued,
        (added, grown ∙ ap (λ q. q ++ added) same, sub),
      )

  prepare_outcome :
      (batch_id : Uuid) (ns : List Notification) (w : World s) (made : Result (List Notification))
      → prepare s batch_id ns ≡ made
      → CreateBatchOutcome batch_id ns w (after_prepare s ns w made)
  unfolding after_prepare
  prepare_outcome batch_id ns w (err e) made = (refl, refl)
  prepare_outcome batch_id ns w (ok valid) made =
      let (result, db) = repo.create_batch valid w.db in
      insert_outcome batch_id ns valid w result db (prepare-IsPrepared s batch_id ns valid made)
        (repo.create_batch_creates valid w.db)

  sized_outcome :
      (batch_id : Uuid) (ns : List Notification) (w : World s) (too_long : Bool)
      → CreateBatchOutcome batch_id ns w (sized s too_long batch_id ns w)
  unfolding sized
  sized_outcome batch_id ns w true = (refl, refl)
  sized_outcome batch_id ns w false = prepare_outcome batch_id ns w (prepare s batch_id ns) refl

  -- CreateBatch in full. If it returns an error, no row was added and no message was sent. If it
  -- returns nil, every notification was well-formed, with its subject and content rendered if it has a
  -- template, and is a row of the table, pending and with the batch ID, and an ID and a key of its own; of
  -- all the rows only those with the ID of an unscheduled one of them may be queued by now; Enqueue was
  -- called once for each unscheduled one, in their order, and for no other, and the messages sent are of
  -- these, each at most once and in their order.
  pub create_batch_outcome :
      (batch_id : Uuid) (ns : List Notification) (w : World s)
      → CreateBatchOutcome batch_id ns w (create_batch s batch_id ns w)
  unfolding create_batch
  create_batch_outcome batch_id [] w = (refl, refl)
  create_batch_outcome batch_id (n ∷ ns) w =
      sized_outcome batch_id (n ∷ ns) w (ltb max_batch_size (length (n ∷ ns)))
