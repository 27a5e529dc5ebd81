-- ===== src/Scheduler/Cycle.antt =====
-- What one tick of the scheduler leaves behind.
use mathlib.Core.List.{map-map}
use insider_one_notification.Prelude.{
  Bool-cases, ◌≤◌, ◌≡◌, refl, sym, ap, ◌∙◌, inl, inr, Bool, true, false, List, [], ◌++◌, map, All,
  length, String,
}
use insider_one_notification.Errors.{Error}
use insider_one_notification.Result.{Result, ok, err, ok-injective}
use insider_one_notification.Entity.{Notification, queued, Time}
use insider_one_notification.Postgres.Row.{Row}
use insider_one_notification.Postgres.Server.{updated}
use insider_one_notification.Postgres.Clauses.{set_queued, is_scheduled_ready, is_retry_ready}
use insider_one_notification.Postgres.Transactions.Fetch.{is_one_of}
use insider_one_notification.Repository.{Fetches, IsTaken}
use insider_one_notification.Repository.Requeues.{queue_twice, MayQueue, Inside-All}
use insider_one_notification.Ports.{IsSublist}
use insider_one_notification.Scheduler.{
  Scheduler, World, scheduler_batch_size, enqueue_all, after_fetch, process_scheduled_notifications,
  process_retry_notifications,
}
use insider_one_notification.Scheduler.Enqueue.{table, sent, Enqueues, enqueue_all-Enqueues}

module _ (s : Scheduler) where
  open s use {repo, producer}

  -- A tick that returns an error changed nothing. Else at most a hundred notifications, each ready in the
  -- table, are queued in it, nothing else of them changes, and no other row does; their messages are sent in order, but for
  -- some of those whose error is in the log.
  abbrev pub TickOutcome : (Time → Row → Bool) → World s → Result (List Error) × World s → Type 0
  TickOutcome ready w (err e, w') = (table s w' ≡ table s w) × (sent s w' ≡ sent s w)
  TickOutcome ready w (ok log, w') =
      (ns : List Notification) × (now : Time) × (length ns ≤ scheduler_batch_size)
      × All (IsTaken (ready now) now (table s w)) ns
      × ((change : Row → Row) × (table s w' ≡ map change (table s w))
          × ((r : Row) → is_one_of ns r ≡ false → change r ≡ r)
          × ((r : Row) → is_one_of ns r ≡ true → (change r).status ≡ queued)
          × ((r : Row) → MayQueue r (change r)))
      × ((added : List Notification) × (sent s w' ≡ sent s w ++ added)
          × IsSublist added ns
          × (log ≡ [] → added ≡ ns))

  stays_queued : (r r' : Row) → MayQueue r r' → r.status ≡ queued → r'.status ≡ queued
  stays_queued r r' (inl same) h = ap (λ (x : Row). x.status) same ∙ h
  stays_queued r r' (inr (t, e)) h = ap (λ (x : Row). x.status) e

  fetched :
      (t now : Time) (ns : List Notification) (r : Row)
      → MayQueue r (updated t (is_one_of ns) (set_queued now) r)
  fetched t now ns r = elim (Bool-cases (is_one_of ns r)) [
    | inl hit ↦ rw hit (inr (t, refl))
    | inr miss ↦ rw miss (inl refl)
  ]

  enqueued_tick :
      (ready : Time → Row → Bool) (w w₁ w₂ : World s) (ns : List Notification) (log : List Error)
      (now t : Time)
      → length ns ≤ scheduler_batch_size
      → All (IsTaken (ready now) now (table s w)) ns
      → table s w₁ ≡ map (updated t (is_one_of ns) (set_queued now)) (table s w)
      → sent s w₁ ≡ sent s w
      → Enqueues s (is_one_of ns) ns w₁ (log, w₂)
      → TickOutcome ready w (ok log, w₂)
  enqueued_tick ready w w₁ w₂ ns log now t few taken moved same
        ((change, moved', others, this), (added, grown, sub, all)) =
      let fetch = updated t (is_one_of ns) (set_queued now) in
      (
        ns,
        now,
        few,
        taken,
        (
          λ r. change (fetch r),
          moved' ∙ ap (map change) moved ∙ map-map change fetch (table s w),
          λ r h. rw h (others r h),
          λ r h. stays_queued (fetch r) (change (fetch r)) (this (fetch r)) (rw h refl),
          λ r. queue_twice r (fetch r) (change (fetch r)) (fetched t now ns r) (this (fetch r)),
        ),
        (added, rw (sym same) grown, sub, all),
      )

  fetch_tick :
      (ready : Time → Row → Bool) (context : String) (w : World s)
      (result : Result (List Notification)) (db : repo.Db)
      → Fetches ready scheduler_batch_size (table s w) result (repo.rows db)
      → TickOutcome ready w (after_fetch s context w (result, db))
  unfolding after_fetch
  fetch_tick ready context w (err e) db (inl (ns, now, t, found, few, taken, moved)) = cc
  fetch_tick ready context w (err e) db (inr (x, failure, same)) = (same, refl)
  fetch_tick ready context w (ok ms) db (inr (x, failure, same)) = cc
  fetch_tick ready context w (ok ms) db (inl (ns, now, t, found, few, taken, moved)) =
      let same : ms ≡ ns = ok-injective found in
      let w₁ = record w { db = db } in
      let (log, w₂) = enqueue_all s ms w₁ in
      enqueued_tick ready w w₁ w₂ ms log now t (rw same few) (rw same taken) (rw same moved) refl
        (enqueue_all-Enqueues s (is_one_of ms) ms w₁ (Inside-All (is_one_of ms) ms (λ r h. h)))

  -- One tick of either ticker. If it returns an error, the table and the queue are as they were. Else
  -- there are at most a hundred notifications, each ready in the table (pending with a schedule that has
  -- arrived, or failed with attempts left and a retry time that has arrived), whose rows and no
  -- others are queued, with nothing else of a row changed but its update time; the messages sent are theirs, in their order, and all of them if nothing is in the
  -- log. A message that was not sent leaves its row queued all the same.
  pub tick_outcome :
      (w : World s)
      → TickOutcome is_scheduled_ready w (process_scheduled_notifications s w)
        × TickOutcome is_retry_ready w (process_retry_notifications s w)
  unfolding process_scheduled_notifications process_retry_notifications
  tick_outcome w =
      let (scheduled, db) = repo.fetch_scheduled_ready scheduler_batch_size w.db in
      let (retries, db') = repo.fetch_retry_ready scheduler_batch_size w.db in
      (
        fetch_tick is_scheduled_ready "fetching scheduled-ready notifications" w scheduled db
            (repo.fetch_scheduled_ready_fetches scheduler_batch_size w.db),
        fetch_tick is_retry_ready "fetching retry-ready notifications" w retries db'
            (repo.fetch_retry_ready_fetches scheduler_batch_size w.db),
      )
