-- ===== src/Scheduler/Tickers.antt =====
-- runScheduledTicker and runRetryTicker of internal/scheduler/scheduler.go. What a select receives, and
-- whether the context is done when a tick has failed, is a value of `Wakeup`; a ticker runs through a list
-- of them. Start launches the two, and Stop waits for them.
use mathlib.Core.List.{append_assoc, append-nil, map-id, map-map}
use insider_one_notification.Prelude.{
  ◌≡◌, refl, sym, ap, ◌∙◌, inl, Bool, true, false, List, [], ◌∷◌, ◌++◌, map,
}
use insider_one_notification.Errors.{Error}
use insider_one_notification.Result.{Result, ok, err}
use insider_one_notification.Entity.{Notification, Time}
use insider_one_notification.Postgres.Row.{Row}
use insider_one_notification.Postgres.Clauses.{is_scheduled_ready, is_retry_ready}
use insider_one_notification.Repository.Requeues.{MayQueue, queue_twice}
use insider_one_notification.Scheduler.{
  Scheduler, World, process_scheduled_notifications, process_retry_notifications,
}
use insider_one_notification.Scheduler.Enqueue.{table, sent}
use insider_one_notification.Scheduler.Cycle.{TickOutcome, tick_outcome}

pub data Wakeup : Type 0 where
  context_done : Wakeup
  ticked : Bool → Wakeup

module _ (s : Scheduler) where
  after_tick : Bool → Result (List Error) × World s → (World s → World s) → World s
  after_tick is_done (ok log, w) next = next w
  after_tick true (err e, w) next = w
  after_tick false (err e, w) next = next w

  unfoldable pub run_scheduled_ticker : List Wakeup → World s → World s
  unfolding after_tick
  run_scheduled_ticker [] w = w
  run_scheduled_ticker (context_done ∷ later) w = w
  run_scheduled_ticker (ticked is_done ∷ later) w =
      after_tick is_done (process_scheduled_notifications s w) (λ w₁. run_scheduled_ticker later w₁)

  unfoldable pub run_retry_ticker : List Wakeup → World s → World s
  unfolding after_tick
  run_retry_ticker [] w = w
  run_retry_ticker (context_done ∷ later) w = w
  run_retry_ticker (ticked is_done ∷ later) w =
      after_tick is_done (process_retry_notifications s w) (λ w₁. run_retry_ticker later w₁)

  -- No row changes but to be queued, and messages are only added.
  abbrev pub OnlyQueues : World s → World s → Type 0
  OnlyQueues w w' =
      ((change : Row → Row) × (table s w' ≡ map change (table s w))
        × ((r : Row) → MayQueue r (change r)))
      × ((added : List Notification) × (sent s w' ≡ sent s w ++ added))

  OnlyQueues-none :
      (w w' : World s) → table s w' ≡ table s w → sent s w' ≡ sent s w → OnlyQueues w w'
  OnlyQueues-none w w' same unsent = (
    (λ r. r, same ∙ sym (map-id (table s w)), λ r. inl refl),
    ([], unsent ∙ sym (append-nil (sent s w))),
  )

  OnlyQueues-then : (w w₁ w' : World s) → OnlyQueues w w₁ → OnlyQueues w₁ w' → OnlyQueues w w'
  OnlyQueues-then w w₁ w' ((f, moved, may), (a, grown)) ((g, moved', may'), (b, grown')) = (
    (
      λ r. g (f r),
      moved' ∙ ap (map g) moved ∙ map-map g f (table s w),
      λ r. queue_twice r (f r) (g (f r)) (may r) (may' (f r)),
    ),
    (a ++ b, grown' ∙ ap (λ ns. ns ++ b) grown ∙ append_assoc (sent s w) a b),
  )

  tick-OnlyQueues :
      (ready : Time → Row → Bool) (w : World s) (out : Result (List Error) × World s)
      → TickOutcome s ready w out
      → OnlyQueues w out.1
  tick-OnlyQueues ready w (err e, w') (same, unsent) = OnlyQueues-none w w' same unsent
  tick-OnlyQueues ready w (ok log, w')
        (ns, now, few, taken, (change, moved, others, this, may), (added, grown, sub, all)) =
      ((change, moved, may), (added, grown))

  after-OnlyQueues :
      (w : World s) (is_done : Bool) (out : Result (List Error) × World s)
      (next : World s → World s)
      → OnlyQueues w out.1
      → ((w₁ : World s) → OnlyQueues w₁ (next w₁))
      → OnlyQueues w (after_tick is_done out next)
  unfolding after_tick
  after-OnlyQueues w is_done (ok log, w₁) next first rest =
      OnlyQueues-then w w₁ (next w₁) first (rest w₁)
  after-OnlyQueues w true (err e, w₁) next first rest = first
  after-OnlyQueues w false (err e, w₁) next first rest =
      OnlyQueues-then w w₁ (next w₁) first (rest w₁)

  -- However often the ticker of the scheduled notifications wakes up, whatever fails in its ticks, and
  -- whenever the context is done: no row is lost, none changes but to be queued,
  -- and no message is taken back.
  pub run_scheduled_ticker-OnlyQueues :
      (ws : List Wakeup) (w : World s) → OnlyQueues w (run_scheduled_ticker ws w)
  unfolding run_scheduled_ticker
  run_scheduled_ticker-OnlyQueues [] w = OnlyQueues-none w w refl refl
  run_scheduled_ticker-OnlyQueues (context_done ∷ later) w = OnlyQueues-none w w refl refl
  run_scheduled_ticker-OnlyQueues (ticked is_done ∷ later) w =
      after-OnlyQueues w is_done (process_scheduled_notifications s w)
        (λ w₁. run_scheduled_ticker later w₁)
        (tick-OnlyQueues is_scheduled_ready w _ (tick_outcome s w).0)
        (run_scheduled_ticker-OnlyQueues later)

  pub run_retry_ticker-OnlyQueues :
      (ws : List Wakeup) (w : World s) → OnlyQueues w (run_retry_ticker ws w)
  unfolding run_retry_ticker
  run_retry_ticker-OnlyQueues [] w = OnlyQueues-none w w refl refl
  run_retry_ticker-OnlyQueues (context_done ∷ later) w = OnlyQueues-none w w refl refl
  run_retry_ticker-OnlyQueues (ticked is_done ∷ later) w =
      after-OnlyQueues w is_done (process_retry_notifications s w) (λ w₁. run_retry_ticker later w₁)
        (tick-OnlyQueues is_retry_ready w _ (tick_outcome s w).1)
        (run_retry_ticker-OnlyQueues later)
