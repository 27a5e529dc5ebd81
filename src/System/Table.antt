-- ===== src/System/Table.antt =====
-- The table in every run of the system: no row is lost or changes its identity, and no two rows share
-- an ID or an idempotency key.
use mathlib.Core.List.{append_assoc, append-nil}
use insider_one_notification.Prelude.{
  ℕ, ◌≡◌, refl, sym, ap, ◌∙◌, inl, inr, Bool, Bool-cases, true≢false, Option, none, some, List, [],
  ◌∷◌, ◌++◌, map,
}
use insider_one_notification.Errors.{Error}
use insider_one_notification.Result.{Result, ok, err}
use insider_one_notification.Entity.{Notification, Uuid, Time, queued}
use insider_one_notification.Postgres.Row.{Row}
use insider_one_notification.Postgres.Server.{updated}
use insider_one_notification.Postgres.Updates.{is_cancellable-IsCancellable}
use insider_one_notification.Postgres.Clauses.{
  has_id, set_status, is_cancellable, is_scheduled_ready, is_retry_ready,
}
use insider_one_notification.Repository.Requeues.{MayQueue}
use insider_one_notification.Repository.Identity.{
  KeepsIdentity, identities, IsUnique, Grows, Grows-identities, identities-append, Grows-IsUnique,
  Grows-then, Grows-added, Grows-same,
}
use insider_one_notification.NotificationService.Cancel.{CancelOutcome, cancel_outcome}
use insider_one_notification.NotificationService
use insider_one_notification.NotificationService.Create.{CreateOutcome, create_outcome}
use insider_one_notification.NotificationService.Batch.{BatchOutcome}
use insider_one_notification.NotificationService.Batch.Enqueues.{
  CreateBatchOutcome, create_batch_outcome,
}
use insider_one_notification.Worker
use insider_one_notification.Worker.{QueueMessage}
use insider_one_notification.Worker.Effects.{Becomes, Whatever}
use insider_one_notification.Worker.Lifecycle.{ProcessOutcome, Settled-MaySend, process_outcome}
use insider_one_notification.Scheduler
use insider_one_notification.Scheduler.Cycle.{TickOutcome, tick_outcome}
use insider_one_notification.System.{
  System, Action, create, create_batch, cancel, process_message, scheduled_tick, retry_tick, State,
  notification_service, processor, scheduler, service_view, worker_view, scheduler_view, act, run,
}

updated_keeps :
    (t : Time) (matches : Row → Bool) (assign : Row → Row)
    → ((r : Row) → KeepsIdentity r (assign r))
    → (r : Row) → KeepsIdentity r (updated t matches assign r)
updated_keeps t matches assign keeps r = elim (Bool-cases (matches r)) [
  | inl hit ↦ rw hit (keeps r)
  | inr miss ↦ rw miss (refl, refl)
]

MayQueue-KeepsIdentity : (r r' : Row) → MayQueue r r' → KeepsIdentity r r'
MayQueue-KeepsIdentity r r' (inl e) =
    (ap (λ (x : Row). x.id) e, ap (λ (x : Row). x.idempotency_key) e)
MayQueue-KeepsIdentity r r' (inr (t, e)) =
    (ap (λ (x : Row). x.id) e, ap (λ (x : Row). x.idempotency_key) e)

Grows-map :
    (old new : List Row) (change : Row → Row)
    → new ≡ map change old
    → ((r : Row) → KeepsIdentity r (change r))
    → Grows old new
Grows-map old new change e keeps = Grows-then old old new change (Grows-same old old refl) e keeps

Becomes-Grows : (id : Uuid) (old new : List Row) → Becomes id Whatever old new → Grows old new
Becomes-Grows id old new (change, moved, others, this) = Grows-map old new change moved (λ r.
    elim (Bool-cases (has_id id r)) [
      | inl hit ↦ this r hit
      | inr miss ↦ rw (others r miss) (refl, refl)
    ])

module _ (sys : System) where
  abbrev service : NotificationService.NotificationService
  service = notification_service sys

  abbrev pub table : State sys → List Row
  table st = sys.repo.rows st.db

  create-Grows :
      (w : NotificationService.World service) (out : NotificationService.Outcome service)
      → CreateOutcome service w out
      → Grows (sys.repo.rows w.db) (sys.repo.rows out.2.db)
  create-Grows w (some e, n, w') (inl (same, unsent)) = Grows-same _ _ same
  create-Grows w (some e, n, w') (inr (r, row, stored, fresh, waiting, unset, never)) =
      Grows-added _ _ (r ∷ []) stored (rw fresh refl)
  create-Grows w (none, n, w') (r, row, fresh, inl (at, status, stored, unsent)) =
      Grows-added _ _ (r ∷ []) stored (rw fresh refl)
  create-Grows w (none, n, w') (r, row, fresh, inr (at, status, sent, (now, t, changed))) =
      Grows-then _ _ _ (updated t (has_id n.id) (set_status queued none none now))
        (Grows-added _ _ (r ∷ []) refl (rw fresh refl)) changed
        (updated_keeps t (has_id n.id) (set_status queued none none now) (λ x. (refl, refl)))

  batch-Grows :
      (id : Uuid) (ns : List Notification) (w : NotificationService.World service)
      (out : BatchOutcome service)
      → CreateBatchOutcome service id ns w out
      → Grows (sys.repo.rows w.db) (sys.repo.rows out.2.db)
  batch-Grows id ns w (some e, ms, w') (same, unsent) = Grows-same _ _ same
  batch-Grows id ns w (none, ms, w')
        (valid, rs, made, rows, fresh, (change, moved, others, this), tried, sent) =
      Grows-then _ _ _ change (Grows-added _ _ rs refl fresh) moved
        (λ r. MayQueue-KeepsIdentity r (change r) (this r))

  tick-Grows :
      (ready : Time → Row → Bool) (w : Scheduler.World (scheduler sys))
      (out : Result (List Error) × Scheduler.World (scheduler sys))
      → TickOutcome (scheduler sys) ready w out
      → Grows (sys.repo.rows w.db) (sys.repo.rows out.1.db)
  tick-Grows ready w (err e, w') (same, unsent) = Grows-same _ _ same
  tick-Grows ready w (ok log, w') (ns, now, few, taken, (change, moved, others, this, may), sent) =
      Grows-map _ _ change moved (λ r. MayQueue-KeepsIdentity r (change r) (may r))

  cancel-Grows :
      (id : Uuid) (w : NotificationService.World service)
      (out : Result (Unit {0}) × NotificationService.World service)
      → CancelOutcome service id w out
      → Grows (sys.repo.rows w.db) (sys.repo.rows out.1.db)
  cancel-Grows id w (err e, w') (same, unsent, unpublished) = Grows-same _ _ same
  cancel-Grows id w (ok u, w') (hit, (change, changed, written, kept), unsent, published) =
      Grows-map _ _ change changed (λ r. elim (Bool-cases (is_cancellable id r)) [
        | inl hits ↦
            let same = written r ((is_cancellable-IsCancellable id r).0 hits) in
            (ap (λ (x : Row). x.id) same, ap (λ (x : Row). x.idempotency_key) same)
        | inr misses ↦
            let same =
              kept r (λ h. true≢false (sym ((is_cancellable-IsCancellable id r).1 h) ∙ misses)) in
            (ap (λ (x : Row). x.id) same, ap (λ (x : Row). x.idempotency_key) same)
      ])

  process-Grows :
      (draw : ℕ) (now : Time) (msg : QueueMessage) (w : Worker.World (processor sys))
      (out : Option Error × Worker.World (processor sys))
      → ProcessOutcome (processor sys) sys.error_text draw now msg w out
      → Grows (sys.repo.rows w.db) (sys.repo.rows out.1.db)
  process-Grows draw now msg w (none, w') (acked, settled) =
      let (once, row) = Settled-MaySend (processor sys) sys.error_text draw now msg w w' settled in
      Becomes-Grows msg.notification.id _ _ row
  process-Grows draw now msg w (some e, w') (inl (unacked, once, row)) =
      Becomes-Grows msg.notification.id _ _ row
  process-Grows draw now msg w (some e, w') (inr (acked, settled)) =
      let (once, row) = Settled-MaySend (processor sys) sys.error_text draw now msg w w' settled in
      Becomes-Grows msg.notification.id _ _ row

  act-Grows : (a : Action) (st : State sys) → Grows (table st) (table (act sys a st))
  unfolding act
  act-Grows (create n) st =
      create-Grows (service_view sys st) _ (create_outcome service n (service_view sys st))
  act-Grows (create_batch id ns) st =
      batch-Grows id ns (service_view sys st) _
        (create_batch_outcome service id ns (service_view sys st))
  act-Grows (cancel id) st =
      cancel-Grows id (service_view sys st) _ (cancel_outcome service id (service_view sys st))
  act-Grows (process_message draw now msg) st =
      process-Grows draw now msg (worker_view sys st) _
        (process_outcome (processor sys) sys.error_text draw now msg (worker_view sys st))
  act-Grows scheduled_tick st =
      tick-Grows is_scheduled_ready (scheduler_view sys st) _
        (tick_outcome (scheduler sys) (scheduler_view sys st)).0
  act-Grows retry_tick st =
      tick-Grows is_retry_ready (scheduler_view sys st) _
        (tick_outcome (scheduler sys) (scheduler_view sys st)).1

  -- In every run of requests, workers and tickers, whatever fails on the way, the rows stand where they
  -- stood, with their IDs and idempotency keys, and new rows come behind them; and if no two rows shared
  -- an ID or a key at the start, then no two do at the end.
  pub run_keeps :
      (rest : List Action) (st : State sys)
      → ((added : List Row) × (identities (table (run sys rest st))
            ≡ identities (table st) ++ identities added))
        × (IsUnique (table st) → IsUnique (table (run sys rest st)))
  unfolding run
  run_keeps [] st = (([], sym (append-nil (identities (table st)))), λ h. h)
  run_keeps (a ∷ rest) st =
      let step = act-Grows a st in
      let (first, grown) = Grows-identities _ _ step in
      let ((more, grown'), unique) = run_keeps rest (act sys a st) in
      (
        (
          first ++ more,
          grown'
              ∙ ap (λ ks. ks ++ identities more) grown
              ∙ append_assoc (identities (table st)) (identities first) (identities more)
              ∙ ap (λ ks. identities (table st) ++ ks) (sym (identities-append first more)),
        ),
        λ h. unique (Grows-IsUnique _ _ step h),
      )
