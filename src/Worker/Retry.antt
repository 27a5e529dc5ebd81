-- ===== src/Worker/Retry.antt =====
-- Which failures of Process the scheduler takes up again, and when.
use insider_one_notification.Prelude.{
  ℕ, ◌+◌, ◌≡◌, refl, ◌⊎◌, inl, inr, Bool, true, Bool-cases, ◌&&◌, ltb, leb, Option, none, some,
  String, map,
}
use insider_one_notification.Errors.{Error}
use insider_one_notification.Entity.{delivered, Time}
use insider_one_notification.Postgres.Row.{Row, microseconds}
use insider_one_notification.Postgres.Clauses.{has_id, is_retry_ready}
use insider_one_notification.Worker.{
  QueueMessage, Processor, World, next_retry, calculate_next_retry, process,
}
use insider_one_notification.Worker.Effects.{IsFailedFrom}
use insider_one_notification.Worker.Lifecycle.{table, ProcessOutcome, process_outcome}

module _ (p : Processor) (error_text : Error → String) (draw : ℕ) (now : Time)
    (msg : QueueMessage) where
  abbrev retry_time : Time
  retry_time =
      calculate_next_retry (msg.notification.attempts + 1) p.retry_base_delay p.retry_max_delay draw
        now

  -- The notification has attempts left, and its time has come.
  abbrev pub must_retry : Time → Bool
  must_retry t =
      let n = msg.notification in
      ltb (n.attempts + 1) n.max_attempts && leb (microseconds retry_time) (microseconds t)

  failed_retry :
      (text : String) (r r' : Row) (t : Time)
      → IsFailedFrom text (next_retry p msg.notification draw now) r r'
      → r.attempts ≡ msg.notification.attempts
      → r.max_attempts ≡ msg.notification.max_attempts
      → is_retry_ready t r' ≡ must_retry t
  unfolding next_retry
  failed_retry text r r' t (id, status, text_eq, attempts, max_attempts, next) same same_max =
      let n = msg.notification in
      rw (status, next, attempts, max_attempts, same, same_max)
        (elim (Bool-cases (ltb (n.attempts + 1) n.max_attempts)) [
          | inl left ↦ rw left (elim (Bool-cases (leb (microseconds retry_time) (microseconds t))) [
            | inl due ↦ rw due refl
            | inr early ↦ rw early refl
          ])
          | inr used_up ↦ rw used_up refl
        ])

  outcome_retry :
      (w w' : World p) (result : Option Error)
      → ProcessOutcome p error_text draw now msg w (result, w')
      → result ≡ none
      → (change : Row → Row) × (table p error_text draw now msg w'
          ≡ map change (table p error_text draw now msg w))
        × ((r : Row)
            → has_id msg.notification.id r ≡ true
            → r.attempts ≡ msg.notification.attempts
            → r.max_attempts ≡ msg.notification.max_attempts
            → ((change r).status ≡ delivered)
              ⊎ ((t : Time) → is_retry_ready t (change r) ≡ must_retry t))
  outcome_retry w w' (some e) outcome h = cc
  outcome_retry w w' none (acked, inl (resp, answer, once, (change, moved, others, this))) h =
      (change, moved, λ r hit same same_max. inl (this r hit).1)
  outcome_retry w w' none (acked, inr (e, answer, once, (change, moved, others, this))) h = (
    change,
    moved,
    λ r hit same same_max.
        inr (λ t. failed_retry (error_text e) r (change r) t (this r hit) same same_max),
  )

  -- When Process returns nil, the row of its notification, if its counters were those of the message, is
  -- delivered; or it meets the WHERE clause of FetchRetryReady exactly at the times that are, in whole
  -- microseconds, not before the one that calculateNextRetry gave, if the notification has attempts left,
  -- and at no time, if it has none.
  pub process_retry :
      (w : World p)
      → (process p error_text draw now msg w).0 ≡ none
      → (change : Row → Row) × (table p error_text draw now msg
            (process p error_text draw now msg w).1
          ≡ map change (table p error_text draw now msg w))
        × ((r : Row)
            → has_id msg.notification.id r ≡ true
            → r.attempts ≡ msg.notification.attempts
            → r.max_attempts ≡ msg.notification.max_attempts
            → ((change r).status ≡ delivered)
              ⊎ ((t : Time) → is_retry_ready t (change r) ≡ must_retry t))
  process_retry w h =
      let (result, w') = process p error_text draw now msg w in
      outcome_retry w w' result (process_outcome p error_text draw now msg w) h
