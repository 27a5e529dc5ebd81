-- ===== src/Worker/Lifecycle.antt =====
-- What Process leaves behind, on success and on every error.
use insider_one_notification.Prelude.{
  ℕ, ◌+◌, ◌≡◌, refl, sym, ap, ◌∙◌, ◌⊎◌, inl, inr, Option, none, some, String, List, [], ◌∷◌, ◌++◌,
}
use insider_one_notification.Errors.{Error}
use insider_one_notification.Result.{Result, ok, err}
use insider_one_notification.Entity.{Notification, processing, delivered, failed, Time}
use insider_one_notification.Postgres.Row.{Row}
use insider_one_notification.Postgres.Clauses.{has_id, set_status, set_attempted}
use insider_one_notification.Repository.{Changes}
use insider_one_notification.Ports.{Appends}
use insider_one_notification.Worker.{
  QueueMessage, DeliveryResponse, Processor, World, next_retry, publish_status_update, after_ack,
  acknowledge, after_delivered, after_failed, after_increment, after_send, after_wait,
  after_processing, process,
}
use insider_one_notification.Worker.Effects.{
  Becomes, Whatever, IsDeliveredFrom, IsFailedFrom, Keeps, Counts, Becomes-weaker, Becomes-same,
  Becomes-then,
}

module _ (p : Processor) (error_text : Error → String) (draw : ℕ) (now : Time)
    (msg : QueueMessage) where
  open p use {repo, consumer, delivery, limiter}

  abbrev n : Notification
  n = msg.notification

  abbrev pub table : World p → List Row
  table w = repo.rows w.db

  abbrev pub sent : World p → List delivery.Request
  sent w = delivery.requests w.provider

  abbrev pub IsAcked : World p → World p → Type 0
  IsAcked w w' =
      consumer.acked w'.queue
      ≡ consumer.acked w.queue ++ consumer.ticket n.channel n.priority msg.stream_msg_id ∷ []

  abbrev pub MaySend : World p → World p → Type 0
  MaySend w w' = (sent w' ≡ sent w) ⊎ (sent w' ≡ sent w ++ delivery.request n ∷ [])

  -- Send returned a response, and the row is delivered with its message ID; or Send returned an error,
  -- and the row is failed with that error, has counted the attempt and holds the time of the next one.
  abbrev pub Settled : World p → World p → Type 0
  Settled w w' =
      ((resp : DeliveryResponse) × ((delivery.send n w.provider).0 ≡ ok resp)
        × (sent w' ≡ sent w ++ delivery.request n ∷ [])
        × Becomes n.id (IsDeliveredFrom resp.message_id) (table w) (table w'))
      ⊎ ((e : Error) × ((delivery.send n w.provider).0 ≡ err e)
          × MaySend w w'
          × Becomes n.id (IsFailedFrom (error_text e) (next_retry p n draw now)) (table w)
              (table w'))

  -- At most one request was sent, and no row but that of the notification changed.
  abbrev pub Interrupted : World p → World p → Type 0
  Interrupted w w' =
      (consumer.acked w'.queue ≡ consumer.acked w.queue)
      × MaySend w w'
      × Becomes n.id Whatever (table w) (table w')

  abbrev pub ProcessOutcome : World p → Option Error × World p → Type 0
  ProcessOutcome w (none, w') = IsAcked w w' × Settled w w'
  ProcessOutcome w (some e, w') = Interrupted w w' ⊎ (IsAcked w w' × Settled w w')

  pub Settled-MaySend :
      (w w' : World p) → Settled w w' → MaySend w w' × Becomes n.id Whatever (table w) (table w')
  Settled-MaySend w w' (inl (resp, answer, once, row)) = (
    inr once,
    Becomes-weaker n.id (IsDeliveredFrom resp.message_id) Whatever (table w) (table w')
        (λ r r' h. h.0) row,
  )
  Settled-MaySend w w' (inr (e, answer, once, row)) = (
    once,
    Becomes-weaker n.id (IsFailedFrom (error_text e) (next_retry p n draw now)) Whatever (table w)
        (table w') (λ r r' h. h.0) row,
  )

  ack_outcome :
      (context : String) (w w₁ : World p) (result : Result (Unit {0})) (queue : consumer.Queue)
      → consumer.acked w₁.queue ≡ consumer.acked w.queue
      → Settled w w₁
      → Appends
          (consumer.ticket n.channel n.priority msg.stream_msg_id)
          (consumer.acked w₁.queue)
          result
          (consumer.acked queue)
      → ProcessOutcome w (after_ack p context w₁ (result, queue))
  unfolding after_ack
  ack_outcome context w w₁ (ok u) queue same settled (inl (done, acked)) =
      (rw (sym same) acked, settled)
  ack_outcome context w w₁ (ok u) queue same settled (inr (e, failure, maybe)) = cc
  ack_outcome context w w₁ (err e) queue same settled (inl (done, acked)) = cc
  ack_outcome context w w₁ (err e) queue same settled (inr (x, failure, inl unchanged)) =
      let (once, row) = Settled-MaySend w w₁ settled in inl (unchanged ∙ same, once, row)
  ack_outcome context w w₁ (err e) queue same settled (inr (x, failure, inr acked)) =
      inr (rw (sym same) acked, settled)

  acknowledge_outcome :
      (context : String) (w w₁ : World p)
      → consumer.acked w₁.queue ≡ consumer.acked w.queue
      → Settled w w₁
      → ProcessOutcome w (acknowledge p context msg w₁)
  unfolding acknowledge
  acknowledge_outcome context w w₁ same settled =
      let (result, queue) = consumer.ack n.channel n.priority msg.stream_msg_id w₁.queue in
      ack_outcome context w w₁ result queue same settled
        (consumer.ack_appends n.channel n.priority msg.stream_msg_id w₁.queue)

  delivered_outcome :
      (w w₁ : World p) (resp : DeliveryResponse) (result : Result (Unit {0})) (db : repo.Db)
      → (delivery.send n w.provider).0 ≡ ok resp
      → consumer.acked w₁.queue ≡ consumer.acked w.queue
      → sent w₁ ≡ sent w ++ delivery.request n ∷ []
      → Becomes n.id Keeps (table w) (table w₁)
      → Changes
          (has_id n.id)
          (set_status delivered (some resp.message_id) none)
          (table w₁)
          result
          (repo.rows db)
      → ProcessOutcome w (after_delivered p msg w₁ (result, db))
  unfolding after_delivered publish_status_update
  delivered_outcome w w₁ resp (err e) db answer same once row (inl (done, hit, changed)) = cc
  delivered_outcome w w₁ resp (err e) db answer same once row (inr (x, failure, unchanged)) = inl (
    same,
    inr once,
    rw unchanged
        (Becomes-weaker n.id Keeps Whatever (table w) (table w₁) (λ r r' kept. kept.0) row),
  )
  delivered_outcome w w₁ resp (ok u) db answer same once row (inr (x, failure, unchanged)) = cc
  delivered_outcome w w₁ resp (ok u) db answer same once row (inl (done, hit, (at, t, changed))) =
      let w₂ = publish_status_update p n.id delivered "" (record w₁ { db = db }) in
      acknowledge_outcome "acking message" w w₂ same (
        inl (
          resp,
          answer,
          once,
          Becomes-then n.id Keeps (IsDeliveredFrom resp.message_id) (table w) (table w₁)
              (repo.rows db) t (set_status delivered (some resp.message_id) none at)
              (λ r r' hit kept. (kept.0, refl, refl, kept.1)) (λ r r' kept. kept.0) row changed,
        ))

  failed_outcome :
      (w w₁ : World p) (e : Error) (result : Result (Unit {0})) (db : repo.Db)
      → (delivery.send n w.provider).0 ≡ err e
      → consumer.acked w₁.queue ≡ consumer.acked w.queue
      → MaySend w w₁
      → Becomes n.id (Counts (next_retry p n draw now)) (table w) (table w₁)
      → Changes
          (has_id n.id)
          (set_status failed none (some (error_text e)))
          (table w₁)
          result
          (repo.rows db)
      → ProcessOutcome w (after_failed p (error_text e) msg w₁ (result, db))
  unfolding after_failed publish_status_update
  failed_outcome w w₁ e (err x) db answer same once row (inl (done, hit, changed)) = cc
  failed_outcome w w₁ e (err x) db answer same once row (inr (y, failure, unchanged)) = inl (
    same,
    once,
    rw unchanged (
        Becomes-weaker n.id (Counts (next_retry p n draw now)) Whatever (table w) (table w₁)
          (λ r r' kept. kept.0) row),
  )
  failed_outcome w w₁ e (ok u) db answer same once row (inr (y, failure, unchanged)) = cc
  failed_outcome w w₁ e (ok u) db answer same once row (inl (done, hit, (at, t, changed))) =
      let next = next_retry p n draw now in
      let w₂ = publish_status_update p n.id failed (error_text e) (record w₁ { db = db }) in
      acknowledge_outcome "acking failed message" w w₂ same (
        inr (
          e,
          answer,
          once,
          Becomes-then n.id (Counts next) (IsFailedFrom (error_text e) next) (table w) (table w₁)
              (repo.rows db) t (set_status failed none (some (error_text e)) at)
              (λ r r' hit kept. (kept.0, refl, refl, kept.1, kept.2, kept.3)) (λ r r' kept. kept.0)
              row changed,
        ))

  increment_outcome :
      (w w₁ : World p) (e : Error) (result : Result (Unit {0})) (db : repo.Db)
      → (delivery.send n w.provider).0 ≡ err e
      → consumer.acked w₁.queue ≡ consumer.acked w.queue
      → MaySend w w₁
      → Becomes n.id Keeps (table w) (table w₁)
      → Changes
          (has_id n.id)
          (set_attempted (next_retry p n draw now))
          (table w₁)
          result
          (repo.rows db)
      → ProcessOutcome w (after_increment p (error_text e) msg w₁ (result, db))
  unfolding after_increment
  increment_outcome w w₁ e (err x) db answer same once row (inl (done, hit, changed)) = cc
  increment_outcome w w₁ e (err x) db answer same once row (inr (y, failure, unchanged)) = inl (
    same,
    once,
    rw unchanged
        (Becomes-weaker n.id Keeps Whatever (table w) (table w₁) (λ r r' kept. kept.0) row),
  )
  increment_outcome w w₁ e (ok u) db answer same once row (inr (y, failure, unchanged)) = cc
  increment_outcome w w₁ e (ok u) db answer same once row (inl (done, hit, (at, t, changed))) =
      let next = next_retry p n draw now in
      let w₂ = record w₁ { db = db } in
      let (result, db') = repo.update_status n.id failed none (some (error_text e)) db in
      failed_outcome w w₂ e result db' answer same once
        (Becomes-then n.id Keeps (Counts next) (table w) (table w₁) (repo.rows db) t
          (set_attempted next at) (λ r r' hit kept. (kept.0, ap (λ x. x + 1) kept.1, kept.2, refl))
          (λ r r' kept. kept.0) row changed)
        (repo.update_status_changes n.id failed none (some (error_text e)) db)

  send_outcome :
      (w w₁ : World p) (result : Result DeliveryResponse) (provider : delivery.Provider)
      → (delivery.send n w.provider).0 ≡ result
      → consumer.acked w₁.queue ≡ consumer.acked w.queue
      → sent w₁ ≡ sent w
      → Becomes n.id Keeps (table w) (table w₁)
      → ((((resp : DeliveryResponse) × (result ≡ ok resp))
            × (delivery.requests provider ≡ sent w₁ ++ delivery.request n ∷ []))
          ⊎ ((e : Error) × (result ≡ err e)
              × ((delivery.requests provider ≡ sent w₁)
                  ⊎ (delivery.requests provider ≡ sent w₁ ++ delivery.request n ∷ []))))
      → ProcessOutcome w (after_send p error_text draw now msg w₁ (result, provider))
  unfolding after_send
  send_outcome w w₁ (ok resp) provider given same none_sent row (inr (e, failure, maybe)) = cc
  send_outcome w w₁ (ok resp) provider given same none_sent row (inl (answer, once)) =
      let w₂ = record w₁ { provider = provider } in
      let (result, db) = repo.update_status n.id delivered (some resp.message_id) none w₁.db in
      delivered_outcome w w₂ resp result db given same (rw (sym none_sent) once) row
        (repo.update_status_changes n.id delivered (some resp.message_id) none w₁.db)
  send_outcome w w₁ (err e) provider given same none_sent row (inl ((resp, answer), once)) = cc
  send_outcome w w₁ (err e) provider given same none_sent row (inr (x, failure, maybe)) =
      let w₂ = record w₁ { provider = provider } in
      let (result, db) = repo.increment_attempts n.id (next_retry p n draw now) w₁.db in
      let once : MaySend w w₂ = rw (sym none_sent) maybe in
      increment_outcome w w₂ e result db given same once row
        (repo.increment_attempts_changes n.id (next_retry p n draw now) w₁.db)

  wait_outcome :
      (w w₁ : World p) (result : Result (Unit {0})) (limits : limiter.Limits)
      → w₁.provider ≡ w.provider
      → consumer.acked w₁.queue ≡ consumer.acked w.queue
      → sent w₁ ≡ sent w
      → Becomes n.id Keeps (table w) (table w₁)
      → ProcessOutcome w (after_wait p error_text draw now msg w₁ (result, limits))
  unfolding after_wait
  wait_outcome w w₁ (err e) limits kept same none_sent row = inl (
    same,
    inl none_sent,
    Becomes-weaker n.id Keeps Whatever (table w) (table w₁) (λ r r' kept. kept.0) row,
  )
  wait_outcome w w₁ (ok u) limits kept same none_sent row =
      let w₂ = record w₁ { limits = limits } in
      let (result, provider) = delivery.send n w₁.provider in
      send_outcome w w₂ result provider (ap (λ p. (delivery.send n p).0) (sym kept)) same none_sent
        row (delivery.send_requests n w₁.provider)

  processing_outcome :
      (w : World p) (result : Result (Unit {0})) (db : repo.Db)
      → Changes (has_id n.id) (set_status processing none none) (table w) result (repo.rows db)
      → ProcessOutcome w (after_processing p error_text draw now msg w (result, db))
  unfolding after_processing publish_status_update
  processing_outcome w (err e) db (inl (done, hit, changed)) = cc
  processing_outcome w (err e) db (inr (x, failure, unchanged)) = inl (
    refl,
    inl refl,
    Becomes-same n.id Whatever (λ r. (refl, refl)) (table w) (repo.rows db) unchanged,
  )
  processing_outcome w (ok u) db (inr (x, failure, unchanged)) = cc
  processing_outcome w (ok u) db (inl (done, hit, (at, t, changed))) =
      let w₁ = publish_status_update p n.id processing "" (record w { db = db }) in
      let (result, limits) = limiter.wait n.channel w.limits in
      wait_outcome w w₁ result limits refl refl refl (
        Becomes-then n.id Keeps Keeps (table w) (table w) (repo.rows db) t
          (set_status processing none none at) (λ r r' hit kept. kept) (λ r r' kept. kept.0)
          (Becomes-same n.id Keeps (λ r. ((refl, refl), refl, refl)) (table w) (table w) refl)
          changed)

  pub process_outcome : (w : World p) → ProcessOutcome w (process p error_text draw now msg w)
  unfolding process
  process_outcome w =
      let (result, db) = repo.update_status n.id processing none none w.db in
      processing_outcome w result db (repo.update_status_changes n.id processing none none w.db)
