-- ===== src/Worker/Waiting.antt =====
-- Process takes nothing from the streams.
use insider_one_notification.Prelude.{ℕ, ◌≡◌, refl, none, some, String, List}
use insider_one_notification.Errors.{Error}
use insider_one_notification.Result.{Result, ok, err}
use insider_one_notification.Entity.{
  Notification, Channel, Priority, Time, processing, delivered, failed,
}
use insider_one_notification.Worker.{
  Processor, World, QueueMessage, DeliveryResponse, process, publish_status_update, after_ack,
  acknowledge, after_delivered, after_failed, after_increment, after_send, after_wait,
  after_processing, next_retry,
}

module _ (p : Processor) (error_text : Error → String) (draw : ℕ) (now : Time) (msg : QueueMessage)
    (ch : Channel) (pri : Priority) where
  open p use {repo, consumer, delivery, limiter}

  abbrev pub waiting : World p → List Notification
  waiting w = consumer.waiting ch pri w.queue

  abbrev n : Notification
  n = msg.notification

  after_ack_waiting :
      (context : String) (w : World p) (out : Result (Unit {0}) × consumer.Queue)
      → consumer.waiting ch pri out.1 ≡ waiting w
      → waiting (after_ack p context w out).1 ≡ waiting w
  unfolding after_ack
  after_ack_waiting context w (ok u, queue) same = same
  after_ack_waiting context w (err e, queue) same = same

  acknowledge_waiting :
      (context : String) (w : World p) → waiting (acknowledge p context msg w).1 ≡ waiting w
  unfolding acknowledge
  acknowledge_waiting context w =
      after_ack_waiting context w _
        (consumer.ack_waiting n.channel ch n.priority pri msg.stream_msg_id w.queue)

  delivered_waiting :
      (w : World p) (out : Result (Unit {0}) × repo.Db)
      → waiting (after_delivered p msg w out).1 ≡ waiting w
  unfolding after_delivered publish_status_update
  delivered_waiting w (err e, db) = refl
  delivered_waiting w (ok u, db) =
      acknowledge_waiting "acking message"
        (publish_status_update p n.id delivered "" (record w { db = db }))

  failed_waiting :
      (text : String) (w : World p) (out : Result (Unit {0}) × repo.Db)
      → waiting (after_failed p text msg w out).1 ≡ waiting w
  unfolding after_failed publish_status_update
  failed_waiting text w (err e, db) = refl
  failed_waiting text w (ok u, db) =
      acknowledge_waiting "acking failed message"
        (publish_status_update p n.id failed text (record w { db = db }))

  increment_waiting :
      (text : String) (w : World p) (out : Result (Unit {0}) × repo.Db)
      → waiting (after_increment p text msg w out).1 ≡ waiting w
  unfolding after_increment
  increment_waiting text w (err e, db) = refl
  increment_waiting text w (ok u, db) =
      failed_waiting text (record w { db = db })
        (repo.update_status n.id failed none (some text) db)

  send_waiting :
      (w : World p) (out : Result DeliveryResponse × delivery.Provider)
      → waiting (after_send p error_text draw now msg w out).1 ≡ waiting w
  unfolding after_send
  send_waiting w (ok resp, provider) =
      delivered_waiting (record w { provider = provider })
        (repo.update_status n.id delivered (some resp.message_id) none w.db)
  send_waiting w (err e, provider) =
      increment_waiting (error_text e) (record w { provider = provider })
        (repo.increment_attempts n.id (next_retry p n draw now) w.db)

  wait_waiting :
      (w : World p) (out : Result (Unit {0}) × limiter.Limits)
      → waiting (after_wait p error_text draw now msg w out).1 ≡ waiting w
  unfolding after_wait
  wait_waiting w (err e, limits) = refl
  wait_waiting w (ok u, limits) =
      send_waiting (record w { limits = limits }) (delivery.send n w.provider)

  processing_waiting :
      (w : World p) (out : Result (Unit {0}) × repo.Db)
      → waiting (after_processing p error_text draw now msg w out).1 ≡ waiting w
  unfolding after_processing publish_status_update
  processing_waiting w (err e, db) = refl
  processing_waiting w (ok u, db) =
      wait_waiting (publish_status_update p n.id processing "" (record w { db = db }))
        (limiter.wait n.channel w.limits)

  pub process_waiting : (w : World p) → waiting (process p error_text draw now msg w).1 ≡ waiting w
  unfolding process
  process_waiting w = processing_waiting w (repo.update_status n.id processing none none w.db)
