-- ===== src/Streams/Ports.antt =====
-- The streams as the producer that the service and the scheduler use, and as the consumer of the workers.
use mathlib.Core.List.{map-append}
use insider_one_notification.Prelude.{
  ◌≡◌, refl, ap, ◌∙◌, inl, inr, String, List, [], ◌∷◌, ◌++◌, map,
}
use insider_one_notification.Result.{Result, ok, err}
use insider_one_notification.Entity.{Notification, Channel, Priority}
use insider_one_notification.Ports.{Appends, Producer}
use insider_one_notification.Worker.{Consumer}
use insider_one_notification.Streams
use insider_one_notification.Streams.{
  Client, Laws, Codec, XMessage, Added, AfterAdd, stream_key, stream_data_field, after_xadd,
  after_marshal, after_xack,
}
use insider_one_notification.Streams.Lanes.{
  notifications, notifications-append, decode-marshal, dequeue-Pulls, ack_keeps,
}

module _ (codec : Codec) (c : Client) (laws : Laws c) where
  -- All that was ever written to a stream.
  abbrev pub written : c.Server → List XMessage
  written s = map (λ (e : String × XMessage). e.1) (c.entries s)

  abbrev pub sent : c.Server → List Notification
  sent s = notifications codec (written s)

  Added-sent :
      (n : Notification) (key text : String) (s s' : c.Server)
      → codec.marshal n ≡ ok text
      → Added c key ((stream_data_field, text) ∷ []) s s'
      → sent s' ≡ sent s ++ n ∷ []
  Added-sent n key text s s' h (id, entries, unread, others, acks) =
      let m : XMessage = record { id = id; values = (stream_data_field, text) ∷ [] } in
      ap (λ es. notifications codec (map (λ (e : String × XMessage). e.1) es)) entries
      ∙ ap (notifications codec)
          (map-append (λ (e : String × XMessage). e.1) (c.entries s) ((key, m) ∷ []))
      ∙ notifications-append codec (written s) (m ∷ [])
      ∙ ap (λ ns. sent s ++ (ns ++ [])) (decode-marshal codec n id text h)

  xadd-Appends :
      (n : Notification) (key text : String) (s : c.Server) (out : Result (Unit {0}) × c.Server)
      → codec.marshal n ≡ ok text
      → AfterAdd c key ((stream_data_field, text) ∷ []) s out
      → Appends n (sent s) (after_xadd codec c out).0 (sent (after_xadd codec c out).1)
  unfolding after_xadd
  xadd-Appends n key text s (ok u, s') h added = inl (refl, Added-sent n key text s s' h added)
  xadd-Appends n key text s (err e, s') h (inl (entries, unread, acks)) = inr (
    _,
    refl,
    inl (ap (λ es. notifications codec (map (λ (x : String × XMessage). x.1) es)) entries),
  )
  xadd-Appends n key text s (err e, s') h (inr added) =
      inr (_, refl, inr (Added-sent n key text s s' h added))

  marshal-Appends :
      (n : Notification) (s : c.Server) (text : Result String)
      → codec.marshal n ≡ text
      → Appends n
          (sent s)
          (after_marshal codec c n s text).0
          (sent (after_marshal codec c n s text).1)
  unfolding after_marshal
  marshal-Appends n s (err e) h = inr (_, refl, inl refl)
  marshal-Appends n s (ok text) h =
      let key = stream_key n.channel n.priority in
      xadd-Appends n key text s _ h (laws.add_law key ((stream_data_field, text) ∷ []) s)

  pub enqueue-Appends :
      (n : Notification) (s : c.Server)
      → Appends n (sent s) (Streams.enqueue codec c n s).0 (sent (Streams.enqueue codec c n s).1)
  unfolding Streams.enqueue
  enqueue-Appends n s = marshal-Appends n s (codec.marshal n) refl

  abbrev pub stream_producer : Producer
  stream_producer = record {
    Queue = c.Server;
    sent = sent;
    enqueue = Streams.enqueue codec c;
    enqueue_appends = enqueue-Appends;
  }

  xack-Appends :
      (ticket : String × String) (s : c.Server) (out : Result (Unit {0}) × c.Server)
      → Appends ticket (c.acks s) out.0 (c.acks out.1)
      → Appends ticket (c.acks s) (after_xack codec c out).0 (c.acks (after_xack codec c out).1)
  unfolding after_xack
  xack-Appends ticket s (ok u, s') (inl (done, added)) = inl (refl, added)
  xack-Appends ticket s (ok u, s') (inr (e, failure, maybe)) = cc
  xack-Appends ticket s (err e, s') (inl (done, added)) = cc
  xack-Appends ticket s (err e, s') (inr (x, failure, maybe)) = inr (_, refl, maybe)

  pub ack-Appends :
      (ch : Channel) (pr : Priority) (id : String) (s : c.Server)
      → Appends
          (stream_key ch pr, id)
          (c.acks s)
          (Streams.ack codec c ch pr id s).0
          (c.acks (Streams.ack codec c ch pr id s).1)
  unfolding Streams.ack
  ack-Appends ch pr id s =
      xack-Appends (stream_key ch pr, id) s _ (laws.ack_law (stream_key ch pr) id s)

  -- A message is named by its stream and its ID.
  abbrev pub stream_consumer : Consumer
  stream_consumer = record {
    Queue = c.Server;
    Ticket = String × String;
    ticket = λ ch pr id. (stream_key ch pr, id);
    acked = c.acks;
    waiting = λ ch pr s. notifications codec (c.unread (stream_key ch pr) s);
    dequeue = Streams.dequeue codec c;
    ack = Streams.ack codec c;
    ack_appends = ack-Appends;
    ack_waiting = λ ch ch' pr pr' id s.
        ap (notifications codec) (ack_keeps codec c laws ch pr id (stream_key ch' pr') s);
    dequeue_acked =
        λ ch pr count s. (dequeue-Pulls codec c laws ch pr count (stream_key ch pr) s).2;
    dequeue_takes =
        λ ch pr count s. (dequeue-Pulls codec c laws ch pr count (stream_key ch pr) s).0 refl;
  }
