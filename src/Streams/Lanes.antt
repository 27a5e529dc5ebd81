-- ===== src/Streams/Lanes.antt =====
-- The notifications that wait in a stream, and what the methods do to them.
use mathlib.Core.List.{append_assoc, append-nil}
use insider_one_notification.Prelude.{
  ℕ, ◌≡◌, ◌≢◌, refl, sym, ap, ◌∙◌, inl, inr, Option, none, some, String, List, [], ◌∷◌, ◌++◌, map,
}
use insider_one_notification.Result.{Result, ok, err}
use insider_one_notification.Entity.{Notification, Channel, Priority}
use insider_one_notification.Ports.{Appends}
use insider_one_notification.Worker.{QueueMessage, Takes}
use insider_one_notification.Streams.{
  Client, Laws, Codec, XMessage, ReadReply, redis_nil, read_failed, read_streams, Added, Given,
  AfterAdd, AfterRead, stream_key, stream_data_field, lookup, decode, decode_value, to_message,
  gather, collect, append_all, collect_streams, after_xadd, after_marshal, enqueue, after_read,
  dequeue, after_xack, ack,
}

abbrev pub held : List QueueMessage → List Notification
held ms = map (λ (m : QueueMessage). m.notification) ms

module _ (codec : Codec) where
  -- What a message holds: nothing, if the field is missing or the JSON is invalid.
  abbrev content : Result (Option QueueMessage) → List Notification
  content (err e) = []
  content (ok none) = []
  content (ok (some m)) = m.notification ∷ []

  abbrev pub notifications : List XMessage → List Notification
  notifications [] = []
  notifications (m ∷ ms) = content (decode codec m) ++ notifications ms

  pub notifications-append :
      (xs ys : List XMessage) → notifications (xs ++ ys) ≡ notifications xs ++ notifications ys
  notifications-append [] ys = refl
  notifications-append (x ∷ xs) ys =
      ap (λ ns. content (decode codec x) ++ ns) (notifications-append xs ys)
      ∙ sym (append_assoc (content (decode codec x)) (notifications xs) (notifications ys))

  gather-held :
      (first : Result (Option QueueMessage)) (rest : Result (List QueueMessage))
      (ns : List Notification) (qs : List QueueMessage)
      → ((ms : List QueueMessage) → rest ≡ ok ms → ns ≡ held ms)
      → gather codec first rest ≡ ok qs
      → content first ++ ns ≡ held qs
  unfolding gather
  gather-held (err e) rest ns qs same h = cc
  gather-held (ok none) rest ns qs same h = same qs h
  gather-held (ok (some m)) (err e) ns qs same h = cc
  gather-held (ok (some m)) (ok ms) ns qs same h =
      let e : m ∷ ms ≡ qs = cc in rw (sym e) (ap (λ xs. m.notification ∷ xs) (same ms refl))

  -- If every message could be read, the list that is returned is what they hold.
  pub collect-held :
      (ms : List XMessage) (qs : List QueueMessage)
      → collect codec ms ≡ ok qs
      → notifications ms ≡ held qs
  unfolding collect
  collect-held [] qs h = let e : [] ≡ qs = cc in rw (sym e)
  collect-held (m ∷ ms) qs h =
      gather-held (decode codec m) (collect codec ms) (notifications ms) qs (collect-held ms) h

  -- A message that was written with the JSON of a notification holds that notification.
  pub decode-marshal :
      (n : Notification) (id text : String)
      → codec.marshal n ≡ ok text
      → content (decode codec (record { id = id; values = (stream_data_field, text) ∷ [] }))
        ≡ n ∷ []
  unfolding decode decode_value to_message lookup
  decode-marshal n id text h = rw (codec.marshal_back n text h)

  module _ (c : Client) (laws : Laws c) where
    abbrev pub lane : Channel → Priority → c.Server → List Notification
    lane ch pr s = notifications (c.unread (stream_key ch pr) s)

    add_lane :
        (n : Notification) (text : String) (s s' : c.Server)
        → codec.marshal n ≡ ok text
        → Added c (stream_key n.channel n.priority) ((stream_data_field, text) ∷ []) s s'
        → lane n.channel n.priority s' ≡ lane n.channel n.priority s ++ n ∷ []
    add_lane n text s s' h (id, entries, unread, others, acks) =
        ap notifications unread
        ∙ notifications-append (c.unread (stream_key n.channel n.priority) s)
            (record { id = id; values = (stream_data_field, text) ∷ [] } ∷ [])
        ∙ ap (λ ns. lane n.channel n.priority s ++ (ns ++ [])) (decode-marshal n id text h)

    -- A call of Enqueue, seen from a stream.
    abbrev pub Pushes : Notification → String → c.Server → Result (Unit {0}) × c.Server → Type 0
    Pushes n key s (result, s') =
        (key ≡ stream_key n.channel n.priority
          → Appends n (notifications (c.unread key s)) result (notifications (c.unread key s')))
        × (key ≢ stream_key n.channel n.priority → c.unread key s' ≡ c.unread key s)

    xadd-Pushes :
        (n : Notification) (text key : String) (s : c.Server) (out : Result (Unit {0}) × c.Server)
        → codec.marshal n ≡ ok text
        → AfterAdd c (stream_key n.channel n.priority) ((stream_data_field, text) ∷ []) s out
        → Pushes n key s (after_xadd codec c out)
    unfolding after_xadd
    xadd-Pushes n text key s (ok u, s') h added =
        (λ same. rw same (inl (refl, add_lane n text s s' h added)), λ differs. added.3 key differs)
    xadd-Pushes n text key s (err e, s') h (inl (entries, unread, acks)) =
        (λ same. inr (_, refl, inl (ap notifications (unread key))), λ differs. unread key)
    xadd-Pushes n text key s (err e, s') h (inr added) = (
      λ same. rw same (inr (_, refl, inr (add_lane n text s s' h added))),
      λ differs. added.3 key differs,
    )

    marshal-Pushes :
        (n : Notification) (key : String) (s : c.Server) (text : Result String)
        → codec.marshal n ≡ text
        → Pushes n key s (after_marshal codec c n s text)
    unfolding after_marshal
    marshal-Pushes n key s (err e) h = (λ same. inr (_, refl, inl refl), λ differs. refl)
    marshal-Pushes n key s (ok text) h =
        xadd-Pushes n text key s _ h
          (laws.add_law (stream_key n.channel n.priority) ((stream_data_field, text) ∷ []) s)

    pub enqueue-Pushes :
        (n : Notification) (key : String) (s : c.Server) → Pushes n key s (enqueue codec c n s)
    unfolding enqueue
    enqueue-Pushes n key s = marshal-Pushes n key s (codec.marshal n) refl

    -- A call of Dequeue on one stream, seen from a stream.
    abbrev pub Pulls : String → String → c.Server → Result (List QueueMessage) × c.Server → Type 0
    Pulls own key s (result, s') =
        (key ≡ own
          → Takes result (notifications (c.unread key s)) (notifications (c.unread key s')))
        × (key ≢ own → c.unread key s' ≡ c.unread key s)
        × (c.acks s' ≡ c.acks s)

    Given-Takes :
        (key : String) (ms : List XMessage) (s s' : c.Server) (result : Result (List QueueMessage))
        → Given c key ms s s'
        → ((qs : List QueueMessage) → result ≡ ok qs → notifications ms ≡ held qs)
        → Takes result (notifications (c.unread key s)) (notifications (c.unread key s'))
    Given-Takes key ms s s' (err e) (unread, others, entries, acks) same =
        (notifications ms, ap notifications unread ∙ notifications-append ms (c.unread key s'))
    Given-Takes key ms s s' (ok qs) (unread, others, entries, acks) same =
        ap notifications unread
        ∙ notifications-append ms (c.unread key s')
        ∙ ap (λ ns. ns ++ notifications (c.unread key s')) (same qs refl)

    one_stream :
        (ms : List XMessage) (result : Result (List QueueMessage)) (qs : List QueueMessage)
        → collect codec ms ≡ result
        → append_all codec result (ok []) ≡ ok qs
        → notifications ms ≡ held qs
    unfolding append_all
    one_stream ms (err e) qs same h = cc
    one_stream ms (ok all) qs same h =
        let e : all ++ [] ≡ qs = cc in collect-held ms all same ∙ ap held (sym (append-nil all) ∙ e)

    read-Pulls :
        (own : String) (count : ℕ) (key : String) (s : c.Server) (out : ReadReply × c.Server)
        → AfterRead c own count s out
        → Pulls own key s (after_read codec c out)
    unfolding after_read collect_streams
    read-Pulls own count key s (redis_nil, s') (entries, unread, acks) =
        (λ same. ap notifications (sym (unread key)), λ differs. unread key, acks)
    read-Pulls own count key s (read_failed e, s') (ms, few, given) = (
      λ same. rw same (notifications ms, ap notifications given.0 ∙ notifications-append ms _),
      λ differs. given.1 key differs,
      given.3,
    )
    read-Pulls own count key s (read_streams streams, s') (ms, one, few, given) = rw one (
      λ same.
          rw same
            (Given-Takes own ms s s' _ given (λ qs. one_stream ms (collect codec ms) qs refl)),
      λ differs. given.1 key differs,
      given.3,
    )

    pub dequeue-Pulls :
        (ch : Channel) (pr : Priority) (count : ℕ) (key : String) (s : c.Server)
        → Pulls (stream_key ch pr) key s (dequeue codec c ch pr count s)
    unfolding dequeue
    dequeue-Pulls ch pr count key s =
        read-Pulls (stream_key ch pr) count key s _ (laws.read_law (stream_key ch pr) count s)

    after_ack_keeps :
        (key : String) (s : c.Server) (out : Result (Unit {0}) × c.Server)
        → c.unread key out.1 ≡ c.unread key s
        → c.unread key (after_xack codec c out).1 ≡ c.unread key s
    unfolding after_xack
    after_ack_keeps key s (ok u, s') same = same
    after_ack_keeps key s (err e, s') same = same

    pub ack_keeps :
        (ch : Channel) (pr : Priority) (id key : String) (s : c.Server)
        → c.unread key (ack codec c ch pr id s).1 ≡ c.unread key s
    unfolding ack
    ack_keeps ch pr id key s =
        after_ack_keeps key s _ ((laws.ack_keeps (stream_key ch pr) id s).1 key)
