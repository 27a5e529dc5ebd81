-- ===== src/Streams.antt =====
-- internal/infrastructure/redis/queue.go: the producer and the consumer over Redis streams. The client
-- is the record `Client`, for the one consumer group; a `map[string]interface{}` of texts is a list of
-- pairs. The JSON of a notification is a parameter.
pub mod Fifo
pub mod Keys
pub mod Lanes
pub mod Ports
pub mod Bootstrap
use Prim.Native.String.{String, ◌++◌ as join}
use insider_one_notification.Prelude.{
  ℕ, ◌≤◌, ◌≡◌, ◌≢◌, ◌⊎◌, Bool, true, false, Option, none, some, List, [], ◌∷◌, ◌++◌, length, str_eq,
  if◌then◌else◌,
}
use insider_one_notification.Errors.{Error, wrap}
use insider_one_notification.Result.{Result, ok, err}
use insider_one_notification.Entity.{Notification, Channel, Priority}
use insider_one_notification.Entity.Channels
use insider_one_notification.Entity.Priorities
use insider_one_notification.Ports.{Appends}
use insider_one_notification.Worker.{QueueMessage}

abbrev pub stream_data_field : String
stream_data_field = "data"

-- `fmt.Sprintf("notifications:%s:%s", channel, priority)`
unfoldable pub stream_key : Channel → Priority → String
stream_key channel priority =
    join "notifications:"
      (join (Channels.to_string channel) (join ":" (Priorities.to_string priority)))

-- redis.XMessage and redis.XStream.
pub record XMessage : Type 0 where
  pub id : String
  pub values : List (String × String)

pub record XStream : Type 0 where
  pub stream : String
  pub messages : List XMessage

-- XREADGROUP: redis.Nil when the block timed out, another error, or what it read.
pub data ReadReply : Type 0 where
  redis_nil : ReadReply
  read_failed : Error → ReadReply
  read_streams : List XStream → ReadReply

-- The commands of one Redis server. `entries` is all that was ever added, with the name of its stream;
-- `unread` is the part of a stream that the group was not given yet; `acks` are the acknowledgements.
pub record Client : Type 1 where
  pub Server : Type 0
  pub entries : Server → List (String × XMessage)
  pub unread : String → Server → List XMessage
  pub acks : Server → List (String × String)
  pub xadd : String → List (String × String) → Server → Result (Unit {0}) × Server
  pub xread_group : String → ℕ → Server → ReadReply × Server
  pub xack : String → String → Server → Result (Unit {0}) × Server

module _ (c : Client) where
  open c use {Server, entries, unread, acks}

  abbrev pub Untouched : Server → Server → Type 0
  Untouched s s' =
      (entries s' ≡ entries s)
      × ((key : String) → unread key s' ≡ unread key s)
      × (acks s' ≡ acks s)

  -- The message got the next ID of its stream.
  abbrev pub Added : String → List (String × String) → Server → Server → Type 0
  Added key values s s' =
      (id : String) × (entries s' ≡ entries s ++ (key, record { id = id; values = values }) ∷ [])
      × (unread key s' ≡ unread key s ++ record { id = id; values = values } ∷ [])
      × ((other : String) → other ≢ key → unread other s' ≡ unread other s)
      × (acks s' ≡ acks s)

  abbrev pub Given : String → List XMessage → Server → Server → Type 0
  Given key ms s s' =
      (unread key s ≡ ms ++ unread key s')
      × ((other : String) → other ≢ key → unread other s' ≡ unread other s)
      × (entries s' ≡ entries s)
      × (acks s' ≡ acks s)

  abbrev pub AfterAdd :
      String → List (String × String) → Server → Result (Unit {0}) × Server → Type 0
  AfterAdd key values s (ok u, s') = Added key values s s'
  AfterAdd key values s (err e, s') = Untouched s s' ⊎ Added key values s s'

  -- What was read is the next of the one stream asked for, and no more than asked for.
  abbrev pub AfterRead : String → ℕ → Server → ReadReply × Server → Type 0
  AfterRead key count s (redis_nil, s') = Untouched s s'
  AfterRead key count s (read_failed e, s') =
      (ms : List XMessage) × (length ms ≤ count) × Given key ms s s'
  AfterRead key count s (read_streams streams, s') =
      (ms : List XMessage) × (streams ≡ record { stream = key; messages = ms } ∷ [])
      × (length ms ≤ count)
      × Given key ms s s'

  -- What Redis documents of the three commands.
  pub record Laws : Type 0 where
    pub add_law :
        (key : String) (values : List (String × String)) (s : Server)
        → AfterAdd key values s (c.xadd key values s)
    pub read_law :
        (key : String) (count : ℕ) (s : Server) → AfterRead key count s (c.xread_group key count s)
    pub ack_law :
        (key id : String) (s : Server)
        → Appends (key, id) (acks s) (c.xack key id s).0 (acks (c.xack key id s).1)
    pub ack_keeps :
        (key id : String) (s : Server)
        → (entries (c.xack key id s).1 ≡ entries s)
          × ((other : String) → unread other (c.xack key id s).1 ≡ unread other s)

-- encoding/json on a notification.
pub record Codec : Type 0 where
  pub marshal : Notification → Result String
  pub unmarshal : String → Result Notification
  pub marshal_back :
      (n : Notification) (text : String) → marshal n ≡ ok text → unmarshal text ≡ ok n

-- `msg.Values[field]`
unfoldable pub lookup : String → List (String × String) → Option String
lookup field [] = none
lookup field ((name, value) ∷ rest) =
    let later = lookup field rest in if str_eq name field then some value else later

module _ (codec : Codec) where
  open codec use {marshal, unmarshal}

  to_message : XMessage → Result Notification → Result (Option QueueMessage)
  to_message msg (err e) = err (wrap "unmarshal notification from stream" e)
  to_message msg (ok n) = ok (some (record { stream_msg_id = msg.id; notification = n }))

  decode_value : XMessage → Option String → Result (Option QueueMessage)
  unfolding to_message
  decode_value msg none = ok none
  decode_value msg (some raw) = to_message msg (unmarshal raw)

  -- One message: none without the field, which the loop skips.
  unfoldable pub decode : XMessage → Result (Option QueueMessage)
  unfolding decode_value
  decode msg = decode_value msg (lookup stream_data_field msg.values)

  -- `messages = append(messages, ...)`, `continue`, or the return of the error.
  unfoldable pub gather :
      Result (Option QueueMessage) → Result (List QueueMessage) → Result (List QueueMessage)
  gather (err e) rest = err e
  gather (ok none) rest = rest
  gather (ok (some m)) (err e) = err e
  gather (ok (some m)) (ok ms) = ok (m ∷ ms)

  unfoldable pub collect : List XMessage → Result (List QueueMessage)
  collect [] = ok []
  collect (msg ∷ rest) = gather (decode msg) (collect rest)

  unfoldable pub append_all :
      Result (List QueueMessage) → Result (List QueueMessage) → Result (List QueueMessage)
  append_all (err e) rest = err e
  append_all (ok ms) (err e) = err e
  append_all (ok ms) (ok rest) = ok (ms ++ rest)

  -- The two loops over the streams and their messages.
  unfoldable pub collect_streams : List XStream → Result (List QueueMessage)
  collect_streams [] = ok []
  collect_streams (s ∷ rest) = append_all (collect s.messages) (collect_streams rest)

  module _ (c : Client) where
    unfoldable pub after_xadd : Result (Unit {0}) × c.Server → Result (Unit {0}) × c.Server
    after_xadd (err e, s) = (err (wrap "xadd to stream" e), s)
    after_xadd (ok u, s) = (ok tt, s)

    unfoldable pub after_marshal :
        Notification → c.Server → Result String → Result (Unit {0}) × c.Server
    unfolding after_xadd
    after_marshal n s (err e) = (err (wrap "marshal notification" e), s)
    after_marshal n s (ok text) =
        after_xadd (c.xadd (stream_key n.channel n.priority) ((stream_data_field, text) ∷ []) s)

    unfoldable pub enqueue : Notification → c.Server → Result (Unit {0}) × c.Server
    unfolding after_marshal
    enqueue n s = after_marshal n s (marshal n)

    unfoldable pub after_read : ReadReply × c.Server → Result (List QueueMessage) × c.Server
    after_read (redis_nil, s) = (ok [], s)
    after_read (read_failed e, s) = (err (wrap "xreadgroup on stream" e), s)
    after_read (read_streams streams, s) = (collect_streams streams, s)

    unfoldable pub dequeue :
        Channel → Priority → ℕ → c.Server → Result (List QueueMessage) × c.Server
    unfolding after_read
    dequeue channel priority count s =
        after_read (c.xread_group (stream_key channel priority) count s)

    unfoldable pub after_xack : Result (Unit {0}) × c.Server → Result (Unit {0}) × c.Server
    after_xack (err e, s) = (err (wrap "xack on stream" e), s)
    after_xack (ok u, s) = (ok tt, s)

    unfoldable pub ack : Channel → Priority → String → c.Server → Result (Unit {0}) × c.Server
    unfolding after_xack
    ack channel priority id s = after_xack (c.xack (stream_key channel priority) id s)
