-- ===== src/Streams/Fifo.antt =====
-- Streams as queues, first in, first out: any sequence of calls, by any processes.
use insider_one_notification.Prelude.{
  ℕ, ◌≡◌, Bool, true, false, String, List, [], ◌∷◌, ◌++◌, str_eq,
}
use insider_one_notification.Result.{Result, ok, err}
use insider_one_notification.Entity.{Notification, Channel, Priority}
use insider_one_notification.Ports.{IsSublist}
use insider_one_notification.Worker.{QueueMessage}
use insider_one_notification.Streams
use insider_one_notification.Streams.{Client, Laws, Codec, stream_key}
use insider_one_notification.Streams.Lanes.{held, notifications}

pub data Call : Type 0 where
  enqueue : Notification → Call
  dequeue : Channel → Priority → ℕ → Call
  ack : Channel → Priority → String → Call

when : Bool → List Notification → List Notification
when true ns = ns
when false ns = []

if_done : Result (Unit {0}) → Notification → List Notification
if_done (ok u) n = n ∷ []
if_done (err e) n = []

returned : Result (List QueueMessage) → List Notification
returned (ok ms) = held ms
returned (err e) = []

module _ (codec : Codec) (c : Client) where
  unfoldable pub step : Call → c.Server → c.Server
  step (enqueue n) s = (Streams.enqueue codec c n s).1
  step (dequeue ch pr count) s = (Streams.dequeue codec c ch pr count s).1
  step (ack ch pr id) s = (Streams.ack codec c ch pr id s).1

  unfoldable pub run : List Call → c.Server → c.Server
  run [] s = s
  run (x ∷ xs) s = run xs (step x s)

  -- Of one call, in the stream `key`: the notification that was to be enqueued, whether the call
  -- succeeded or not; the one whose Enqueue returned nil; and those that Dequeue returned.
  unfoldable pub tried_by : String → Call → List Notification
  unfolding when
  tried_by key (enqueue n) = when (str_eq key (stream_key n.channel n.priority)) (n ∷ [])
  tried_by key (dequeue ch pr count) = []
  tried_by key (ack ch pr id) = []

  unfoldable pub sent_by : String → Call → c.Server → List Notification
  unfolding when if_done
  sent_by key (enqueue n) s =
      when (str_eq key (stream_key n.channel n.priority))
        (if_done (Streams.enqueue codec c n s).0 n)
  sent_by key (dequeue ch pr count) s = []
  sent_by key (ack ch pr id) s = []

  unfoldable pub got_by : String → Call → c.Server → List Notification
  unfolding when returned
  got_by key (enqueue n) s = []
  got_by key (dequeue ch pr count) s =
      when (str_eq key (stream_key ch pr)) (returned (Streams.dequeue codec c ch pr count s).0)
  got_by key (ack ch pr id) s = []

  -- The same for a sequence of calls.
  unfoldable pub tried : String → List Call → List Notification
  tried key [] = []
  tried key (x ∷ xs) = tried_by key x ++ tried key xs

  unfoldable pub sent : String → List Call → c.Server → List Notification
  sent key [] s = []
  sent key (x ∷ xs) s = sent_by key x s ++ sent key xs (step x s)

  unfoldable pub got : String → List Call → c.Server → List Notification
  got key [] s = []
  got key (x ∷ xs) s = got_by key x s ++ got key xs (step x s)

  -- A queue with the content `old` became `new`: what was pushed went behind it, what was taken came
  -- off its front. All that was sent was pushed, and all that was got was taken, in that order.
  abbrev pub IsFifo :
      List Notification
      → List Notification
      → List Notification
      → List Notification
      → List Notification
      → Type 0
  IsFifo old tries sends gets new =
      (pushed : List Notification) × (taken : List Notification) × (old ++ pushed ≡ taken ++ new)
      × IsSublist sends pushed
      × IsSublist pushed tries
      × IsSublist gets taken

  module _ (laws : Laws c) (ch : Channel) (pr : Priority) where
    abbrev key : String
    key = stream_key ch pr

    abbrev queue : c.Server → List Notification
    queue s = notifications codec (c.unread key s)
