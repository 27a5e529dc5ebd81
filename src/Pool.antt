-- ===== src/Pool.antt =====
-- internal/worker/pool.go: the loop of one worker. What the loop finds from outside in one round (whether
-- the context is done, and the clock and the random numbers of each message) is a value of `Round`, and
-- a worker runs through a list of rounds. backoff only waits, and logging is left out.
pub mod Once
use Prim.Native.String.{String}
use insider_one_notification.Prelude.{
  ℕ, zero, suc, Bool, true, false, List, [], ◌∷◌, ◌++◌, if◌then◌else◌,
}
use insider_one_notification.Errors.{Error}
use insider_one_notification.Result.{Result, ok, err}
use insider_one_notification.Entity.{Channel, Priority, Time}
use insider_one_notification.Entity.Channels.{all_channels}
use insider_one_notification.Entity.Priorities.{all_priorities}
use insider_one_notification.Worker.{Processor, World, QueueMessage, process}

pub record Round : Type 0 where
  pub is_done : Bool  -- at the head of the loop
  pub is_done_in_dequeue : Bool  -- when Dequeue has failed
  pub reads : QueueMessage → ℕ × Time

-- The workers that Start launches: a channel, a priority and a number for each.
unfoldable pub numbered : Channel → Priority → ℕ → List (Channel × Priority × ℕ)
numbered ch pri zero = []
numbered ch pri (suc i) = numbered ch pri i ++ (ch, pri, i) ∷ []

unfoldable pub started_for : Channel → List Priority → ℕ → List (Channel × Priority × ℕ)
unfolding numbered
started_for ch [] concurrency = []
started_for ch (pri ∷ rest) concurrency =
    numbered ch pri concurrency ++ started_for ch rest concurrency

unfoldable pub started : List Channel → ℕ → List (Channel × Priority × ℕ)
unfolding started_for
started [] concurrency = []
started (ch ∷ rest) concurrency =
    started_for ch all_priorities concurrency ++ started rest concurrency

unfoldable pub start : ℕ → List (Channel × Priority × ℕ)
unfolding started
start concurrency = started all_channels concurrency

module _ (p : Processor) (error_text : Error → String) where
  open p use {consumer}

  -- An error of Process is logged only.
  unfoldable pub process_all : Round → List QueueMessage → World p → World p
  process_all r [] w = w
  process_all r (msg ∷ rest) w =
      let (draw, now) = r.reads msg in process_all r rest (process p error_text draw now msg w).1

  -- The state after the round, and whether the loop returns.
  unfoldable pub after_dequeue :
      Round → World p → Result (List QueueMessage) × consumer.Queue → Bool × World p
  unfolding process_all
  after_dequeue r w (err e, queue) = (r.is_done_in_dequeue, record w { queue = queue })
  after_dequeue r w (ok messages, queue) =
      (false, process_all r messages (record w { queue = queue }))

  unfoldable pub one_round : Channel → Priority → Round → World p → Bool × World p
  unfolding after_dequeue
  one_round ch pri r w =
      if r.is_done then (true, w) else after_dequeue r w (consumer.dequeue ch pri 1 w.queue)

  unless_returned : Bool × World p → (World p → World p) → World p
  unless_returned (true, w) next = w
  unless_returned (false, w) next = next w

  unfoldable pub run_worker : Channel → Priority → List Round → World p → World p
  unfolding one_round unless_returned
  run_worker ch pri [] w = w
  run_worker ch pri (r ∷ rs) w =
      unless_returned (one_round ch pri r w) (λ w₁. run_worker ch pri rs w₁)
