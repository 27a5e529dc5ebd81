-- ===== src/Pool/Once.antt =====
-- Each message of a stream is handled at most once by a worker, in the order of the stream.
use mathlib.Core.List.{append_assoc, append-nil, map-append}
use insider_one_notification.Prelude.{
  ℕ, ◌≡◌, refl, sym, ap, ◌∙◌, ◌⊎◌, inl, inr, Bool, true, false, Bool-cases, Option, none, some,
  String, List, [], ◌∷◌, ◌++◌, map,
}
use insider_one_notification.Errors.{Error}
use insider_one_notification.Result.{Result, ok, err}
use insider_one_notification.Entity.{Notification, Channel, Priority, Time}
use insider_one_notification.Ports.{IsSublist, none_left, keep, skip}
use insider_one_notification.Ports.Sublists.{IsSublist-nil, IsSublist-append}
use insider_one_notification.Worker.{Processor, World, QueueMessage, Takes, process}
use insider_one_notification.Worker.Waiting.{process_waiting}
use insider_one_notification.Worker.Lifecycle.{
  ProcessOutcome, MaySend, Settled-MaySend, sent, process_outcome,
}
use insider_one_notification.Pool.{
  Round, process_all, after_dequeue, one_round, unless_returned, run_worker,
}

module _ (p : Processor) (error_text : Error → String) where
  open p use {repo, consumer, delivery, limiter}

  abbrev pub waiting : Channel → Priority → World p → List Notification
  waiting ch pri w = consumer.waiting ch pri w.queue

  abbrev pub requests : World p → List delivery.Request
  requests w = delivery.requests w.provider

  -- A worker took `taken` off its stream, and sent requests for some of them, in their order.
  abbrev pub Handles : Channel → Priority → World p → World p → Type 0
  Handles ch pri w w' =
      (taken : List Notification) × (added : List delivery.Request) × (waiting ch pri w
        ≡ taken ++ waiting ch pri w')
      × (requests w' ≡ requests w ++ added)
      × IsSublist added (map delivery.request taken)

  process_sends :
      (draw : ℕ) (now : Time) (msg : QueueMessage) (w : World p) (out : Option Error × World p)
      → ProcessOutcome p error_text draw now msg w out
      → MaySend p error_text draw now msg w out.1
  process_sends draw now msg w (none, w') (acked, settled) =
      (Settled-MaySend p error_text draw now msg w w' settled).0
  process_sends draw now msg w (some e, w') (inl (unacked, once, row)) = once
  process_sends draw now msg w (some e, w') (inr (acked, settled)) =
      (Settled-MaySend p error_text draw now msg w w' settled).0

  MaySend-IsSublist :
      (n : delivery.Request) (old new : List delivery.Request)
      → (new ≡ old) ⊎ (new ≡ old ++ n ∷ [])
      → (added : List delivery.Request) × (new ≡ old ++ added) × IsSublist added (n ∷ [])
  MaySend-IsSublist n old new (inl same) = ([], same ∙ sym (append-nil old), skip none_left)
  MaySend-IsSublist n old new (inr sent) = (n ∷ [], sent, keep none_left)

  map-map :
      (ms : List QueueMessage)
      → map delivery.request (map (λ (m : QueueMessage). m.notification) ms)
        ≡ map (λ (m : QueueMessage). delivery.request m.notification) ms
  map-map [] = refl
  map-map (m ∷ ms) = ap (λ rs. delivery.request m.notification ∷ rs) (map-map ms)

  module _ (ch : Channel) (pri : Priority) where
    all_handled :
        (r : Round) (ms : List QueueMessage) (w : World p)
        → (waiting ch pri (process_all p error_text r ms w) ≡ waiting ch pri w)
          × (added : List delivery.Request) × (requests (process_all p error_text r ms w)
              ≡ requests w ++ added)
          × IsSublist added (map (λ (m : QueueMessage). delivery.request m.notification) ms)
    unfolding process_all
    all_handled r [] w = (refl, [], sym (append-nil (requests w)), none_left)
    all_handled r (msg ∷ rest) w =
        let (draw, now) = r.reads msg in
        let w₁ = (process p error_text draw now msg w).1 in
        let (first, once, part) =
          MaySend-IsSublist (delivery.request msg.notification) (requests w) (requests w₁)
            (process_sends draw now msg w _ (process_outcome p error_text draw now msg w)) in
        let (same, added, sent, parts) = all_handled r rest w₁ in
        (
          same ∙ process_waiting p error_text draw now msg ch pri w,
          first ++ added,
          sent ∙ ap (λ ns. ns ++ added) once ∙ append_assoc (requests w) first added,
          IsSublist-append part parts,
        )

    Handles-none :
        (w w' : World p)
        → waiting ch pri w' ≡ waiting ch pri w
        → requests w' ≡ requests w
        → Handles ch pri w w'
    Handles-none w w' same unsent =
        ([], [], sym same, unsent ∙ sym (append-nil (requests w)), none_left)

    Handles-then :
        (w w₁ w' : World p) → Handles ch pri w w₁ → Handles ch pri w₁ w' → Handles ch pri w w'
    Handles-then w w₁ w' (t, a, took, sent, part) (u, b, took', sent', part') = (
      t ++ u,
      a ++ b,
      took ∙ ap (λ ns. t ++ ns) took' ∙ sym (append_assoc t u (waiting ch pri w')),
      sent' ∙ ap (λ ns. ns ++ b) sent ∙ append_assoc (requests w) a b,
      rw (map-append delivery.request t u) (IsSublist-append part part'),
    )

    dequeue-Handles :
        (r : Round) (w : World p) (out : Result (List QueueMessage) × consumer.Queue)
        → Takes out.0 (waiting ch pri w) (consumer.waiting ch pri out.1)
        → Handles ch pri w (after_dequeue p error_text r w out).1
    unfolding after_dequeue
    dequeue-Handles r w (err e, queue) (lost, took) =
        (lost, [], took, sym (append-nil (requests w)), IsSublist-nil (map delivery.request lost))
    dequeue-Handles r w (ok messages, queue) took =
        let w₁ : World p = record w { queue = queue } in
        let (same, added, sent, part) = all_handled r messages w₁ in
        (
          map (λ (m : QueueMessage). m.notification) messages,
          added,
          took ∙ ap (λ ns. map (λ (m : QueueMessage). m.notification) messages ++ ns) (sym same),
          sent,
          rw (map-map messages) part,
        )

    round-Handles :
        (r : Round) (w : World p) → Handles ch pri w (one_round p error_text ch pri r w).1
    unfolding one_round
    round-Handles r w = elim (Bool-cases r.is_done) [
      | inl done ↦ rw done (Handles-none w w refl refl)
      | inr going ↦ rw going (dequeue-Handles r w _ (consumer.dequeue_takes ch pri 1 w.queue))
    ]

    unless-Handles :
        (w : World p) (out : Bool × World p) (next : World p → World p)
        → Handles ch pri w out.1
        → ((w₁ : World p) → Handles ch pri w₁ (next w₁))
        → Handles ch pri w (unless_returned p error_text out next)
    unfolding unless_returned
    unless-Handles w (true, w₁) next first rest = first
    unless-Handles w (false, w₁) next first rest = Handles-then w w₁ (next w₁) first (rest w₁)

    -- However many rounds a worker makes and whatever fails in them, it takes messages off the front of
    -- its stream only, and sends to the provider at most one request for each of them, in the order of
    -- the stream, and none for anything else.
    pub run_worker_once :
        (rs : List Round) (w : World p) → Handles ch pri w (run_worker p error_text ch pri rs w)
    unfolding run_worker
    run_worker_once [] w = Handles-none w w refl refl
    run_worker_once (r ∷ rs) w =
        unless-Handles w (one_round p error_text ch pri r w)
          (λ w₁. run_worker p error_text ch pri rs w₁) (round-Handles r w) (run_worker_once rs)
