-- ===== src/Webhook/Guarded.antt =====
-- Send of internal/infrastructure/httpclient/circuit_breaker.go, around the webhook client. The clock that
-- the breaker reads is that of the HTTP client's world.
use mathlib.Core.List.{map-append}
use insider_one_notification.Prelude.{
  ◌≡◌, refl, sym, ap, ◌∙◌, ◌⊎◌, inl, inr, Option, none, some, String, List, [], ◌∷◌, ◌++◌, map,
}
use insider_one_notification.Errors.{Error, wrap, sentinel, circuit_open}
use insider_one_notification.Result.{Result, ok, err}
use insider_one_notification.Entity.{Notification}
use insider_one_notification.Breaker.{
  CircuitBreakerConfig, CircuitBreaker, allow_request, record_result,
}
use insider_one_notification.Breaker.Recovery.{IsRejected, allow_request-IsRejected}
use insider_one_notification.Worker.{DeliveryResponse, DeliveryClient}
use insider_one_notification.Webhook
use insider_one_notification.Webhook.{Http, Posts, Format, request_body}
use insider_one_notification.Webhook.Sending.{SendOutcome, send_outcome, IsPosted}

module _ (f : Format) (h : Http) (url : String) (config : CircuitBreakerConfig) where
  pub record Line : Type 0 where
    pub breaker : CircuitBreaker
    pub world : h.World

  -- recordResult, and the result.
  after_send : CircuitBreaker → Result DeliveryResponse × h.World → Result DeliveryResponse × Line
  after_send cb (ok resp, w) =
      (ok resp, record { breaker = record_result config none (h.now w) cb; world = w })
  after_send cb (err e, w) = (
    err (wrap "delivery through circuit breaker" e),
    record { breaker = record_result config (some e) (h.now w) cb; world = w },
  )

  after_allow :
      Notification → h.World → Option Error × CircuitBreaker → Result DeliveryResponse × Line
  unfolding after_send
  after_allow n w (some e, cb) = (err e, record { breaker = cb; world = w })
  after_allow n w (none, cb) = after_send cb (Webhook.send f h url n w)

  unfoldable pub send : Notification → Line → Result DeliveryResponse × Line
  unfolding after_allow
  send n l = after_allow n l.world (allow_request config (h.now l.world) l.breaker)

  module _
      (post_law : (payload : String) (w : h.World)
        → Posts h (url, payload) w (h.do_post url payload w)) where
    abbrev allowed : Line → CircuitBreaker
    allowed l = (allow_request config (h.now l.world) l.breaker).1

    -- A success: the breaker let the call through, and has recorded it. An error: the breaker was open
    -- and its time not up, and nothing was posted and nothing changed; or the call went through, failed,
    -- and is recorded as a failure.
    abbrev pub GuardedOutcome : Notification → Line → Result DeliveryResponse × Line → Type 0
    GuardedOutcome n l (ok resp, l') =
        ((allow_request config (h.now l.world) l.breaker).0 ≡ none)
        × SendOutcome f h url post_law n l.world (ok resp, l'.world)
        × (l'.breaker ≡ record_result config none (h.now l'.world) (allowed l))
    GuardedOutcome n l (err e, l') =
        (IsRejected config (h.now l.world) l.breaker × (e ≡ sentinel circuit_open) × (l' ≡ l))
        ⊎ ((inner : Error) × ((allow_request config (h.now l.world) l.breaker).0 ≡ none)
            × (e ≡ wrap "delivery through circuit breaker" inner)
            × SendOutcome f h url post_law n l.world (err inner, l'.world)
            × (l'.breaker ≡ record_result config (some inner) (h.now l'.world) (allowed l)))

    after_send_outcome :
        (n : Notification) (l : Line) (out : Result DeliveryResponse × h.World)
        → (allow_request config (h.now l.world) l.breaker).0 ≡ none
        → SendOutcome f h url post_law n l.world out
        → GuardedOutcome n l (after_send (allowed l) out)
    unfolding after_send
    after_send_outcome n l (ok resp, w) allow sent = (allow, sent, refl)
    after_send_outcome n l (err e, w) allow sent = inr (e, allow, refl, sent, refl)

    allow_outcome :
        (n : Notification) (l : Line) (answer : Option Error)
        → (allow_request config (h.now l.world) l.breaker).0 ≡ answer
        → GuardedOutcome n l (after_allow n l.world (answer, allowed l))
    unfolding after_allow
    allow_outcome n l (some e) same =
        let (rejected, is_open, unchanged) =
          allow_request-IsRejected config (h.now l.world) l.breaker e same in
        inl (rejected, is_open, ap (λ cb. record l { breaker = cb }) unchanged)
    allow_outcome n l none same =
        after_send_outcome n l (Webhook.send f h url n l.world) same
          (send_outcome f h url post_law n l.world)

    -- Send through the circuit breaker. If it succeeds, the breaker let it through, the webhook was
    -- called once with the notification's JSON and answered with a 2xx status, and the breaker has
    -- recorded a success. If it fails, either the breaker was open and its timeout not over, the error
    -- is that of the open circuit, and nothing was sent and nothing changed; or the webhook was called
    -- once at most, and the breaker has recorded the failure.
    pub guarded_outcome : (n : Notification) (l : Line) → GuardedOutcome n l (send n l)
    unfolding send
    guarded_outcome n l = allow_outcome n l (allow_request config (h.now l.world) l.breaker).0 refl

    -- What the processor counts as requests: the JSON of each notification, if it can be written.
    abbrev pub requests : Line → List (Result String)
    requests l = map (λ (p : String × String). ok p.1) (h.posts l.world)

    posted_request :
        (n : Notification) (w w' : h.World)
        → IsPosted f h url post_law n w w'
        → map (λ (p : String × String). ok p.1) (h.posts w')
          ≡ map (λ (p : String × String). ok p.1) (h.posts w) ++ f.marshal (request_body n) ∷ []
    posted_request n w w' (payload, text, posted) =
        ap (λ ps. map (λ (p : String × String). ok p.1) ps) posted
        ∙ map-append (λ (p : String × String). ok p.1) (h.posts w) ((url, payload) ∷ [])
        ∙ ap (λ r. map (λ (p : String × String). ok p.1) (h.posts w) ++ r ∷ []) (sym text)

    abbrev pub Requested : Notification → Line → Result DeliveryResponse × Line → Type 0
    Requested n l (result, l') =
        (((resp : DeliveryResponse) × (result ≡ ok resp))
          × (requests l' ≡ requests l ++ f.marshal (request_body n) ∷ []))
        ⊎ ((e : Error) × (result ≡ err e)
            × ((requests l' ≡ requests l)
                ⊎ (requests l' ≡ requests l ++ f.marshal (request_body n) ∷ [])))

    GuardedOutcome-Requested :
        (n : Notification) (l : Line) (out : Result DeliveryResponse × Line)
        → GuardedOutcome n l out
        → Requested n l out
    GuardedOutcome-Requested n l (ok resp, l') (allow, (posted, answered), recorded) =
        inl ((resp, refl), posted_request n l.world l'.world posted)
    GuardedOutcome-Requested n l (err e, l') (inl (rejected, is_open, same)) =
        inr (e, refl, inl (ap requests same))
    GuardedOutcome-Requested n l (err e, l') (inr (inner, allow, text, inl unposted, recorded)) =
        inr (e, refl, inl (ap (λ ps. map (λ (p : String × String). ok p.1) ps) unposted))
    GuardedOutcome-Requested n l (err e, l') (inr (inner, allow, text, inr posted, recorded)) =
        inr (e, refl, inr (posted_request n l.world l'.world posted))

    pub send_requests : (n : Notification) (l : Line) → Requested n l (send n l)
    send_requests n l = GuardedOutcome-Requested n l (send n l) (guarded_outcome n l)

    -- The delivery client of the processor.
    abbrev pub webhook_delivery : DeliveryClient
    webhook_delivery = record {
      Provider = Line;
      Request = Result String;
      request = λ n. f.marshal (request_body n);
      requests = requests;
      send = send;
      send_requests = send_requests;
    }
