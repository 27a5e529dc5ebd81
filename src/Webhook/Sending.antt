-- ===== src/Webhook/Sending.antt =====
-- What a Send of the webhook client posts, and when it succeeds.
use insider_one_notification.Prelude.{
  ◌≤◌, ◌<◌, ◌≡◌, refl, ◌⊎◌, inl, inr, ◌||◌, Bool-cases, Option, none, some, String, [], ◌∷◌, ◌++◌,
  ltb, leb, arith,
}
use insider_one_notification.Errors.{Error}
use insider_one_notification.Result.{Result, ok, err}
use insider_one_notification.Entity.{Notification}
use insider_one_notification.Worker.{DeliveryResponse}
use insider_one_notification.Webhook.{
  Http, Posts, Format, Response, request_body, to_delivery_response, read_response, after_do,
  after_new_request, after_marshal, send,
}

module _ (f : Format) (h : Http) (url : String)
    (post_law : (payload : String) (w : h.World)
      → Posts h (url, payload) w (h.do_post url payload w)) where
  -- The one POST of a notification.
  abbrev pub IsPosted : Notification → h.World → h.World → Type 0
  IsPosted n w w' =
      (payload : String) × (f.marshal (request_body n) ≡ ok payload)
      × (h.posts w' ≡ h.posts w ++ (url, payload) ∷ [])

  -- A success is a 2xx answer to the one POST, read in full. After an error there was at most one POST.
  abbrev pub SendOutcome : Notification → h.World → Result DeliveryResponse × h.World → Type 0
  SendOutcome n w (ok resp, w') =
      IsPosted n w w'
      × ((payload : String) × (answer : Response) × (text : String) × (h.do_post url payload w
            ≡ (ok answer, w'))
          × (answer.body ≡ ok text)
          × (200 ≤ answer.status_code)
          × (answer.status_code < 300)
          × (resp ≡ to_delivery_response f h (h.now w') (f.unmarshal text)))
  SendOutcome n w (err e, w') = (h.posts w' ≡ h.posts w) ⊎ IsPosted n w w'

  read_outcome :
      (n : Notification) (payload : String) (w w' : h.World) (answer : Response)
      (body : Result String)
      → answer.body ≡ body
      → h.do_post url payload w ≡ (ok answer, w')
      → IsPosted n w w'
      → SendOutcome n w (read_response f h (h.now w') answer.status_code body, w')
  unfolding read_response
  read_outcome n payload w w' answer (err e) read answered posted = inr posted
  read_outcome n payload w w' answer (ok text) read answered posted =
      elim (Bool-cases (ltb answer.status_code 200 || leb 300 answer.status_code)) [
        | inl failure ↦ rw failure (inr posted)
        | inr success ↦ rw success (
          posted,
          (
            payload,
            answer,
            text,
            answered,
            read,
            ground (arith, success),
            ground (arith, success),
            refl,
          ),
        )
      ]

  do_outcome :
      (n : Notification) (payload : String) (w : h.World) (out : Result Response × h.World)
      → h.do_post url payload w ≡ out
      → f.marshal (request_body n) ≡ ok payload
      → Posts h (url, payload) w out
      → SendOutcome n w (after_do f h out)
  unfolding after_do
  do_outcome n payload w (err e, w') same text (inl unposted) = inl unposted
  do_outcome n payload w (err e, w') same text (inr posted) = inr (payload, text, posted)
  do_outcome n payload w (ok answer, w') same text posted =
      read_outcome n payload w w' answer answer.body refl same (payload, text, posted)

  request_outcome :
      (n : Notification) (payload : String) (w : h.World) (created : Option Error)
      → f.marshal (request_body n) ≡ ok payload
      → SendOutcome n w (after_new_request f h url payload w created)
  unfolding after_new_request
  request_outcome n payload w (some e) text = inl refl
  request_outcome n payload w none text =
      do_outcome n payload w (h.do_post url payload w) refl text (post_law payload w)

  marshal_outcome :
      (n : Notification) (w : h.World) (text : Result String)
      → f.marshal (request_body n) ≡ text
      → SendOutcome n w (after_marshal f h url w text)
  unfolding after_marshal
  marshal_outcome n w (err e) same = inl refl
  marshal_outcome n w (ok payload) same = request_outcome n payload w (h.new_request url) same

  pub send_outcome : (n : Notification) (w : h.World) → SendOutcome n w (send f h url n w)
  unfolding send
  send_outcome n w = marshal_outcome n w (f.marshal (request_body n)) refl
