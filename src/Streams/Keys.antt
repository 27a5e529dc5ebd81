-- ===== src/Streams/Keys.antt =====
-- The names of the streams.
use insider_one_notification.Prelude.{
  ◌≡◌, refl, sym, ap, ◌∙◌, true, String, List, [], ◌∷◌, str_eq, if◌then◌else◌,
}
use insider_one_notification.Entity.Channels.{Channel, sms, email, push, other_channel}
use insider_one_notification.Entity.Channels
use insider_one_notification.Entity.Priorities.{Priority, high, normal, low, other_priority}
use insider_one_notification.Entity.Priorities
use insider_one_notification.Streams.{stream_key}

-- The valid channels and priorities, searched by the name of the stream.
search : String → List (Channel × Priority) → Channel × Priority
unfolding stream_key Channels.to_string Priorities.to_string
search key [] = (other_channel key, other_priority key)
search key ((c, p) ∷ rest) =
    let later = search key rest in if str_eq key (stream_key c p) then (c, p) else later

owner : String → Channel × Priority
unfolding search
owner key = search key (
    (sms, high)
    ∷ (sms, normal)
    ∷ (sms, low)
    ∷ (email, high)
    ∷ (email, normal)
    ∷ (email, low)
    ∷ (push, high)
    ∷ (push, normal)
    ∷ (push, low)
    ∷ [])

owner-stream_key :
    (c : Channel) (p : Priority)
    → Channels.is_valid c ≡ true
    → Priorities.is_valid p ≡ true
    → owner (stream_key c p) ≡ (c, p)
unfolding owner search stream_key Channels.to_string Priorities.to_string Channels.is_valid
    Priorities.is_valid
owner-stream_key sms high hc hp = refl
owner-stream_key sms normal hc hp = refl
owner-stream_key sms low hc hp = refl
owner-stream_key email high hc hp = refl
owner-stream_key email normal hc hp = refl
owner-stream_key email low hc hp = refl
owner-stream_key push high hc hp = refl
owner-stream_key push normal hc hp = refl
owner-stream_key push low hc hp = refl
owner-stream_key (other_channel s) p hc hp = cc
owner-stream_key sms (other_priority s) hc hp = cc
owner-stream_key email (other_priority s) hc hp = cc
owner-stream_key push (other_priority s) hc hp = cc

-- Two valid channels with valid priorities share a stream only if they are the same channel with the
-- same priority.
pub stream_key-injective :
    (c c' : Channel) (p p' : Priority)
    → Channels.is_valid c ≡ true
    → Channels.is_valid c' ≡ true
    → Priorities.is_valid p ≡ true
    → Priorities.is_valid p' ≡ true
    → stream_key c p ≡ stream_key c' p'
    → (c ≡ c') × (p ≡ p')
stream_key-injective c c' p p' hc hc' hp hp' same =
    let e : (c, p) ≡ (c', p') =
      sym (owner-stream_key c p hc hp) ∙ ap owner same ∙ owner-stream_key c' p' hc' hp' in
    (ap (λ (x : Channel × Priority). x.0) e, ap (λ (x : Channel × Priority). x.1) e)
