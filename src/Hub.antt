-- ===== src/Hub.antt =====
-- internal/delivery/websocket/hub.go: the register, unregister and message branches of the event loop,
-- broadcast and Stop, one after the other as the lock orders them. A client is a number, the map of
-- clients a list of them. Sending on a closed channel and closing it again panic: then there is no state.
pub mod Broadcast
pub mod Registry
use insider_one_notification.Prelude.{
  ℕ, Bool, true, false, not, Option, none, some, String, List, [], ◌∷◌, ◌++◌, ltb, length, any,
  select, if◌then◌else◌, ◌==◌,
}

-- The channel `send` of a client: what its writer has not taken yet.
pub record SendChannel : Type 0 where
  pub buffer : List String
  pub closed : Bool

pub record Hub : Type 0 where
  pub clients : List ℕ
  pub sends : ℕ → SendChannel

abbrev pub send_buffer_size : ℕ
send_buffer_size = 256

abbrev pub has_room : SendChannel → Bool
has_room s = ltb (length s.buffer) send_buffer_size

abbrev pub is_registered : ℕ → List ℕ → Bool
is_registered client clients = any (λ c. c == client) clients

abbrev pub with_send : ℕ → SendChannel → Hub → Hub
with_send client s h = record h { sends = λ c. if c == client then s else h.sends c }

unfoldable pub delete : ℕ → Hub → Hub
delete client h = record h { clients = select (λ c. not (c == client)) h.clients }

-- `close(client.send)`
unfoldable pub close : ℕ → Hub → Option Hub
close client h =
    let s = h.sends client in
    if s.closed then none else some (with_send client (record s { closed = true }) h)

unfoldable pub register : ℕ → Hub → Hub
register client h =
    if is_registered client h.clients then h else record h { clients = h.clients ++ client ∷ [] }

unfoldable pub unregister : ℕ → Hub → Option Hub
unregister client h =
    if is_registered client h.clients then close client (delete client h) else some h

-- After a panic nothing runs.
abbrev pub and_then : Option Hub → (Hub → Option Hub) → Option Hub
and_then none next = none
and_then (some h) next = next h

-- The select of broadcast: `case client.send <- msg`, which is ready when there is room, and `default`.
unfoldable pub offer : String → ℕ → Hub → Option Hub
offer msg client h =
    let s = h.sends client in
    if s.closed
    then none
    else if has_room s
    then some (with_send client (record s { buffer = s.buffer ++ msg ∷ [] }) h)
    else close client (delete client h)

unfoldable pub offer_all : String → List ℕ → Hub → Option Hub
offer_all msg [] h = some h
offer_all msg (c ∷ cs) h = and_then (offer msg c h) (λ h'. offer_all msg cs h')

unfoldable pub broadcast : String → Hub → Option Hub
broadcast msg h = offer_all msg h.clients h

unfoldable pub stop_all : List ℕ → Hub → Option Hub
stop_all [] h = some h
stop_all (c ∷ cs) h = and_then (close c h) (λ h'. stop_all cs (delete c h'))

unfoldable pub stop : Hub → Option Hub
stop h = stop_all h.clients h
