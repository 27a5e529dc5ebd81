-- ===== src/Examples/WebRuns.antt =====
-- A hub with two clients, an error that was wrapped twice, and a query.
use insider_one_notification.Prelude.{
  ℕ, ◌≤◌, ◌<◌, ◌≡◌, refl, false, ◌&&◌, not, ◌==◌, Option, none, some, String, [], ◌∷◌, str_eq,
  if◌then◌else◌,
}
use insider_one_notification.Prelude.Int.{ℤ, pos}
use insider_one_notification.Errors.{Error, wrap, sentinel, duplicate_idempotency_key}
use insider_one_notification.Hub.{Hub, has_room, is_registered, unregister, broadcast}
use insider_one_notification.Hub.Broadcast.{IsDistinct, AreOpen, offered, broadcast_outcome}
use insider_one_notification.Hub.Registry.{unregister_outcome}
use insider_one_notification.Handler.{parse_pagination, max_limit}
use insider_one_notification.Handler.ErrorStatus.{
  status_at, status_of, cause, map_domain_error_status,
}
use insider_one_notification.Handler.Pagination.{parse_pagination_bounds}

abbrev two_clients : Hub
two_clients = record { clients = 1 ∷ 2 ∷ []; sends = λ c. record { buffer = []; closed = false } }

broadcast_outcome_example :
    (h' : Hub) × (broadcast "update" two_clients ≡ some h')
    × ((d : ℕ)
        → h'.sends d ≡ (
            if is_registered d two_clients.clients
            then offered "update" (two_clients.sends d)
            else two_clients.sends d))
    × ((d : ℕ)
        → is_registered d h'.clients
          ≡ (is_registered d two_clients.clients && has_room (two_clients.sends d)))
    × AreOpen h'.sends h'.clients
broadcast_outcome_example = broadcast_outcome "update" two_clients (refl, (refl, tt)) (λ c h. refl)

abbrev no_text : Error → String
no_text e = ""

abbrev duplicate : Error
duplicate = wrap "handler" (wrap "persisting notification" (sentinel duplicate_idempotency_key))

map_domain_error_status_example : status_at no_text duplicate ≡ status_of (cause duplicate)
map_domain_error_status_example = map_domain_error_status no_text duplicate

abbrev only_500 : String → Option ℤ
only_500 v = if str_eq v "500" then some (pos 500) else none

parse_pagination_bounds_example :
    (0 < (parse_pagination only_500 "" "500").1)
    × ((parse_pagination only_500 "" "500").1 ≤ max_limit)
    × ((n : ℕ)
        → only_500 "" ≡ some (pos n)
        → str_eq "" "" ≡ false
        → (parse_pagination only_500 "" "500").0 ≡ n)
    × ((n : ℕ)
        → only_500 "500" ≡ some (pos n)
        → str_eq "500" "" ≡ false
        → 0 < n
        → n ≤ max_limit
        → (parse_pagination only_500 "" "500").1 ≡ n)
parse_pagination_bounds_example = parse_pagination_bounds only_500 "" "500"

unregister_outcome_example :
    (h' : Hub) × (unregister 2 two_clients ≡ some h')
    × ((d : ℕ) → is_registered d h'.clients ≡ (is_registered d two_clients.clients && not (d == 2)))
    × IsDistinct h'.clients
    × AreOpen h'.sends h'.clients
    × (unregister 2 h' ≡ some h')
unregister_outcome_example = unregister_outcome 2 two_clients (refl, (refl, tt)) (λ c h. refl)
