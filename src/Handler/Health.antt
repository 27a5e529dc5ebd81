-- ===== src/Handler/Health.antt =====
-- internal/delivery/handler/health_handler.go and its responses in internal/delivery/handler/dto.go. What each Ping
-- returns within the timeout is an argument; the checkers come in the order in which Go ranges over the map.
use mathlib.Core.Option.{none-ne-some}
use Prim.Native.String.{◌++◌ as ◌+++◌}
use insider_one_notification.Prelude.{
  ℕ, ◌≡◌, ◌≢◌, refl, sym, ap, ◌∙◌, ◌↔◌, arith, true≢false, String, Bool, true, false, Option, none,
  some, List, [], ◌∷◌, All, if◌then◌else◌,
}
use insider_one_notification.Errors.{Error}

pub record HealthResponse : Type 0 where
  pub status : String

pub record ReadyResponse : Type 0 where
  pub status : String
  pub services : List (String × String)

abbrev pub liveness : ℕ × HealthResponse
liveness = (200, record { status = "ok" })

module _ (error_text : Error → String) where
  abbrev pub service_text : Option Error → String
  service_text (some e) = "unhealthy: " +++ error_text e
  service_text none = "ok"

  unfoldable pub probe : List (String × Option Error) → Bool → List (String × String) × Bool
  probe [] all_healthy = ([], all_healthy)
  probe ((name, some e) ∷ rest) all_healthy =
      let (services, healthy) = probe rest false in
      ((name, service_text (some e)) ∷ services, healthy)
  probe ((name, none) ∷ rest) all_healthy =
      let (services, healthy) = probe rest all_healthy in
      ((name, service_text none) ∷ services, healthy)

  abbrev http_status : Bool → ℕ
  http_status all_healthy = if all_healthy then 200 else 503

  unfoldable pub readiness : List (String × Option Error) → ℕ × ReadyResponse
  readiness pings =
      let (services, all_healthy) = probe pings true in
      (
        http_status all_healthy,
        record { status = if all_healthy then "ok" else "degraded"; services = services },
      )

  abbrev pub IsUp : String × Option Error → Type 0
  IsUp ping = ping.1 ≡ none

  probe-false : (pings : List (String × Option Error)) → (probe pings false).1 ≡ false
  unfolding probe
  probe-false [] = refl
  probe-false ((name, some e) ∷ rest) = probe-false rest
  probe-false ((name, none) ∷ rest) = probe-false rest

  All-probe : (pings : List (String × Option Error)) → (probe pings true).1 ≡ true → All IsUp pings
  unfolding probe
  All-probe [] healthy = tt
  All-probe ((name, some e) ∷ rest) healthy = absurd (true≢false (sym healthy ∙ probe-false rest))
  All-probe ((name, none) ∷ rest) healthy = (refl, All-probe rest healthy)

  probe-All : (pings : List (String × Option Error)) → All IsUp pings → (probe pings true).1 ≡ true
  unfolding probe
  probe-All [] up = refl
  probe-All ((name, some e) ∷ rest) (up, later) = absurd (none-ne-some e (sym up))
  probe-All ((name, none) ∷ rest) (up, later) = probe-All rest later

  unavailable : http_status false ≢ http_status true
  unavailable = omega arith

  status_true : (b : Bool) → http_status b ≡ 200 → b ≡ true
  status_true true same = refl
  status_true false same = absurd (unavailable same)

  -- The readiness probe answers 200 exactly when the Ping of every dependency returned nil.
  pub readiness-200 :
      (pings : List (String × Option Error)) → (readiness pings).0 ≡ 200 ↔ All IsUp pings
  unfolding readiness
  readiness-200 pings = (
    λ same. All-probe pings (status_true (probe pings true).1 same),
    λ up. ap http_status (probe-All pings up),
  )
