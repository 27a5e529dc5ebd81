-- ===== src/Ports.antt =====
-- What the services and the workers call besides the repository: the producer of
-- internal/domain/queue/queue.go, the PubSub of internal/infrastructure/redis/pubsub.go, and Render of
-- internal/domain/service/template_service.go. A call that returns an error may have been carried out,
-- when only its reply was lost.
pub mod Sublists
use insider_one_notification.Prelude.{◌≡◌, ◌⊎◌, String, List, [], ◌∷◌, ◌++◌}
use insider_one_notification.Errors.{Error}
use insider_one_notification.Result.{Result, ok, err}
use insider_one_notification.Entity.{Notification, Status, Uuid}

-- The call appended an item, or failed and may have appended it.
abbrev pub Appends {ℓ} : {A : Type ℓ} → A → List A → Result (Unit {0}) → List A → Type ℓ
Appends a old result new =
    ((result ≡ ok tt) × (new ≡ old ++ a ∷ []))
    ⊎ ((e : Error) × (result ≡ err e) × ((new ≡ old) ⊎ (new ≡ old ++ a ∷ [])))

pub record Producer : Type 1 where
  pub Queue : Type 0
  -- All the notifications that were ever enqueued, in order.
  pub sent : Queue → List Notification
  pub enqueue : Notification → Queue → Result (Unit {0}) × Queue
  pub enqueue_appends :
      (n : Notification) (q : Queue) → Appends n (sent q) (enqueue n q).0 (sent (enqueue n q).1)

-- The JSON payloads of the service and of the worker.
pub data StatusUpdate : Type 0 where
  service_update : Uuid → Status → StatusUpdate
  worker_update : Uuid → Status → String → StatusUpdate

pub record PubSub : Type 1 where
  pub Channel : Type 0
  pub published : Channel → List StatusUpdate
  pub publish : StatusUpdate → Channel → Result (Unit {0}) × Channel
  pub publish_appends :
      (u : StatusUpdate) (c : Channel)
      → Appends u (published c) (publish u c).0 (published (publish u c).1)

-- The first list is the second one with some elements left out.
pub data IsSublist {A : Type 0} : List A → List A → Type 0 where
  none_left : IsSublist [] []
  keep : {n : A} {ms ns : List A} → IsSublist ms ns → IsSublist (n ∷ ms) (n ∷ ns)
  skip : {n : A} {ms ns : List A} → IsSublist ms ns → IsSublist ms (n ∷ ns)
