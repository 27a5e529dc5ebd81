-- ===== src/Worker/Effects.antt =====
-- What the updates of one row, one after the other, do to the table.
use mathlib.Core.List.{map-map, map-id}
use insider_one_notification.Prelude.{
  ◌+◌, ◌≡◌, refl, sym, ap, ◌∙◌, true, false, Option, some, String, List, map,
}
use insider_one_notification.Entity.{delivered, failed, Uuid, Time}
use insider_one_notification.Postgres.Row.{Row, stored_at}
use insider_one_notification.Postgres.Server.{updated}
use insider_one_notification.Postgres.Clauses.{has_id}
use insider_one_notification.Repository.Identity.{KeepsIdentity}

-- The rows stay where they are, those of other notifications as they were; P relates the row of the
-- notification before and after.
abbrev pub Becomes : Uuid → (Row → Row → Type 0) → List Row → List Row → Type 0
Becomes id P old new =
    (change : Row → Row) × (new ≡ map change old)
    × ((r : Row) → has_id id r ≡ false → change r ≡ r)
    × ((r : Row) → has_id id r ≡ true → P r (change r))

-- The ID and the idempotency key are as they were.
abbrev pub Whatever : Row → Row → Type 0
Whatever r r' = KeepsIdentity r r'

-- The counters are as they were.
abbrev pub Keeps : Row → Row → Type 0
Keeps r r' = KeepsIdentity r r' × (r'.attempts ≡ r.attempts) × (r'.max_attempts ≡ r.max_attempts)

abbrev pub Counts : Option Time → Row → Row → Type 0
Counts next_retry_at r r' =
    KeepsIdentity r r'
    × (r'.attempts ≡ r.attempts + 1)
    × (r'.max_attempts ≡ r.max_attempts)
    × (r'.next_retry_at ≡ stored_at next_retry_at)

abbrev pub IsDeliveredFrom : String → Row → Row → Type 0
IsDeliveredFrom message_id r r' =
    KeepsIdentity r r'
    × (r'.status ≡ delivered)
    × (r'.provider_message_id ≡ some message_id)
    × (r'.attempts ≡ r.attempts)

abbrev pub IsFailedFrom : String → Option Time → Row → Row → Type 0
IsFailedFrom err_msg next_retry_at r r' =
    KeepsIdentity r r'
    × (r'.status ≡ failed)
    × (r'.error_message ≡ some err_msg)
    × (r'.attempts ≡ r.attempts + 1)
    × (r'.max_attempts ≡ r.max_attempts)
    × (r'.next_retry_at ≡ stored_at next_retry_at)

pub Becomes-weaker :
    (id : Uuid) (P Q : Row → Row → Type 0) (old new : List Row)
    → ((r r' : Row) → P r r' → Q r r')
    → Becomes id P old new
    → Becomes id Q old new
Becomes-weaker id P Q old new weaker (change, moved, others, this) =
    (change, moved, others, λ r h. weaker r (change r) (this r h))

pub Becomes-same :
    (id : Uuid) (P : Row → Row → Type 0)
    → ((r : Row) → P r r)
    → (old new : List Row) → new ≡ old
    → Becomes id P old new
Becomes-same id P same_row old new same =
    (λ r. r, same ∙ sym (map-id old), λ r h. refl, λ r h. same_row r)

-- One UPDATE after another.
pub Becomes-then :
    (id : Uuid) (P Q : Row → Row → Type 0) (old mid new : List Row) (t : Time) (assign : Row → Row)
    → ((r r' : Row) → has_id id r' ≡ true → P r r' → Q r (record (assign r') { updated_at = t }))
    → ((r r' : Row) → P r r' → KeepsIdentity r r')
    → Becomes id P old mid
    → new ≡ map (updated t (has_id id) assign) mid
    → Becomes id Q old new
Becomes-then id P Q old mid new t assign next same_id (change, moved, others, this) e =
    let u = updated t (has_id id) assign in
    let joined : new ≡ map (λ r. u (change r)) old = e ∙ ap (map u) moved ∙ map-map u change old in
    (
      λ r. u (change r),
      joined,
      λ r h. rw (others r h) (rw h refl),
      λ r h.
          let p = this r h in
          let hit : has_id id (change r) ≡ true = rw ((same_id r (change r) p).0) h in
          rw hit (next r (change r) hit p),
    )
