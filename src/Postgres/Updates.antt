-- ===== src/Postgres/Updates.antt =====
-- The statements UPDATE of internal/infrastructure/postgres/notification_repository.go in words: which rows
-- a WHERE clause means, and what becomes of the columns of such a row.
use mathlib.Core.List.{Memᴰ}
use insider_one_notification.Prelude.{
  ◌+◌, ◌*◌, ◌/◌, ◌≡◌, ◌≢◌, refl, sym, ap, ◌∙◌, ◌⊎◌, ◌↔◌, ◌||◌, ◌&&◌, inl, inr, Bool, true, false,
  Bool-cases, true≢false, Option, none, some, String, List, [], ◌∷◌, map, select, arith, ◌==◌,
}
use insider_one_notification.Entity.{
  Status, pending, queued, processing, delivered, failed, cancelled, Uuid, Time,
}
use insider_one_notification.Entity.Statuses.{other_status, is_pending, is_queued}
use insider_one_notification.Postgres.Row.{Row, stored_at}
use insider_one_notification.Postgres.Server.{updated}
use insider_one_notification.Postgres.Clauses.{
  coalesce, is_cancellable, has_id, set_status, set_cancelled, set_attempted,
}

-- The rows that are hit change as `Change` says, the others stay as they are.
abbrev pub Writes : (Row → Type 0) → (Row → Row → Type 0) → List Row → List Row → Type 0
Writes Hit Change old new =
    (change : Row → Row) × (new ≡ map change old)
    × ((r : Row) → Hit r → Change r (change r))
    × ((r : Row) → ¬ (Hit r) → change r ≡ r)

-- Some row is hit.
abbrev pub Hits : (Row → Type 0) → List Row → Type 0
Hits Hit rs = (r : Row) × Memᴰ r rs × Hit r

abbrev pub HasId : Uuid → Row → Type 0
HasId id r = r.id ≡ id

abbrev pub IsCancellable : Uuid → Row → Type 0
IsCancellable id r = (r.id ≡ id) × ((r.status ≡ pending) ⊎ (r.status ≡ queued))

abbrev pub IsCancelled : Row → Row → Type 0
IsCancelled r r' = r' ≡ record r { status = cancelled; updated_at = r'.updated_at }

-- A column that is written if there is a new value, and else kept.
abbrev pub IsGiven : Option String → Option String → Option String → Type 0
IsGiven new old now = ((s : String) → new ≡ some s → now ≡ some s) × (new ≡ none → now ≡ old)

abbrev pub HasStatus : Status → Option String → Option String → Row → Row → Type 0
HasStatus status provider_msg_id err_msg r r' =
    (r' ≡ record r {
      status = status;
      provider_message_id = r'.provider_message_id;
      error_message = r'.error_message;
      updated_at = r'.updated_at;
    })
    × IsGiven provider_msg_id r.provider_message_id r'.provider_message_id
    × IsGiven err_msg r.error_message r'.error_message

abbrev pub IsAttempted : Option Time → Time → Row → Row → Type 0
IsAttempted next_retry_at now r r' =
    (r' ≡ record r {
      attempts = r.attempts + 1;
      last_attempt_at = some (now / 1000 * 1000);
      next_retry_at = r'.next_retry_at;
      updated_at = r'.updated_at;
    })
    × ((t : Time) → next_retry_at ≡ some t → r'.next_retry_at ≡ some (t / 1000 * 1000))
    × (next_retry_at ≡ none → r'.next_retry_at ≡ none)

pub has_id-HasId : (id : Uuid) (r : Row) → (has_id id r ≡ true) ↔ HasId id r
has_id-HasId id r = (λ h. ground arith, λ h. ground arith)

is_open_lem : (s : Status) → (is_pending s || is_queued s) ≡ true → (s ≡ pending) ⊎ (s ≡ queued)
is_open_lem pending h = inl refl
is_open_lem queued h = inr refl
is_open_lem processing h = cc
is_open_lem delivered h = cc
is_open_lem failed h = cc
is_open_lem cancelled h = cc
is_open_lem (other_status text) h = cc

and_parts : (a b : Bool) → (a && b) ≡ true → (a ≡ true) × (b ≡ true)
and_parts true b h = (refl, h)
and_parts false b h = cc

pub is_cancellable-IsCancellable :
    (id : Uuid) (r : Row) → (is_cancellable id r ≡ true) ↔ IsCancellable id r
is_cancellable-IsCancellable id r = (
  λ h.
      let (same, is_open) = and_parts (r.id == id) (is_pending r.status || is_queued r.status) h in
      ((has_id-HasId id r).0 same, is_open_lem r.status is_open),
  λ (same, is_open).
      rw ((has_id-HasId id r).1 same) (elim is_open [ inl e ↦ rw e refl | inr e ↦ rw e refl ]),
)

coalesce-IsGiven : (new old : Option String) → IsGiven new old (coalesce new old)
coalesce-IsGiven none old = (λ s e. cc, λ e. refl)
coalesce-IsGiven (some s) old = (λ s' e. e, λ e. cc)

pub set_status-HasStatus :
    (status : Status) (provider_msg_id err_msg : Option String) (now t : Time) (r : Row)
    → HasStatus status provider_msg_id err_msg r
        (record (set_status status provider_msg_id err_msg now r) { updated_at = t })
set_status-HasStatus status provider_msg_id err_msg now t r = (
  refl,
  coalesce-IsGiven provider_msg_id r.provider_message_id,
  coalesce-IsGiven err_msg r.error_message,
)

pub set_cancelled-IsCancelled :
    (now t : Time) (r : Row) → IsCancelled r (record (set_cancelled now r) { updated_at = t })
set_cancelled-IsCancelled now t r = refl

pub set_attempted-IsAttempted :
    (next_retry_at : Option Time) (now t : Time) (r : Row)
    → IsAttempted next_retry_at now r
        (record (set_attempted next_retry_at now r) { updated_at = t })
set_attempted-IsAttempted next_retry_at now t r = (refl, λ u e. ap stored_at e, λ e. ap stored_at e)

pub updated-Writes :
    (Hit : Row → Type 0) (Change : Row → Row → Type 0) (t : Time) (matches : Row → Bool)
    (assign : Row → Row) (old new : List Row)
    → ((r : Row) → (matches r ≡ true) ↔ Hit r)
    → ((r : Row) → Change r (record (assign r) { updated_at = t }))
    → new ≡ map (updated t matches assign) old
    → Writes Hit Change old new
updated-Writes Hit Change t matches assign old new meant done changed = (
  updated t matches assign,
  changed,
  λ r hit. rw ((meant r).1 hit) (done r),
  λ r other. elim (Bool-cases (matches r)) [
    | inl hit ↦ absurd (other ((meant r).0 hit))
    | inr miss ↦ rw miss refl
  ],
)

pub select-Hits :
    (Hit : Row → Type 0) (matches : Row → Bool) (rs : List Row)
    → ((r : Row) → (matches r ≡ true) ↔ Hit r)
    → select matches rs ≢ []
    → Hits Hit rs
select-Hits Hit matches [] meant some_hit = absurd (some_hit refl)
select-Hits Hit matches (r ∷ rs) meant some_hit = elim (Bool-cases (matches r)) [
  | inl hit ↦ (r, Memᴰ.head refl, (meant r).0 hit)
  | inr miss ↦
      let (x, m, h) = select-Hits Hit matches rs meant (rw miss at some_hit) in (x, Memᴰ.tail m, h)
]

pub select-none :
    (Hit : Row → Type 0) (matches : Row → Bool) (rs : List Row)
    → ((r : Row) → (matches r ≡ true) ↔ Hit r)
    → select matches rs ≡ []
    → ¬ (Hits Hit rs)
select-none Hit matches [] meant no_hit (x, m, h) = elim m [ ]
select-none Hit matches (r ∷ rs) meant no_hit (x, m, h) = elim (Bool-cases (matches r)) [
  | inl hit ↦ cc (rw hit at no_hit)
  | inr miss ↦ elim m [
    | Memᴰ.head p ↦ absurd (true≢false (sym ((meant r).1 (rw (sym p) h)) ∙ miss))
    | Memᴰ.tail later ↦ select-none Hit matches rs meant (rw miss at no_hit) (x, later, h)
  ]
]
