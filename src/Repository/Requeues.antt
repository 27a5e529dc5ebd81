-- ===== src/Repository/Requeues.antt =====
-- What updates to the queued status, one after the other, do to the table.
use mathlib.Core.List.{map-map, map-id}
use insider_one_notification.Prelude.{
  ◌≡◌, refl, sym, ap, ◌∙◌, ◌⊎◌, inl, inr, Bool, true, false, Bool-cases, none, List, [], ◌∷◌, map,
  All,
}
use insider_one_notification.Postgres.Transactions.Fetch.{is_one_of}
use insider_one_notification.Entity.{Notification, queued, Uuid, Time}
use insider_one_notification.Postgres.Row.{Row}
use insider_one_notification.Postgres.Server.{updated}
use insider_one_notification.Postgres.Clauses.{has_id, set_status}

abbrev pub MayQueue : Row → Row → Type 0
MayQueue r r' = (r' ≡ r) ⊎ ((t : Time) × (r' ≡ record r { status = queued; updated_at = t }))

-- The rows stay where they are; those that do not pass the test are as they were, and the others differ
-- at most by being queued now.
abbrev pub Requeues : (Row → Bool) → List Row → List Row → Type 0
Requeues test old new =
    (change : Row → Row) × (new ≡ map change old)
    × ((r : Row) → test r ≡ false → change r ≡ r)
    × ((r : Row) → MayQueue r (change r))

pub queue_twice : (r a b : Row) → MayQueue r a → MayQueue a b → MayQueue r b
queue_twice r a b (inl x) (inl y) = inl (y ∙ x)
queue_twice r a b (inr (t, x)) (inl y) = inr (t, y ∙ x)
queue_twice r a b (inl x) (inr (t, y)) =
    inr (t, y ∙ ap (λ (z : Row). record z { status = queued; updated_at = t }) x)
queue_twice r a b (inr (u, x)) (inr (t, y)) =
    inr (t, y ∙ ap (λ (z : Row). record z { status = queued; updated_at = t }) x)

pub Requeues-same : (test : Row → Bool) (old new : List Row) → new ≡ old → Requeues test old new
Requeues-same test old new same = (λ r. r, same ∙ sym (map-id old), λ r h. refl, λ r. inl refl)

pub Requeues-then :
    (test : Row → Bool) (old mid new : List Row)
    → Requeues test old mid
    → Requeues test mid new
    → Requeues test old new
Requeues-then test old mid new (f, moved, others, this) (g, moved', others', this') = (
  λ r. g (f r),
  moved' ∙ ap (map g) moved ∙ map-map g f old,
  λ r h. ap g (others r h) ∙ others' r h,
  λ r. queue_twice r (f r) (g (f r)) (this r) (this' (f r)),
)

queues :
    (id : Uuid) (now t : Time) (r : Row)
    → MayQueue r (updated t (has_id id) (set_status queued none none now) r)
queues id now t r = elim (Bool-cases (has_id id r)) [
  | inl hit ↦ rw hit (inr (t, refl))
  | inr miss ↦ rw miss (inl refl)
]

pub Requeues-update :
    (id : Uuid) (test : Row → Bool) (old new : List Row) (now t : Time)
    → ((r : Row) → has_id id r ≡ true → test r ≡ true)
    → new ≡ map (updated t (has_id id) (set_status queued none none now)) old
    → Requeues test old new
Requeues-update id test old new now t inside e = (
  updated t (has_id id) (set_status queued none none now),
  e,
  λ r h. elim (Bool-cases (has_id id r)) [
    | inl hit ↦ let found = inside r hit in absurd cc
    | inr miss ↦ rw miss refl
  ],
  queues id now t,
)

-- A row of the notification passes the test.
abbrev pub Inside : (Row → Bool) → Notification → Type 0
Inside test n = (r : Row) → has_id n.id r ≡ true → test r ≡ true

pub Inside-All :
    (test : Row → Bool) (ns : List Notification)
    → ((r : Row) → is_one_of ns r ≡ true → test r ≡ true)
    → All (Inside test) ns
Inside-All test [] within = tt
Inside-All test (n ∷ ns) within = (
  λ r h. within r (rw h refl),
  Inside-All test ns (λ r h.
      within r
        (elim (Bool-cases (has_id n.id r)) [ inl hit ↦ rw hit refl | inr miss ↦ rw miss h ])),
)
