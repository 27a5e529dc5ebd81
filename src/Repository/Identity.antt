-- ===== src/Repository/Identity.antt =====
-- The identities of the rows: no operation of the repository changes one or removes a row, and no two
-- rows share an ID or an idempotency key.
use mathlib.Core.List.{map-map, map-id, map-append, append-nil, append_assoc}
use insider_one_notification.Prelude.{
  ◌≡◌, refl, sym, ap, ◌∙◌, Bool, true, false, ◌||◌, String, List, [], ◌∷◌, ◌++◌, map, any, ◌==◌,
  str_eq,
}
use insider_one_notification.Entity.{Uuid}
use insider_one_notification.Postgres.Row.{Row}
use insider_one_notification.Postgres.Server.{conflicts, clashes}

abbrev pub KeepsIdentity : Row → Row → Type 0
KeepsIdentity r r' = (r'.id ≡ r.id) × (r'.idempotency_key ≡ r.idempotency_key)

abbrev pub identities : List Row → List (Uuid × String)
identities = map (λ r. (r.id, r.idempotency_key))

-- No two rows share their ID or their key.
abbrev pub IsUnique : List Row → Type 0
IsUnique rows = clashes rows [] ≡ false

-- The rows of the old table stand at the head of the new one with their identities; the added ones
-- conflict with none.
abbrev pub Grows : List Row → List Row → Type 0
Grows old new =
    (change : Row → Row) × (added : List Row) × (new ≡ map change old ++ added)
    × ((r : Row) → KeepsIdentity r (change r))
    × (clashes added old ≡ false)

abbrev shares : Uuid × String → Uuid × String → Bool
shares (id, key) (id', key') = (id == id') || str_eq key key'

or_assoc : (a b c : Bool) → ((a || b) || c) ≡ (a || (b || c))
or_assoc true b c = refl
or_assoc false b c = refl

-- `clashes` on identities.
abbrev clash_ids : List (Uuid × String) → List (Uuid × String) → Bool
clash_ids [] old = false
clash_ids (k ∷ ks) old = any (shares k) old || clash_ids ks (old ++ k ∷ [])

any-conflicts-identities :
    (r : Row) (old : List Row)
    → any (conflicts r) old ≡ any (shares (r.id, r.idempotency_key)) (identities old)
any-conflicts-identities r [] = refl
any-conflicts-identities r (s ∷ old) = ap (λ b. conflicts r s || b) (any-conflicts-identities r old)

clashes-identities :
    (new old : List Row) → clashes new old ≡ clash_ids (identities new) (identities old)
clashes-identities [] old = refl
clashes-identities (r ∷ new) old =
    rw (any-conflicts-identities r old, clashes-identities new (old ++ r ∷ []))
      (rw (map-append {B = Uuid × String} (λ (x : Row). (x.id, x.idempotency_key)) old (r ∷ []))
        refl)

clashes-append :
    (xs ys old : List Row) → clashes (xs ++ ys) old ≡ (clashes xs old || clashes ys (old ++ xs))
clashes-append [] ys old = rw (append-nil old) refl
clashes-append (x ∷ xs) ys old =
    rw (clashes-append xs ys (old ++ x ∷ []), append_assoc old (x ∷ []) xs)
      (sym (
        or_assoc (any (conflicts x) old) (clashes xs (old ++ x ∷ [])) (clashes ys (old ++ x ∷ xs))))

identities-map :
    (change : Row → Row) (rows : List Row)
    → ((r : Row) → KeepsIdentity r (change r))
    → identities (map change rows) ≡ identities rows
identities-map change [] keeps = refl
identities-map change (r ∷ rows) keeps =
    let (id, key) = keeps r in rw (id, key, identities-map change rows keeps) refl

pub Grows-identities :
    (old new : List Row)
    → Grows old new
    → (added : List Row) × (identities new ≡ identities old ++ identities added)
Grows-identities old new (change, added, e, keeps, fresh) = (
  added,
  ap identities e
      ∙ map-append {B = Uuid × String} (λ (x : Row). (x.id, x.idempotency_key)) (map change old)
          added
      ∙ ap (λ ks. ks ++ identities added) (identities-map change old keeps),
)

pub Grows-IsUnique : (old new : List Row) → Grows old new → IsUnique old → IsUnique new
Grows-IsUnique old new (change, added, e, keeps, fresh) unique =
    let same = identities-map change old keeps in
    let kept : clashes (map change old) [] ≡ false =
      clashes-identities (map change old) [] ∙ rw same (sym (clashes-identities old []) ∙ unique) in
    let apart : clashes added (map change old) ≡ false =
      clashes-identities added (map change old)
      ∙ rw same (sym (clashes-identities added old) ∙ fresh) in
    ap (λ rows. clashes rows []) e
    ∙ clashes-append (map change old) added []
    ∙ rw (kept, apart) refl

-- A step that adds no rows, after one that may have.
pub Grows-then :
    (old mid new : List Row) (change' : Row → Row)
    → Grows old mid
    → new ≡ map change' mid
    → ((r : Row) → KeepsIdentity r (change' r))
    → Grows old new
Grows-then old mid new change' (change, added, e, keeps, fresh) e' keeps' = (
  λ r. change' (change r),
  map change' added,
  e'
      ∙ ap (map change') e
      ∙ map-append change' (map change old) added
      ∙ ap (λ rows. rows ++ map change' added) (map-map change' change old),
  λ r. let (id, key) = keeps r in let (id', key') = keeps' (change r) in (id' ∙ id, key' ∙ key),
  clashes-identities (map change' added) old
      ∙ rw (identities-map change' added keeps') (sym (clashes-identities added old) ∙ fresh),
)

pub Grows-added :
    (old new added : List Row) → new ≡ old ++ added → clashes added old ≡ false → Grows old new
Grows-added old new added e fresh =
    (λ r. r, added, e ∙ ap (λ rows. rows ++ added) (sym (map-id old)), λ r. (refl, refl), fresh)

pub Grows-same : (old new : List Row) → new ≡ old → Grows old new
Grows-same old new e = Grows-added old new [] (e ∙ sym (append-nil old)) refl

pub identities-append : (xs ys : List Row) → identities (xs ++ ys) ≡ identities xs ++ identities ys
identities-append = map-append {B = Uuid × String} (λ (x : Row). (x.id, x.idempotency_key))
