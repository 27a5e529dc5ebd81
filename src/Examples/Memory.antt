-- ===== src/Examples/Memory.antt =====
-- A database server that keeps its table in a list and never fails, a JSON codec, and queues that are
-- lists: what the interfaces promise can be kept.
use mathlib.Core.List.{Memᴰ}
use insider_one_notification.Prelude.{
  ℕ, zero, suc, ◌≤◌, ◌≡◌, refl, sym, Bool, true, false, Bool-cases, inl, inr, Option, none, some,
  String, List, [], ◌∷◌, ◌++◌, map, length, take, select, All, length-take-le, if◌then◌else◌,
  str_eq,
}
use insider_one_notification.Errors.{Error, pg_error, plain}
use insider_one_notification.Result.{Result, ok, err, ok-injective, ok≢err}
use insider_one_notification.Entity.{Notification, Vars}
use insider_one_notification.Postgres.Row.{Row, Json}
use insider_one_notification.Postgres.Server.{Server, clashes, updated}
use insider_one_notification.Ports.{Producer, PubSub, StatusUpdate}

abbrev pub Table : Type 0
Table = List Row

abbrev pub insert : List Row → Table → Result (Unit {0}) × Table
insert new db = if clashes new db then (err (pg_error "23505"), db) else (ok tt, db ++ new)

abbrev pub find : (Row → Bool) → Table → Option Row
find matches [] = none
find matches (r ∷ rs) = if matches r then some r else find matches rs

pub find-some :
    (matches : Row → Bool) (rs : Table) (r : Row)
    → find matches rs ≡ some r
    → (matches r ≡ true) × Memᴰ r rs
find-some matches [] r h = cc
find-some matches (x ∷ rs) r h = elim (Bool-cases (matches x)) [
  | inl hit ↦
      let e : some x ≡ some r = rw hit at h in
      let same : x ≡ r = cc in (rw (sym same) hit, Memᴰ.head (sym same))
  | inr miss ↦ let (hit, m) = find-some matches rs r (rw miss at h) in (hit, Memᴰ.tail m)
]

pub find-none :
    (matches : Row → Bool) (rs : Table) → find matches rs ≡ none → select matches rs ≡ []
find-none matches [] h = refl
find-none matches (x ∷ rs) h = elim (Bool-cases (matches x)) [
  | inl hit ↦ let e : some x ≡ none = rw hit at h in cc
  | inr miss ↦ rw miss (find-none matches rs (rw miss at h))
]

pub insert_ok :
    (new db : Table)
    → (insert new db).0 ≡ ok tt
    → ((insert new db).1 ≡ db ++ new) × (clashes new db ≡ false)
insert_ok new db h = elim (Bool-cases (clashes new db)) [
  | inl clash ↦
      let e : ◌≡◌ {A = Result (Unit {0})} (err (pg_error "23505")) (ok tt) = rw clash at h in cc
  | inr fresh ↦ (rw fresh, fresh)
]

pub insert_err : (new db : Table) (e : Error) → (insert new db).0 ≡ err e → (insert new db).1 ≡ db
insert_err new db e h = elim (Bool-cases (clashes new db)) [
  | inl clash ↦ rw clash
  | inr fresh ↦ let e' : ◌≡◌ {A = Result (Unit {0})} (ok tt) (err e) = rw fresh at h in cc
]

abbrev pub Selected : (Row → Bool) → Table → Row → Type 0
Selected matches db r = (matches r ≡ true) × Memᴰ r db

select-All :
    (matches : Row → Bool) (db rs : Table)
    → ((r : Row) → Memᴰ r rs → Memᴰ r db)
    → All (Selected matches db) (select matches rs)
select-All matches db [] sub = tt
select-All matches db (r ∷ rs) sub =
    let rest = select-All matches db rs (λ x m. sub x (Memᴰ.tail m)) in
    elim (Bool-cases (matches r)) [
      | inl hit ↦ rw hit ((hit, sub r (Memᴰ.head refl)), rest)
      | inr miss ↦ rw miss rest
    ]

take-All : (P : Row → Type 0) (n : ℕ) (rs : Table) → All P rs → All P (take n rs)
take-All P zero rs all = tt
take-All P (suc n) [] all = tt
take-All P (suc n) (r ∷ rs) (p, all) = (p, take-All P n rs all)

pub lock_ok :
    (matches : Row → Bool) (limit : ℕ) (db found : Table)
    → ok (take limit (select matches db)) ≡ ok found
    → All (Selected matches db) found × (length found ≤ limit)
lock_ok matches limit db found h = rw (sym (ok-injective h)) (
  take-All (Selected matches db) limit (select matches db) (select-All matches db db (λ r m. m)),
  length-take-le limit (select matches db),
)

-- Both clocks show 100.
abbrev pub memory : Server
memory = record {
  Db = Table;
  rows = λ db. db;
  now = λ db. 100;
  server_now = λ db. 100;
  insert = insert;
  update =
      λ matches assign db. (ok (length (select matches db)), map (updated 100 matches assign) db);
  query_row = λ matches db. (ok (find matches db), db);
  lock_rows = λ matches column limit db. (ok (take limit (select matches db)), db);
  begin = λ db. (ok tt, db);
  commit = λ before inside. (ok tt, inside);
  rollback = λ before inside. before;
  insert_ok = insert_ok;
  insert_err = insert_err;
  update_ok = λ matches assign db affected h. (refl, sym (ok-injective h));
  update_err = λ matches assign db e h. absurd (ok≢err h);
  query_row_rows = λ matches db. refl;
  query_row_some = λ matches db r h. find-some matches db r (ok-injective h);
  query_row_none = λ matches db h. find-none matches db (ok-injective h);
  lock_rows_rows = λ matches column limit db. refl;
  lock_rows_ok = λ matches column limit db found h. lock_ok matches limit db found h;
  begin_rows = λ db. refl;
  commit_ok = λ before inside h. refl;
  commit_err = λ before inside e h. absurd (ok≢err h);
  rollback_rows = λ before inside. refl;
}

-- The empty map is all that the codec writes.
abbrev pub marshal : Vars → Result String
marshal [] = ok "{}"
marshal (v ∷ vars) = err (plain "unsupported")

pub marshal_back :
    (vars : Vars) (text : String) → marshal vars ≡ ok text → ◌≡◌ {A = Result Vars} (ok []) (ok vars)
marshal_back [] text h = refl
marshal_back (v ∷ vars) text h = cc

pub marshal_nonempty :
    (vars : Vars) (text : String) → marshal vars ≡ ok text → str_eq text "" ≡ false
marshal_nonempty [] text h = rw (sym (ok-injective h))
marshal_nonempty (v ∷ vars) text h = cc

abbrev pub empty_json : Json
empty_json = record {
  marshal = marshal;
  unmarshal = λ text. ok [];
  marshal_back = marshal_back;
  marshal_nonempty = marshal_nonempty;
}

abbrev pub list_producer : Producer
list_producer = record {
  Queue = List Notification;
  sent = λ q. q;
  enqueue = λ n q. (ok tt, q ++ n ∷ []);
  enqueue_appends = λ n q. inl (refl, refl);
}

abbrev pub list_pubsub : PubSub
list_pubsub = record {
  Channel = List StatusUpdate;
  published = λ c. c;
  publish = λ u c. (ok tt, c ++ u ∷ []);
  publish_appends = λ u c. inl (refl, refl);
}
