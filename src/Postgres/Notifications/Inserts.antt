-- ===== src/Postgres/Notifications/Inserts.antt =====
-- What Create does to the table, and what GetByID reads after it.
use mathlib.Core.List.{Memᴰ}
use insider_one_notification.Prelude.{
  ◌∙◌, ◌≡◌, ◌≢◌, refl, sym, ap, ◌⊎◌, inl, inr, Bool, true, false, Bool-cases, Option, none, some,
  List, [], ◌∷◌, ◌++◌, select, any, true≢false, arith, eq_iff,
}
use insider_one_notification.Errors.{Error, sentinel, duplicate_idempotency_key, wrap}
use insider_one_notification.Result.{Result, ok, err, >>=-eq-ok, ok-injective, ok≢err}
use insider_one_notification.Entity.{Notification}
use insider_one_notification.Postgres.Row.{
  Row, Json, to_row, marshal_template_vars, columns, in_microseconds, scan_notification-to_row,
  map_pg_error, pg_code, map_pg_error_lem,
}
use insider_one_notification.Postgres.Server.{Server, clashes, conflicts}
use insider_one_notification.Postgres.Clauses.{has_id}
use insider_one_notification.Postgres.Notifications.{insert_row, mapped, create, scanned, get_by_id}

module _ (json : Json) (server : Server) where
  open server use {Db, rows, insert, query_row}

  -- A row was appended that breaks no unique constraint; or an error was returned, and the table is
  -- as it was.
  abbrev pub CreateEffect : Notification → Db → Result (Unit {0}) × Db → Type 0
  CreateEffect n db (result, db') =
      ((result ≡ ok tt)
        × ((r : Row) × (to_row json n ≡ ok r)
            × (rows db' ≡ rows db ++ r ∷ [])
            × (any (conflicts r) (rows db) ≡ false)))
      ⊎ ((e : Error) × (result ≡ err e) × (rows db' ≡ rows db))

  mapped_effect :
      (n : Notification) (r : Row) (db : Db) (result : Result (Unit {0})) (db' : Db)
      → to_row json n ≡ ok r
      → (result ≡ ok tt → (rows db' ≡ rows db ++ r ∷ []) × (clashes (r ∷ []) (rows db) ≡ false))
      → ((e : Error) → result ≡ err e → rows db' ≡ rows db)
      → CreateEffect n db (mapped json server (result, db'))
  unfolding mapped
  mapped_effect n r db (ok u) db' e done failed =
      let (appended, fresh) = done refl in inl (refl, (r, e, appended, ground arith))
  mapped_effect n r db (err x) db' e done failed = inr (map_pg_error x, refl, failed x refl)

  insert_row_effect :
      (n : Notification) (db : Db) (row : Result Row)
      → to_row json n ≡ row
      → CreateEffect n db (insert_row json server row db)
  unfolding insert_row
  insert_row_effect n db (err x) e = inr (wrap "marshaling template vars" x, refl, refl)
  insert_row_effect n db (ok r) e =
      let (result, db') = insert (r ∷ []) db in
      mapped_effect n r db result db' e (server.insert_ok (r ∷ []) db)
        (server.insert_err (r ∷ []) db)

  pub create_effect : (n : Notification) (db : Db) → CreateEffect n db (create json server n db)
  unfolding create
  create_effect n db = insert_row_effect n db (to_row json n) refl

  any-true :
      (test : Row → Bool) (rs : List Row) (r : Row) → Memᴰ r rs → test r ≡ true → any test rs ≡ true
  any-true test [] r m h = elim m [ ]
  any-true test (x ∷ rs) r (Memᴰ.head p) h = let hit : test x ≡ true = ap test (sym p) ∙ h in rw hit
  any-true test (x ∷ rs) r (Memᴰ.tail m) h = let hit = any-true test rs r m h in ground arith

  to_row-keys :
      (n : Notification) (r : Row)
      → to_row json n ≡ ok r
      → (r.id ≡ n.id) × (r.idempotency_key ≡ n.idempotency_key)
  unfolding to_row
  to_row-keys n r h =
      let (text, m, e) =
        >>=-eq-ok (marshal_template_vars json n.template_vars) (λ vars. ok (columns n vars)) h in
      let same : columns n text ≡ r = ok-injective e in
      (ap (λ (x : Row). x.id) (sym same), ap (λ (x : Row). x.idempotency_key) (sym same))

  conflicts_test :
      (r s : Row) → (r.id ≡ s.id) ⊎ (r.idempotency_key ≡ s.idempotency_key) → conflicts r s ≡ true
  conflicts_test r s same = ground (arith, eq_iff r.idempotency_key s.idempotency_key)

  -- The error of Create when the server reports an error.
  refused_insert :
      (n : Notification) (r : Row) (db : Db) (x : Error)
      → to_row json n ≡ ok r
      → (insert (r ∷ []) db).0 ≡ err x
      → (create json server n db).0 ≡ err (map_pg_error x)
  unfolding create insert_row mapped
  refused_insert n r db x row refused = rw (row, refused) refl

  -- A notification whose ID or idempotency key the table already has is not created: Create returns
  -- an error and the table stays as it was. If the server reports the violation, with the code 23505, the
  -- error is ErrDuplicateIdempotencyKey; any other error of the server stays in the chain of the error.
  pub create_duplicate :
      (n : Notification) (r : Row) (db : Db)
      → Memᴰ r (rows db)
      → (n.id ≡ r.id) ⊎ (n.idempotency_key ≡ r.idempotency_key)
      → ((e : Error) × ((create json server n db).0 ≡ err e)
          × (rows (create json server n db).1 ≡ rows db))
        × ((new : Row) (x : Error)
            → to_row json n ≡ ok new
            → (insert (new ∷ []) db).0 ≡ err x
            → (pg_code x ≡ some "23505"
                → (create json server n db).0 ≡ err (sentinel duplicate_idempotency_key))
              × (pg_code x ≢ some "23505"
                  → (create json server n db).0 ≡ err (wrap "postgres error" x)))
  create_duplicate n r db m same = (
    elim (create_effect n db) [
      | inr failed ↦ failed
      | inl (done, (new, row, appended, fresh)) ↦
          let (ids, keys) = to_row-keys n new row in
          let same_row : (new.id ≡ r.id) ⊎ (new.idempotency_key ≡ r.idempotency_key) = elim same [
            | inl e ↦ inl (ids ∙ e)
            | inr e ↦ inr (keys ∙ e)
          ] in
          let clash = any-true (conflicts new) (rows db) r m (conflicts_test new r same_row) in
          absurd (true≢false (sym clash ∙ fresh))
    ],
    λ new x row refused.
        let (violated, other) = map_pg_error_lem x in
        let result = refused_insert n new db x row refused in
        (
          λ code. result ∙ ap (λ e. err e) (violated code),
          λ code. result ∙ ap (λ e. err e) (other code),
        ),
  )

  mem-snoc : (rs : List Row) (new r : Row) → Memᴰ r (rs ++ new ∷ []) → Memᴰ r rs ⊎ (r ≡ new)
  mem-snoc [] new r (Memᴰ.head p) = inr p
  mem-snoc [] new r (Memᴰ.tail m) = elim m [ ]
  mem-snoc (x ∷ rs) new r (Memᴰ.head p) = inl (Memᴰ.head p)
  mem-snoc (x ∷ rs) new r (Memᴰ.tail m) = elim (mem-snoc rs new r m) [
    | inl old ↦ inl (Memᴰ.tail old)
    | inr e ↦ inr e
  ]

  select-snoc :
      (test : Row → Bool) (rs : List Row) (new : Row)
      → test new ≡ true
      → select test (rs ++ new ∷ []) ≢ []
  select-snoc test [] new h e = ground arith
  select-snoc test (x ∷ rs) new h e = elim (Bool-cases (test x)) [
    | inl hit ↦ cc (rw hit at e)
    | inr miss ↦ select-snoc test rs new h (rw miss at e)
  ]

  -- The one row that has the ID of a row that was just inserted.
  only_row :
      (n : Notification) (r x : Row) (old : List Row)
      → to_row json n ≡ ok r
      → any (conflicts r) old ≡ false
      → has_id n.id x ≡ true
      → Memᴰ x (old ++ r ∷ [])
      → x ≡ r
  only_row n r x old row fresh hit m = elim (mem-snoc old r x m) [
    | inr e ↦ e
    | inl before ↦
        let (ids, keys) = to_row-keys n r row in
        let same : r.id ≡ x.id = ground arith in
        let clash = any-true (conflicts r) old x before (conflicts_test r x (inl same)) in
        absurd (true≢false (sym clash ∙ fresh))
  ]

  scanned_created :
      (n : Notification) (r : Row) (old : List Row) (db' : Db) (found : Result (Option Row))
      → to_row json n ≡ ok r
      → any (conflicts r) old ≡ false
      → ((x : Row) → found ≡ ok (some x) → (has_id n.id x ≡ true) × Memᴰ x (old ++ r ∷ []))
      → (found ≡ ok none → select (has_id n.id) (old ++ r ∷ []) ≡ [])
      → ((scanned json server (found, db')).0 ≡ ok (in_microseconds n))
        ⊎ ((e : Error) × ((scanned json server (found, db')).0
              ≡ err (wrap "scanning notification" e)))
  unfolding scanned
  scanned_created n r old db' (err e) row fresh here nowhere = inr (e, refl)
  scanned_created n r old db' (ok none) row fresh here nowhere =
      let (ids, keys) = to_row-keys n r row in
      absurd (select-snoc (has_id n.id) old r (ground arith) (nowhere refl))
  scanned_created n r old db' (ok (some x)) row fresh here nowhere =
      let (hit, m) = here x refl in
      inl (rw (only_row n r x old row fresh hit m) (scan_notification-to_row json n r row))

  -- GetByID after Create returns the notification that was created, every field as it was but the
  -- instants, which are cut to whole microseconds, unless the server fails.
  pub get_by_id-create :
      (n : Notification) (db : Db)
      → (create json server n db).0 ≡ ok tt
      → let (found, db') = get_by_id json server n.id (create json server n db).1 in
        (found ≡ ok (in_microseconds n))
        ⊎ ((e : Error) × (found ≡ err (wrap "scanning notification" e)))
  unfolding get_by_id
  get_by_id-create n db h = elim (create_effect n db) [
    | inr (e, failed, same) ↦ absurd (ok≢err (sym h ∙ failed))
    | inl (done, (r, row, appended, fresh)) ↦
        let db' = (create json server n db).1 in
        let (found, db'') = query_row (has_id n.id) db' in
        scanned_created n r (rows db) db'' found row fresh
          (λ x e. rw appended at (server.query_row_some (has_id n.id) db' x e))
          (λ e. rw appended at (server.query_row_none (has_id n.id) db' e))
  ]
