-- ===== src/Postgres/Notifications/Writes.antt =====
-- What the single statements do to the table, on success and on every error.
use insider_one_notification.Prelude.{
  zero, suc, ◌∙◌, ℕ, ◌≡◌, ◌≢◌, refl, sym, ap, ◌⊎◌, ◌↔◌, inl, inr, Bool, true, false, Bool-cases,
  Option, List, [], ◌∷◌, map, String, length, select, arith, ◌==◌,
}
use insider_one_notification.Errors.{Error, not_found_error, wrap}
use insider_one_notification.Result.{Result, ok, err}
use insider_one_notification.Entity.{Status, Uuid, Time}
use insider_one_notification.Postgres.Row.{Row, Json}
use insider_one_notification.Postgres.Server.{Server, updated}
use insider_one_notification.Postgres.Clauses.{
  is_cancellable, has_id, set_status, set_cancelled, set_attempted,
}
use insider_one_notification.Postgres.Updates.{
  Writes, Hits, HasId, IsCancellable, IsCancelled, HasStatus, IsAttempted, has_id-HasId,
  is_cancellable-IsCancellable, set_status-HasStatus, set_cancelled-IsCancelled,
  set_attempted-IsAttempted, updated-Writes, select-Hits, select-none,
}
use insider_one_notification.Postgres.Notifications.{
  affected_or_not_found, update_status, cancel, increment_attempts,
}

-- An UPDATE whose test no row passes changes no row.
map-updated_none :
    (t : Time) (matches : Row → Bool) (assign : Row → Row) (rs : List Row)
    → length (select matches rs) ≡ 0
    → map (updated t matches assign) rs ≡ rs
map-updated_none t matches assign [] h = refl
map-updated_none t matches assign (r ∷ rs) h = elim (Bool-cases (matches r)) [
  | inl hit ↦ absurd (ground arith)
  | inr miss ↦ rw miss (ap (λ l. r ∷ l) (map-updated_none t matches assign rs (ground arith)))
]

module _ (json : Json) (server : Server) where
  open server use {Db, rows, now, server_now, insert, update}

  -- What a method that is one UPDATE does, in the terms of its clauses: it succeeds and assigns to the rows that pass its test, of
  -- which there are some; or there are none, it returns NotFoundError and changes nothing; or the
  -- server fails, its error is returned and nothing has changed.
  unfoldable pub UpdateEffect :
      (Row → Bool) → (Row → Row) → Db → String → Uuid → Result (Unit {0}) × Db → Type 0
  UpdateEffect matches assign db context id (result, db') =
      ((result ≡ ok tt)
        × (select matches (rows db) ≢ [])
        × (rows db' ≡ map (updated (server_now db) matches assign) (rows db)))
      ⊎ ((result ≡ err (not_found_error "notification" id))
          × (select matches (rows db) ≡ [])
          × (rows db' ≡ rows db))
      ⊎ ((e : Error) × (result ≡ err (wrap context e)) × (rows db' ≡ rows db))

  length-nil : (rs : List Row) → 0 ≡ length rs → rs ≡ []
  length-nil [] h = refl
  length-nil (r ∷ rs) h = absurd (omega arith)

  length-cons : (rs : List Row) (n : ℕ) → n ≢ 0 → n ≡ length rs → rs ≢ []
  length-cons rs n h e z = h (e ∙ ap length z)

  affected_effect :
      (matches : Row → Bool) (assign : Row → Row) (db : Db) (context : String) (id : Uuid)
      (tag : Result ℕ) (db' : Db)
      → ((n : ℕ)
          → tag ≡ ok n
          → (rows db' ≡ map (updated (server_now db) matches assign) (rows db))
            × (n ≡ length (select matches (rows db))))
      → ((e : Error) → tag ≡ err e → rows db' ≡ rows db)
      → UpdateEffect matches assign db context id
          (affected_or_not_found json server context id (tag, db'))
  unfolding affected_or_not_found UpdateEffect
  affected_effect matches assign db context id (err e) db' done failed =
      inr (inr (e, refl, failed e refl))
  affected_effect matches assign db context id (ok zero) db' done failed =
      let (changed, none_hit) = done 0 refl in
      inr (
        inl (
          refl,
          length-nil _ none_hit,
          changed ∙ map-updated_none (server_now db) matches assign (rows db) (sym none_hit),
        ))
  affected_effect matches assign db context id (ok (suc n)) db' done failed =
      let (changed, hit) = done (suc n) refl in
      let positive : (suc n == 0) ≡ false = ground arith in
      inl (rw positive, length-cons _ (suc n) (omega arith) hit, rw positive changed)

  tag_effect :
      (matches : Row → Bool) (assign : Row → Row) (db : Db) (context : String) (id : Uuid)
      → UpdateEffect matches assign db context id
          (affected_or_not_found json server context id (update matches assign db))
  tag_effect matches assign db context id =
      let (tag, db') = update matches assign db in
      affected_effect matches assign db context id tag db' (server.update_ok matches assign db)
        (server.update_err matches assign db)

  -- The same, with the rows that are hit and what becomes of them in words.
  unfoldable pub WriteEffect :
      (Row → Type 0) → (Row → Row → Type 0) → Db → String → Uuid → Result (Unit {0}) × Db → Type 0
  WriteEffect Hit Change db context id (result, db') =
      ((result ≡ ok tt) × Hits Hit (rows db) × Writes Hit Change (rows db) (rows db'))
      ⊎ ((result ≡ err (not_found_error "notification" id))
          × ¬ (Hits Hit (rows db))
          × (rows db' ≡ rows db))
      ⊎ ((e : Error) × (result ≡ err (wrap context e)) × (rows db' ≡ rows db))

  write_effect :
      (Hit : Row → Type 0) (Change : Row → Row → Type 0) (matches : Row → Bool) (assign : Row → Row)
      (db : Db) (context : String) (id : Uuid)
      → ((r : Row) → (matches r ≡ true) ↔ Hit r)
      → ((r : Row) → Change r (record (assign r) { updated_at = server_now db }))
      → WriteEffect Hit Change db context id
          (affected_or_not_found json server context id (update matches assign db))
  unfolding UpdateEffect WriteEffect
  write_effect Hit Change matches assign db context id meant done =
      let (result, db') = affected_or_not_found json server context id (update matches assign db) in
      elim (tag_effect matches assign db context id) [
        | inl (success, hit, changed) ↦ inl (
          success,
          select-Hits Hit matches (rows db) meant hit,
          updated-Writes Hit Change (server_now db) matches assign (rows db) (rows db') meant done
              changed,
        )
        | inr (inl (missing, no_hit, same)) ↦
            inr (inl (missing, select-none Hit matches (rows db) meant no_hit, same))
        | inr (inr failure) ↦ inr (inr failure)
      ]

  -- The methods in the terms of their clauses, for the contract of the repository.
  pub update_status_update :
      (id : Uuid) (status : Status) (provider_msg_id err_msg : Option String) (db : Db)
      → UpdateEffect
          (has_id id)
          (set_status status provider_msg_id err_msg (now db))
          db
          "updating notification status"
          id
          (update_status json server id status provider_msg_id err_msg db)
  unfolding update_status
  update_status_update id status provider_msg_id err_msg db = tag_effect _ _ db _ id

  pub cancel_update :
      (id : Uuid) (db : Db)
      → UpdateEffect
          (is_cancellable id)
          (set_cancelled (now db))
          db
          "cancelling notification"
          id
          (cancel json server id db)
  unfolding cancel
  cancel_update id db = tag_effect _ _ db _ id

  pub increment_attempts_update :
      (id : Uuid) (next_retry_at : Option Time) (db : Db)
      → UpdateEffect
          (has_id id)
          (set_attempted next_retry_at (now db))
          db
          "incrementing attempts"
          id
          (increment_attempts json server id next_retry_at db)
  unfolding increment_attempts
  increment_attempts_update id next_retry_at db = tag_effect _ _ db _ id

  -- UpdateStatus succeeds when a row has that ID. Then the row has the new status, the provider's ID and
  -- the error message where they are given and else those that it had; but for the time of the update its
  -- other columns, and every other row, are as they were. It does not look at the old status. If no row
  -- has the ID it returns NotFoundError, and if the server fails its error, and the table is as it was.
  pub update_status_effect :
      (id : Uuid) (status : Status) (provider_msg_id err_msg : Option String) (db : Db)
      → WriteEffect
          (HasId id)
          (HasStatus status provider_msg_id err_msg)
          db
          "updating notification status"
          id
          (update_status json server id status provider_msg_id err_msg db)
  unfolding update_status
  update_status_effect id status provider_msg_id err_msg db =
      write_effect (HasId id) (HasStatus status provider_msg_id err_msg) (has_id id)
        (set_status status provider_msg_id err_msg (now db)) db "updating notification status" id
        (has_id-HasId id)
        (set_status-HasStatus status provider_msg_id err_msg (now db) (server_now db))

  -- Cancel succeeds when a row of that ID is pending or queued. Then the row is cancelled; but for the
  -- time of the update its other columns, and every other row, are as they were. If no row of the ID is
  -- pending or queued it returns NotFoundError, and if the server fails its error, and the table is as it
  -- was.
  pub cancel_effect :
      (id : Uuid) (db : Db)
      → WriteEffect
          (IsCancellable id)
          IsCancelled
          db
          "cancelling notification"
          id
          (cancel json server id db)
  unfolding cancel
  cancel_effect id db =
      write_effect (IsCancellable id) IsCancelled (is_cancellable id) (set_cancelled (now db)) db
        "cancelling notification" id (is_cancellable-IsCancellable id)
        (set_cancelled-IsCancelled (now db) (server_now db))

  -- IncrementAttempts succeeds when a row has that ID. Then the row has one attempt more, made now, and
  -- the given time of the next retry, in whole microseconds, or none; but for the time of the update its
  -- other columns, and every other row, are as they were. If no row has the ID it returns NotFoundError,
  -- and if the server fails its error, and the table is as it was.
  pub increment_attempts_effect :
      (id : Uuid) (next_retry_at : Option Time) (db : Db)
      → WriteEffect
          (HasId id)
          (IsAttempted next_retry_at (now db))
          db
          "incrementing attempts"
          id
          (increment_attempts json server id next_retry_at db)
  unfolding increment_attempts
  increment_attempts_effect id next_retry_at db =
      write_effect (HasId id) (IsAttempted next_retry_at (now db)) (has_id id)
        (set_attempted next_retry_at (now db)) db "incrementing attempts" id (has_id-HasId id)
        (set_attempted-IsAttempted next_retry_at (now db) (server_now db))
