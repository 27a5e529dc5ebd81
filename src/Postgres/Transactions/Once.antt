-- ===== src/Postgres/Transactions/Once.antt =====
-- What one fetch has returned the next fetch does not return: the tickers of two schedulers, or two
-- ticks of one, do not dispatch a notification twice.
use mathlib.Core.List.{Memᴰ}
use insider_one_notification.Prelude.{
  ℕ, ◌≡◌, refl, sym, ap, ◌∙◌, inl, inr, Bool, true, false, true≢false, Bool-cases, List, [], ◌∷◌,
  map, any, All, ◌==◌, if◌then◌else◌,
}
use insider_one_notification.Result.{Result, ok, >>=-eq-ok, ok-injective, ok≢err}
use insider_one_notification.Entity.{Notification, queued, Time}
use insider_one_notification.Postgres.Row.{Row, Json, fields, scan_vars, scan_notification}
use insider_one_notification.Postgres.Server.{Server, updated}
use insider_one_notification.Postgres.Clauses.{
  is_scheduled_ready, is_retry_ready, extract_ids, set_queued, mark_queued,
}
use insider_one_notification.Postgres.Transactions.{fetch_scheduled_ready, fetch_retry_ready}
use insider_one_notification.Postgres.Transactions.Fetch.{
  is_one_of, IsReadFrom, FetchReady, fetch_scheduled_ready_effect, fetch_retry_ready_effect,
}

module _ (json : Json) (server : Server) where
  open server use {Db, rows}

  scan-id : (r : Row) (n : Notification) → scan_notification json r ≡ ok n → n.id ≡ r.id
  unfolding scan_notification
  scan-id r n h =
      let (vars, e, same) =
        >>=-eq-ok (scan_vars json r.template_vars) (λ vars. ok (fields r vars)) h in
      ap (λ (m : Notification). m.id) (sym (ok-injective same))

  pub mark_queued-ids :
      (now' : Time) (ns : List Notification)
      → extract_ids (map (mark_queued now') ns) ≡ extract_ids ns
  mark_queued-ids now' [] = refl
  mark_queued-ids now' (n ∷ ns) = ap (λ ids. n.id ∷ ids) (mark_queued-ids now' ns)

  -- A row that an UPDATE left passing the test was passed over by that UPDATE.
  passed_over :
      (matches : Time → Row → Bool) (now' now'' t : Time) (ns : List Notification)
      (table : List Row) (r : Row)
      → ((now' : Time) (r : Row) (v : Time)
          → matches now' (record r { status = queued; updated_at = v }) ≡ false)
      → Memᴰ r (map (updated t (is_one_of ns) (set_queued now')) table)
      → matches now'' r ≡ true
      → is_one_of ns r ≡ false
  passed_over matches now' now'' t ns [] r queued_out m hit = elim m [ ]
  passed_over matches now' now'' t ns (x ∷ table) r queued_out (Memᴰ.tail m) hit =
      passed_over matches now' now'' t ns table r queued_out m hit
  passed_over matches now' now'' t ns (x ∷ table) r queued_out (Memᴰ.head p) hit =
      elim (Bool-cases (is_one_of ns x)) [
        | inl one ↦ absurd (
            true≢false (
              sym hit
              ∙ ap (matches now'') p
              ∙ ap
                  (λ (b : Bool).
                    matches now'' (if b then record x { status = queued; updated_at = t } else x))
                  one
              ∙ queued_out now'' x t))
        | inr other ↦
            ap (is_one_of ns) (
              p
              ∙ ap (λ (b : Bool). if b then record x { status = queued; updated_at = t } else x)
                  other)
            ∙ other
      ]

  not_again :
      (matches : Time → Row → Bool) (now' now'' t : Time) (ns ms : List Notification)
      (table : List Row)
      → ((now' : Time) (r : Row) (v : Time)
          → matches now' (record r { status = queued; updated_at = v }) ≡ false)
      → All
          (IsReadFrom json server
            (matches now'')
            (map (updated t (is_one_of ns) (set_queued now')) table))
          ms
      → All (λ m. any (λ id. m.id == id) (extract_ids ns) ≡ false) (map (mark_queued now'') ms)
  not_again matches now' now'' t ns [] table queued_out all = tt
  not_again matches now' now'' t ns (m ∷ ms) table queued_out ((r, mem, hit, read), all) = (
    rw (scan-id r m read) (passed_over matches now' now'' t ns table r queued_out mem hit),
    not_again matches now' now'' t ns ms table queued_out all,
  )

  -- Neither of two fetches in a row found what the other did.
  once :
      (matches : Time → Row → Bool) (limit limit' : ℕ) (db : Db)
      (first second : Result (List Notification) × Db) (ns ms : List Notification)
      → ((now' : Time) (r : Row) (v : Time)
          → matches now' (record r { status = queued; updated_at = v }) ≡ false)
      → FetchReady json server matches limit db first
      → FetchReady json server matches limit' first.1 second
      → first.0 ≡ ok ns
      → second.0 ≡ ok ms
      → All (λ m. any (λ id. m.id == id) (extract_ids ns) ≡ false) ms
  once matches limit limit' db first second ns ms queued_out (inr (e, failed, same)) g h k =
      absurd (ok≢err (sym h ∙ failed))
  once matches limit limit' db first second ns ms queued_out f (inr (e, failed, same)) h k =
      absurd (ok≢err (sym k ∙ failed))
  once matches limit limit' db first second ns ms queued_out
        (inl (found, now', t, e, few, read, marked))
        (inl (found', now'', t', e', few', read', marked')) h k =
      rw (ok-injective (sym h ∙ e), ok-injective (sym k ∙ e'), mark_queued-ids now' found)
        (not_again matches now' now'' t found found' (rows db) queued_out (rw marked at read'))

  -- What one fetch returned, the next fetch of that kind does not return, whenever it comes and
  -- whatever its limit: no notification of its result has an ID of the first. So for both methods.
  pub fetch_once :
      (limit limit' : ℕ) (db : Db) (ns ms : List Notification)
      → ((fetch_scheduled_ready json server limit db).0 ≡ ok ns
          → (fetch_scheduled_ready json server limit'
              (fetch_scheduled_ready json server limit db).1).0
            ≡ ok ms
          → All (λ m. any (λ id. m.id == id) (extract_ids ns) ≡ false) ms)
        × ((fetch_retry_ready json server limit db).0 ≡ ok ns
            → (fetch_retry_ready json server limit' (fetch_retry_ready json server limit db).1).0
              ≡ ok ms
            → All (λ m. any (λ id. m.id == id) (extract_ids ns) ≡ false) ms)
  fetch_once limit limit' db ns ms = (
    once is_scheduled_ready limit limit' db (fetch_scheduled_ready json server limit db)
        (fetch_scheduled_ready json server limit' (fetch_scheduled_ready json server limit db).1) ns
        ms (λ now' r v. refl) (fetch_scheduled_ready_effect json server limit db)
        (fetch_scheduled_ready_effect json server limit'
          (fetch_scheduled_ready json server limit db).1),
    once is_retry_ready limit limit' db (fetch_retry_ready json server limit db)
        (fetch_retry_ready json server limit' (fetch_retry_ready json server limit db).1) ns ms
        (λ now' r v. refl) (fetch_retry_ready_effect json server limit db)
        (fetch_retry_ready_effect json server limit' (fetch_retry_ready json server limit db).1),
  )
