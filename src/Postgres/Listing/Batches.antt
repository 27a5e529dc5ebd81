-- ===== src/Postgres/Listing/Batches.antt =====
-- What GetByBatchID returns: one page of the batch, oldest first, and the size of the batch.
use insider_one_notification.Prelude.{
  ℕ, ◌≤◌, ◌≡◌, refl, sym, ◌⊎◌, inl, inr, List, length, length-take-le, take, drop, select,
}
use insider_one_notification.Errors.{Error, wrap}
use insider_one_notification.Result.{Result, ok, err}
use insider_one_notification.Entity.{Notification, Uuid}
use insider_one_notification.Postgres.Row.{Row, Json, collect_notifications}
use insider_one_notification.Postgres.Listing.{
  Reader, is_in_batch, collected, after_select_batch, after_count_batch, get_by_batch_id,
}
use insider_one_notification.Postgres.Listing.Pages.{length-collect}

module _ (json : Json) (reader : Reader) (id : Uuid) (limit offset : ℕ) where
  open reader use {Db, rows, order_by, count_batch, select_batch}

  abbrev pub batch : Db → List Row
  batch db = select (is_in_batch id) (rows db)

  abbrev pub page : Db → List Row
  page db = take limit (drop offset (order_by "created_at" "ASC" (batch db)))

  abbrev pub BatchListOutcome : Db → Result (List Notification × ℕ) → Type 0
  BatchListOutcome db (ok (ns, total)) =
      (total ≡ length (batch db))
      × (collect_notifications json (page db) ≡ ok ns)
      × (length ns ≤ limit)
  BatchListOutcome db (err e) =
      ((failure : Error) × (e ≡ wrap "counting batch notifications" failure)
        × (count_batch id db ≡ err failure))
      ⊎ (((failure : Error) × (e ≡ wrap "querying batch notifications" failure)
            × (select_batch id limit offset db ≡ err failure))
          ⊎ (collect_notifications json (page db) ≡ err e))

  read_outcome :
      (db : Db) (total : ℕ) (found : List Row) (read : Result (List Notification))
      → total ≡ length (batch db)
      → found ≡ page db
      → collect_notifications json found ≡ read
      → BatchListOutcome db (collected json reader total read)
  unfolding collected
  read_outcome db total found (err e) counted same h = inr (inr (rw (sym same) h))
  read_outcome db total found (ok ns) counted same h = (
    counted,
    rw (sym same) h,
    rw (length-collect json found ns h, same)
        (length-take-le limit (drop offset (order_by "created_at" "ASC" (batch db)))),
  )

  select_outcome :
      (db : Db) (total : ℕ) (found : Result (List Row))
      → total ≡ length (batch db)
      → select_batch id limit offset db ≡ found
      → BatchListOutcome db (after_select_batch json reader total found)
  unfolding after_select_batch
  select_outcome db total (err e) counted h = inr (inl (e, refl, h))
  select_outcome db total (ok found) counted h =
      read_outcome db total found (collect_notifications json found) counted
        (reader.select_batch_ok id limit offset db found h) refl

  count_outcome :
      (db : Db) (count : Result ℕ)
      → count_batch id db ≡ count
      → BatchListOutcome db (after_count_batch json reader id limit offset db count)
  unfolding after_count_batch
  count_outcome db (err e) h = inl (e, refl, h)
  count_outcome db (ok total) h =
      select_outcome db total (select_batch id limit offset db)
        (reader.count_batch_ok id db total h) refl

  -- A success is one page of the rows of the batch by their creation, with the number of all of them.
  pub get_by_batch_id_outcome :
      (db : Db) → BatchListOutcome db (get_by_batch_id json reader id limit offset db)
  unfolding get_by_batch_id
  get_by_batch_id_outcome db = count_outcome db (count_batch id db) refl
