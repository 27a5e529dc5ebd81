-- ===== src/Postgres/Listing/Pages.antt =====
-- What List returns: one page of the rows that the filter wants, and how many there are.
use mathlib.Core.List.{append_assoc, append-nil, Perm}
use insider_one_notification.Prelude.{
  ℕ, suc, ◌+◌, ◌≤◌, ◌≡◌, refl, sym, ap, ◌∙◌, ◌⊎◌, inl, inr, Bool, true, Bool-cases, String, List,
  [], ◌∷◌, ◌++◌, length, length-append, length-take-le, take, drop, select, any, str_eq, arith,
}
use insider_one_notification.Errors.{Error, wrap}
use insider_one_notification.Result.{Result, ok, err, >>=-eq-ok, ok-injective}
use insider_one_notification.Entity.{Notification}
use insider_one_notification.Postgres.Row.{Row, Json, collect_notifications, scan_notification}
use insider_one_notification.Postgres.Listing.{
  ListFilter, Where, number, build_where_clause, satisfies, number_at, as_number, argument, Reader,
  allowed_sort_columns, sort_column, sort_direction, data_query, collected, after_select,
  after_count, list,
}
use insider_one_notification.Postgres.Listing.Conditions.{
  is_wanted, IsBuilt, build_where_clause-IsBuilt, argument-append,
}

sort_column-allowed :
    (sort_by : String) → any (str_eq (sort_column sort_by)) allowed_sort_columns ≡ true
unfolding sort_column
sort_column-allowed sort_by = elim (Bool-cases (str_eq sort_by "")) [
  | inl empty ↦ rw empty
  | inr given ↦ rw given (elim (Bool-cases (any (str_eq sort_by) allowed_sort_columns)) [
    | inl allowed ↦ rw (allowed, allowed)
    | inr other ↦ rw other
  ])
]

select-same :
    (p q : Row → Bool) (rs : List Row) → ((r : Row) → p r ≡ q r) → select p rs ≡ select q rs
select-same p q [] same = refl
select-same p q (r ∷ rs) same = rw (same r, select-same p q rs same)

pub length-collect :
    (json : Json) (rs : List Row) (ns : List Notification)
    → collect_notifications json rs ≡ ok ns
    → length ns ≡ length rs
unfolding collect_notifications
length-collect json [] ns h = rw (sym (ok-injective h))
length-collect json (r ∷ rs) ns h =
    let (n, first, rest) = >>=-eq-ok (scan_notification json r) _ h in
    let (others, second, last) = >>=-eq-ok (collect_notifications json rs) _ rest in
    rw (sym (ok-injective last)) (ap suc (length-collect json rs others second))

module _ (json : Json) (reader : Reader) where
  open reader use {Db, rows, order_by, count_rows, select_rows}

  abbrev pub matching : ListFilter → Db → List Row
  matching filter db = select (is_wanted filter) (rows db)

  -- The whole list in the order that was asked for, or by creation; its column is one of the whitelist.
  abbrev pub IsSorted : ListFilter → Db → List Row → Type 0
  IsSorted filter db sorted =
      (sorted
        ≡ order_by (sort_column filter.sort_by) (sort_direction filter.sort_order)
            (matching filter db))
      × (any (str_eq (sort_column filter.sort_by)) allowed_sort_columns ≡ true)
      × Perm sorted (matching filter db)

  abbrev pub page_rows : ListFilter → Db → List Row
  page_rows filter db = take filter.limit (
      drop filter.offset (
        order_by (sort_column filter.sort_by) (sort_direction filter.sort_order)
          (matching filter db)))

  -- A failure is that of the count, of the query, or of a row of the page that cannot be read.
  abbrev pub ListOutcome : ListFilter → Db → Result (List Notification × ℕ) → Type 0
  ListOutcome filter db (ok (ns, total)) =
      (total ≡ length (matching filter db))
      × ((sorted : List Row) × IsSorted filter db sorted
          × (collect_notifications json (take filter.limit (drop filter.offset sorted)) ≡ ok ns)
          × (length ns ≤ filter.limit))
  ListOutcome filter db (err e) =
      let w = build_where_clause filter in
      ((failure : Error) × (e ≡ wrap "counting notifications" failure)
        × (count_rows w.clauses w.args db ≡ err failure))
      ⊎ (((failure : Error) × (e ≡ wrap "listing notifications" failure)
            × (select_rows (data_query json reader filter w)
                  (w.args ++ number filter.limit ∷ number filter.offset ∷ []) db
                ≡ err failure))
          ⊎ (collect_notifications json (page_rows filter db) ≡ err e))

  paged :
      (filter : ListFilter) (w : Where)
      → IsBuilt w (is_wanted filter)
      → let args = w.args ++ number filter.limit ∷ number filter.offset ∷ [] in
        (number_at (length w.args + 1) args ≡ filter.limit)
        × (number_at (length w.args + 1 + 1) args ≡ filter.offset)
  unfolding IsBuilt number_at as_number
  paged filter w (next, same) = (
    ap as_number (
        argument-append (length w.args + 1) w.args (number filter.offset ∷ []) (number filter.limit)
          refl),
    ap (λ args. as_number (argument (length w.args + 1 + 1) args))
          (sym (append_assoc w.args (number filter.limit ∷ []) (number filter.offset ∷ [])))
        ∙ ap as_number (
            argument-append (length w.args + 1 + 1) (w.args ++ number filter.limit ∷ []) []
              (number filter.offset)
              (omega (arith, length-append w.args (number filter.limit ∷ [])))),
  )

  page_of :
      (filter : ListFilter) (w : Where) (db : Db) (found : List Row)
      → IsBuilt w (is_wanted filter)
      → select_rows
          (data_query json reader filter w)
          (w.args ++ number filter.limit ∷ number filter.offset ∷ [])
          db
        ≡ ok found
      → found
        ≡ take filter.limit (
            drop filter.offset (
              order_by
                (sort_column filter.sort_by)
                (sort_direction filter.sort_order)
                (matching filter db)))
  unfolding data_query IsBuilt
  page_of filter w db found built h =
      let more = number filter.limit ∷ number filter.offset ∷ [] in
      let (limit, offset) = paged filter w built in
      let same =
        select-same (satisfies w.clauses (w.args ++ more)) (is_wanted filter) (rows db)
          (λ r. built.1 r more) in
      reader.select_rows_ok _ (w.args ++ more) db found h ∙ rw (limit, offset, same)

  collect_outcome :
      (filter : ListFilter) (db : Db) (total : ℕ) (found : List Row)
      (read : Result (List Notification))
      → total ≡ length (matching filter db)
      → found
        ≡ take filter.limit (
            drop filter.offset (
              order_by
                (sort_column filter.sort_by)
                (sort_direction filter.sort_order)
                (matching filter db)))
      → collect_notifications json found ≡ read
      → ListOutcome filter db (collected json reader total read)
  unfolding collected
  collect_outcome filter db total found (err e) counted page h = inr (inr (rw (sym page) h))
  collect_outcome filter db total found (ok ns) counted page h =
      let sorted =
        order_by (sort_column filter.sort_by) (sort_direction filter.sort_order)
          (matching filter db) in
      (
        counted,
        (
          sorted,
          (refl, sort_column-allowed filter.sort_by, reader.order_by_Perm _ _ (matching filter db)),
          rw (sym page) h,
          rw (length-collect json found ns h, page)
              (length-take-le filter.limit (drop filter.offset sorted)),
        ),
      )

  select_outcome :
      (filter : ListFilter) (w : Where) (db : Db) (total : ℕ) (found : Result (List Row))
      → w ≡ build_where_clause filter
      → IsBuilt w (is_wanted filter)
      → total ≡ length (matching filter db)
      → select_rows
          (data_query json reader filter w)
          (w.args ++ number filter.limit ∷ number filter.offset ∷ [])
          db
        ≡ found
      → ListOutcome filter db (after_select json reader total found)
  unfolding after_select
  select_outcome filter w db total (err e) same built counted h = inr (inl (e, refl, rw same at h))
  select_outcome filter w db total (ok found) same built counted h =
      collect_outcome filter db total found (collect_notifications json found) counted
        (page_of filter w db found built h) refl

  count_outcome :
      (filter : ListFilter) (db : Db) (count : Result ℕ)
      → let w = build_where_clause filter in
        IsBuilt w (is_wanted filter)
        → count_rows w.clauses w.args db ≡ count
        → ListOutcome filter db (after_count json reader filter w db count)
  unfolding after_count IsBuilt
  count_outcome filter db (err e) built h = inl (e, refl, h)
  count_outcome filter db (ok total) built h =
      let w = build_where_clause filter in
      let same =
        select-same (satisfies w.clauses w.args) (is_wanted filter) (rows db)
          (λ r. ap (λ args. satisfies w.clauses args r) (sym (append-nil w.args)) ∙ built.1 r []) in
      select_outcome filter w db total _ refl built
        (reader.count_rows_ok w.clauses w.args db total h ∙ ap length same) refl

  -- List. A success is one page, of the length and the offset of the filter, of the rows that have the
  -- channel, status, priority and recipient of the filter as far as it gives them, ordered by a column of
  -- the whitelist, with the number of all those rows: each argument stands where its parameter says. A failure
  -- is that of one of the two statements or of a row that cannot be read.
  pub list_outcome :
      (filter : ListFilter) (db : Db) → ListOutcome filter db (list json reader filter db)
  unfolding list
  list_outcome filter db =
      let w = build_where_clause filter in
      count_outcome filter db (count_rows w.clauses w.args db) (build_where_clause-IsBuilt filter)
        refl
