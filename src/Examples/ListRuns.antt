-- ===== src/Examples/ListRuns.antt =====
-- The first page of the emails of a table of two notifications.
use mathlib.Core.List.Perm
use insider_one_notification.Prelude.{
  sym, none, some, List, [], ◌∷◌, length, take, drop, select, str_eq, if◌then◌else◌,
}
use insider_one_notification.Result.{ok, ok-injective}
use insider_one_notification.Postgres.Row.{Row, columns}
use insider_one_notification.Postgres.Listing.{Reader, satisfies, number_at, is_in_batch}
use insider_one_notification.Handler.Notifications.Reads.{Values}
use insider_one_notification.Examples.EntityRuns.{welcome}

-- The rows are kept in the order in which they are listed.
abbrev reader : Reader
reader = record {
  Db = List Row;
  rows = λ db. db;
  order_by = λ column direction rs. rs;
  count_rows = λ clauses args db. ok (length (select (satisfies clauses args) db));
  select_rows = λ q args db. ok (
      take (number_at q.limit_param args)
        (drop (number_at q.offset_param args) (select (satisfies q.clauses args) db)));
  count_batch = λ id db. ok (length (select (is_in_batch id) db));
  select_batch = λ id limit offset db. ok (take limit (drop offset (select (is_in_batch id) db)));
  order_by_Perm = λ column direction rs. Perm.refl rs;
  count_rows_ok = λ clauses args db n h. sym (ok-injective h);
  select_rows_ok = λ q args db found h. sym (ok-injective h);
  count_batch_ok = λ id db n h. sym (ok-injective h);
  select_batch_ok = λ id limit offset db found h. sym (ok-injective h);
}

-- ?channel=email&sort_by=content
abbrev query : Values
query key =
    if str_eq key "channel"
    then some "email"
    else if str_eq key "sort_by"
    then some "content"
    else none

abbrev rows : List Row
rows = columns (welcome 1 "k1") none ∷ columns (welcome 2 "k2") none ∷ []
