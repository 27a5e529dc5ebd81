-- ===== src/Postgres/Listing.antt =====
-- List, buildWhereClause and GetByBatchID of internal/infrastructure/postgres/notification_repository.go. A statement is a
-- record: the text `channel = $1` is the column and the number of its parameter, and the arguments are
-- passed beside it, as the source does. The reads of the server are the record `Reader`.
pub mod Conditions
pub mod Pages
pub mod Batches
use mathlib.Core.List.{Perm}
use insider_one_notification.Prelude.{
  ℕ, zero, suc, ◌+◌, ◌-◌, ◌≡◌, Bool, true, false, not, ◌&&◌, Option, none, some, String, List, [],
  ◌∷◌, ◌++◌, length, take, drop, select, any, all, str_eq, ◌==◌, if◌then◌else◌,
}
use insider_one_notification.Errors.{Error, wrap}
use insider_one_notification.Result.{Result, ok, err}
use insider_one_notification.Entity.{Uuid, Notification, Channel, Status, Priority}
use insider_one_notification.Entity.Channels
use insider_one_notification.Entity.Statuses
use insider_one_notification.Entity.Priorities
use insider_one_notification.Postgres.Row.{Row, Json, collect_notifications}

-- internal/domain/repository/notification_repository.go
pub record ListFilter : Type 0 where
  pub channel : Option Channel
  pub status : Option Status
  pub priority : Option Priority
  pub recipient : Option String
  pub offset : ℕ
  pub limit : ℕ
  pub sort_by : String
  pub sort_order : String

pub data Column : Type 0 where
  channel_column status_column priority_column recipient_column : Column

-- `column = $param`
pub record Clause : Type 0 where
  pub column : Column
  pub param : ℕ

pub data Argument : Type 0 where
  text : String → Argument
  number : ℕ → Argument

pub record Where : Type 0 where
  pub clauses : List Clause
  pub args : List Argument
  pub param_idx : ℕ

-- One of the four blocks: a filter that is nil adds nothing.
unfoldable pub add : Column → Option String → Where → Where
add column none w = w
add column (some value) w = record {
  clauses = w.clauses ++ record { column = column; param = w.param_idx } ∷ [];
  args = w.args ++ text value ∷ [];
  param_idx = w.param_idx + 1;
}

abbrev pub channel_text : Option Channel → Option String
channel_text none = none
channel_text (some c) = some (Channels.to_string c)

abbrev pub status_text : Option Status → Option String
status_text none = none
status_text (some s) = some (Statuses.to_string s)

abbrev pub priority_text : Option Priority → Option String
priority_text none = none
priority_text (some p) = some (Priorities.to_string p)

unfoldable pub build_where_clause : ListFilter → Where
unfolding add
build_where_clause filter = add recipient_column filter.recipient (
    add priority_column (priority_text filter.priority) (
      add status_column (status_text filter.status) (
        add channel_column (channel_text filter.channel)
          (record { clauses = []; args = []; param_idx = 1 }))))

-- What the server makes of a clause.
nth : ℕ → List Argument → Option Argument
nth n [] = none
nth zero (a ∷ args) = some a
nth (suc n) (a ∷ args) = nth n args

-- The parameters are counted from 1.
unfoldable pub argument : ℕ → List Argument → Option Argument
unfolding nth
argument zero args = none
argument (suc n) args = nth n args

unfoldable pub value_of : Column → Row → String
value_of channel_column r = Channels.to_string r.channel
value_of status_column r = Statuses.to_string r.status
value_of priority_column r = Priorities.to_string r.priority
value_of recipient_column r = r.recipient

equals : String → Option Argument → Bool
equals value (some (text other)) = str_eq value other
equals value (some (number n)) = false
equals value none = false

unfoldable pub holds : List Argument → Row → Clause → Bool
unfolding equals
holds args r c = equals (value_of c.column r) (argument c.param args)

unfoldable pub satisfies : List Clause → List Argument → Row → Bool
satisfies clauses args r = all (holds args r) clauses

pub record Query : Type 0 where
  pub clauses : List Clause
  pub order_column : String
  pub order_direction : String
  pub limit_param : ℕ
  pub offset_param : ℕ

as_number : Option Argument → ℕ
as_number (some (number n)) = n
as_number (some (text s)) = zero
as_number none = zero

unfoldable pub number_at : ℕ → List Argument → ℕ
unfolding as_number
number_at param args = as_number (argument param args)

-- `batch_id = $1`; NULL equals nothing.
unfoldable pub is_in_batch : Uuid → Row → Bool
is_in_batch id r = elim r.batch_id [ none ↦ false | some batch ↦ batch == id ]

-- SELECT COUNT(*) and SELECT ... ORDER BY ... LIMIT ... OFFSET. They do not change the table.
pub record Reader : Type 1 where
  pub Db : Type 0
  pub rows : Db → List Row
  pub order_by : String → String → List Row → List Row
  pub count_rows : List Clause → List Argument → Db → Result ℕ
  pub select_rows : Query → List Argument → Db → Result (List Row)
  -- The two statements of GetByBatchID, the second with its limit and its offset.
  pub count_batch : Uuid → Db → Result ℕ
  pub select_batch : Uuid → ℕ → ℕ → Db → Result (List Row)
  pub order_by_Perm :
      (column direction : String) (rs : List Row) → Perm (order_by column direction rs) rs
  pub count_rows_ok :
      (clauses : List Clause) (args : List Argument) (db : Db) (n : ℕ)
      → count_rows clauses args db ≡ ok n
      → n ≡ length (select (satisfies clauses args) (rows db))
  pub select_rows_ok :
      (q : Query) (args : List Argument) (db : Db) (found : List Row)
      → select_rows q args db ≡ ok found
      → found
        ≡ take (number_at q.limit_param args) (
            drop (number_at q.offset_param args) (
              order_by q.order_column q.order_direction
                (select (satisfies q.clauses args) (rows db))))
  pub count_batch_ok :
      (id : Uuid) (db : Db) (n : ℕ)
      → count_batch id db ≡ ok n
      → n ≡ length (select (is_in_batch id) (rows db))
  pub select_batch_ok :
      (id : Uuid) (limit offset : ℕ) (db : Db) (found : List Row)
      → select_batch id limit offset db ≡ ok found
      → found
        ≡ take limit (drop offset (order_by "created_at" "ASC" (select (is_in_batch id) (rows db))))

abbrev pub allowed_sort_columns : List String
allowed_sort_columns =
    "created_at" ∷ "updated_at" ∷ "scheduled_at" ∷ "priority" ∷ "status" ∷ "channel" ∷ []

unfoldable pub sort_column : String → String
sort_column sort_by =
    if not (str_eq sort_by "")
    then if any (str_eq sort_by) allowed_sort_columns then sort_by else "created_at"
    else "created_at"

unfoldable pub sort_direction : String → String
sort_direction sort_order = if str_eq sort_order "asc" then "ASC" else "DESC"

module _ (json : Json) (reader : Reader) where
  open reader use {Db, count_rows, select_rows}

  unfoldable pub data_query : ListFilter → Where → Query
  data_query filter w =
      let next_param = length w.args + 1 in
      record {
        clauses = w.clauses;
        order_column = sort_column filter.sort_by;
        order_direction = sort_direction filter.sort_order;
        limit_param = next_param;
        offset_param = next_param + 1;
      }

  collected : ℕ → Result (List Notification) → Result (List Notification × ℕ)
  collected total (err e) = err e
  collected total (ok ns) = ok (ns, total)

  after_select : ℕ → Result (List Row) → Result (List Notification × ℕ)
  unfolding collected
  after_select total (err e) = err (wrap "listing notifications" e)
  after_select total (ok found) = collected total (collect_notifications json found)

  after_count : ListFilter → Where → Db → Result ℕ → Result (List Notification × ℕ)
  unfolding after_select data_query
  after_count filter w db (err e) = err (wrap "counting notifications" e)
  after_count filter w db (ok total) = after_select total (
      select_rows (data_query filter w) (w.args ++ number filter.limit ∷ number filter.offset ∷ [])
        db)

  unfoldable pub list : ListFilter → Db → Result (List Notification × ℕ)
  unfolding after_count
  list filter db =
      let w = build_where_clause filter in after_count filter w db (count_rows w.clauses w.args db)

  after_select_batch : ℕ → Result (List Row) → Result (List Notification × ℕ)
  unfolding collected
  after_select_batch total (err e) = err (wrap "querying batch notifications" e)
  after_select_batch total (ok found) = collected total (collect_notifications json found)

  after_count_batch : Uuid → ℕ → ℕ → Db → Result ℕ → Result (List Notification × ℕ)
  unfolding after_select_batch
  after_count_batch id limit offset db (err e) = err (wrap "counting batch notifications" e)
  after_count_batch id limit offset db (ok total) =
      after_select_batch total (reader.select_batch id limit offset db)

  unfoldable pub get_by_batch_id : Uuid → ℕ → ℕ → Db → Result (List Notification × ℕ)
  unfolding after_count_batch
  get_by_batch_id id limit offset db =
      after_count_batch id limit offset db (reader.count_batch id db)
