-- ===== src/Template/Store.antt =====
-- internal/infrastructure/postgres/template_repository.go: Create, GetByID, GetByName, Update and Delete, over
-- the table of migrations/000002_create_templates.up.sql. JSON of a list of names is a parameter. What
-- Update writes into the template that it is given is the time `now`.
pub mod Sound
use mathlib.Core.List.{Memᴰ}
use insider_one_notification.Prelude.{
  ℕ, ◌≡◌, Bool, true, false, not, Option, none, some, String, List, [], ◌∷◌, ◌++◌, map, length,
  select, str_eq, ◌==◌, if◌then◌else◌,
}
use insider_one_notification.Errors.{Error, sentinel, not_found, not_found_error, wrap}
use insider_one_notification.Result.{Result, ok, err}
use insider_one_notification.Entity.{Channel, Uuid, Time}
use insider_one_notification.Postgres.Row.{map_pg_error, microseconds}
use insider_one_notification.Template.{Template}

pub record TemplateRow : Type 0 where
  pub id : Uuid
  pub name : String
  pub channel : Channel
  pub subject : Option String
  pub content : String
  pub variables : String
  pub is_active : Bool
  pub created_at : Time
  pub updated_at : Time

-- encoding/json on a []string.
pub record Names : Type 0 where
  pub marshal : List String → Result String
  pub unmarshal : String → Result (List String)
  pub marshal_back :
      (names : List String) (text : String) → marshal names ≡ ok text → unmarshal text ≡ ok names
  pub marshal_nonempty :
      (names : List String) (text : String) → marshal names ≡ ok text → str_eq text "" ≡ false

-- The arguments of an INSERT, in the order of the columns, as the columns hold them.
abbrev pub template_columns : Template → String → TemplateRow
template_columns t variables = record {
  id = t.id;
  name = t.name;
  channel = t.channel;
  subject = t.subject;
  content = t.content;
  variables = variables;
  is_active = t.is_active;
  created_at = microseconds t.created_at;
  updated_at = microseconds t.updated_at;
}

abbrev pub template_fields : TemplateRow → List String → Template
template_fields r variables = record {
  id = r.id;
  name = r.name;
  channel = r.channel;
  subject = r.subject;
  content = r.content;
  variables = variables;
  is_active = r.is_active;
  created_at = r.created_at;
  updated_at = r.updated_at;
}

-- The SET clause of Update; the trigger of the table writes `updated_at` after it.
abbrev pub set_template : Template → String → Time → TemplateRow → TemplateRow
set_template t variables now r = record r {
  name = t.name;
  channel = t.channel;
  subject = t.subject;
  content = t.content;
  variables = variables;
  is_active = t.is_active;
  updated_at = microseconds now;
}

abbrev pub has_template_id : Uuid → TemplateRow → Bool
has_template_id id r = r.id == id

abbrev pub touched :
    Time → (TemplateRow → Bool) → (TemplateRow → TemplateRow) → TemplateRow → TemplateRow
touched server_now matches assign r =
    if matches r then record (assign r) { updated_at = server_now } else r

pub record TemplateServer : Type 1 where
  pub Db : Type 0
  pub rows : Db → List TemplateRow
  pub now : Db → Time
  pub server_now : Db → Time
  pub insert : TemplateRow → Db → Result (Unit {0}) × Db
  pub update : (TemplateRow → Bool) → (TemplateRow → TemplateRow) → Db → Result ℕ × Db
  pub delete : (TemplateRow → Bool) → Db → Result ℕ × Db
  pub query_row : (TemplateRow → Bool) → Db → Result (Option TemplateRow) × Db
  pub insert_ok :
      (r : TemplateRow) (db : Db)
      → (insert r db).0 ≡ ok tt
      → rows (insert r db).1 ≡ rows db ++ r ∷ []
  pub insert_err :
      (r : TemplateRow) (db : Db) (e : Error)
      → (insert r db).0 ≡ err e
      → rows (insert r db).1 ≡ rows db
  pub update_ok :
      (matches : TemplateRow → Bool) (assign : TemplateRow → TemplateRow) (db : Db) (affected : ℕ)
      → (update matches assign db).0 ≡ ok affected
      → rows (update matches assign db).1 ≡ map (touched (server_now db) matches assign) (rows db)
  pub update_err :
      (matches : TemplateRow → Bool) (assign : TemplateRow → TemplateRow) (db : Db) (e : Error)
      → (update matches assign db).0 ≡ err e
      → rows (update matches assign db).1 ≡ rows db
  pub delete_ok :
      (matches : TemplateRow → Bool) (db : Db) (affected : ℕ)
      → (delete matches db).0 ≡ ok affected
      → rows (delete matches db).1 ≡ select (λ r. not (matches r)) (rows db)
  pub delete_err :
      (matches : TemplateRow → Bool) (db : Db) (e : Error)
      → (delete matches db).0 ≡ err e
      → rows (delete matches db).1 ≡ rows db
  pub query_row_rows :
      (matches : TemplateRow → Bool) (db : Db) → rows (query_row matches db).1 ≡ rows db
  pub query_row_some :
      (matches : TemplateRow → Bool) (db : Db) (r : TemplateRow)
      → (query_row matches db).0 ≡ ok (some r)
      → (matches r ≡ true) × Memᴰ r (rows db)

module _ (names : Names) (server : TemplateServer) where
  open server use {Db, now, insert, update, delete, query_row}

  mapped_error : Result (Unit {0}) × Db → Result (Unit {0}) × Db
  mapped_error (ok u, db) = (ok u, db)
  mapped_error (err e, db) = (err (map_pg_error e), db)

  insert_template : Template → Result String → Db → Result (Unit {0}) × Db
  unfolding mapped_error
  insert_template t (err e) db = (err (wrap "marshaling template variables" e), db)
  insert_template t (ok variables) db = mapped_error (insert (template_columns t variables) db)

  -- TemplateRepository.Create
  unfoldable pub create_template : Template → Db → Result (Unit {0}) × Db
  unfolding insert_template
  create_template t db = insert_template t (names.marshal t.variables) db

  variables_of : String → Result (List String)
  variables_of text = if str_eq text "" then ok [] else elim (names.unmarshal text) [
    | ok variables ↦ ok variables
    | err e ↦ err (wrap "unmarshaling template variables" e)
  ]

  with_variables : TemplateRow → Result (List String) → Result Template
  with_variables r (err e) = err e
  with_variables r (ok variables) = ok (template_fields r variables)

  unfoldable pub scan_template : Result (Option TemplateRow) → Result Template
  unfolding variables_of with_variables
  scan_template (err e) = err (wrap "scanning template" e)
  scan_template (ok none) = err (sentinel not_found)
  scan_template (ok (some r)) = with_variables r (variables_of r.variables)

  -- GetByID and GetByName
  unfoldable pub get_template : (TemplateRow → Bool) → Db → Result Template × Db
  get_template matches db = let (found, db') = query_row matches db in (scan_template found, db')

  unfoldable pub get_template_by_id : Uuid → Db → Result Template × Db
  get_template_by_id id db = get_template (has_template_id id) db

  unfoldable pub get_template_by_name : String → Db → Result Template × Db
  get_template_by_name name db = get_template (λ r. str_eq r.name name) db

  found_or_not : Uuid → Result ℕ × Db → Result (Unit {0}) × Db
  found_or_not id (err e, db) = (err e, db)
  found_or_not id (ok affected, db) =
      if affected == 0 then (err (not_found_error "template" id), db) else (ok tt, db)

  mapped_count : Result ℕ × Db → Result ℕ × Db
  mapped_count (ok affected, db) = (ok affected, db)
  mapped_count (err e, db) = (err (map_pg_error e), db)

  replace_template : Template → Result String → Db → Result (Unit {0}) × Db
  unfolding mapped_count found_or_not
  replace_template t (err e) db = (err (wrap "marshaling template variables" e), db)
  replace_template t (ok variables) db =
      found_or_not t.id
        (mapped_count (update (has_template_id t.id) (set_template t variables (now db)) db))

  -- TemplateRepository.Update
  unfoldable pub update_template : Template → Db → Result (Unit {0}) × Db
  unfolding replace_template
  update_template t db = replace_template t (names.marshal t.variables) db

  wrapped_count : Result ℕ × Db → Result ℕ × Db
  wrapped_count (ok affected, db) = (ok affected, db)
  wrapped_count (err e, db) = (err (wrap "deleting template" e), db)

  -- TemplateRepository.Delete
  unfoldable pub delete_template : Uuid → Db → Result (Unit {0}) × Db
  unfolding wrapped_count found_or_not
  delete_template id db = found_or_not id (wrapped_count (delete (has_template_id id) db))
