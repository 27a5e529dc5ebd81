-- ===== src/Examples/TemplateStoreRuns.antt =====
-- A table of one template, and requests that change it.
use mathlib.Core.List.{Memᴰ}
use insider_one_notification.Prelude.{
  ◌≡◌, refl, sym, ap, inl, inr, Bool, Bool-cases, true, false, not, Option, none, some, String,
  List, [], ◌∷◌, ◌++◌, map, length, select, str_eq, eq_iff, if◌then◌else◌,
}
use insider_one_notification.Errors.{plain}
use insider_one_notification.Result.{Result, ok, err, ok≢err, ok-injective}
use insider_one_notification.Entity.Channels
use insider_one_notification.Template.{unique_keys, extract_variables, validate, check_variables}
use insider_one_notification.Template.Store.{
  TemplateRow, Names, TemplateServer, template_columns, touched,
}
use insider_one_notification.Template.Store.Sound.{AllSound}
use insider_one_notification.Handler.Templates.{TemplateWeb}
use insider_one_notification.Handler.Templates.Sound.{
  TemplateRequest, create, get, update, delete, render, serve_all, serve_all-AllSound,
}
use insider_one_notification.Examples.TemplateRuns.{greeter, greeting}

-- The codec writes one list.
abbrev marshal : List String → Result String
marshal [] = err (plain "unsupported")
marshal (n ∷ []) = if str_eq n "Name" then ok "[Name]" else err (plain "unsupported")
marshal (n ∷ m ∷ ns) = err (plain "unsupported")

marshal_back :
    (names : List String) (text : String)
    → marshal names ≡ ok text
    → ◌≡◌ {A = Result (List String)} (ok ("Name" ∷ [])) (ok names)
marshal_back [] text h = cc
marshal_back (n ∷ []) text h = elim (Bool-cases (str_eq n "Name")) [
  | inl same ↦ ap (λ x. ok (x ∷ [])) (sym ((eq_iff n "Name").0 same))
  | inr other ↦
      let e : ◌≡◌ {A = Result String} (err (plain "unsupported")) (ok text) = rw other at h in cc
]
marshal_back (n ∷ m ∷ ns) text h = cc

marshal_nonempty :
    (names : List String) (text : String) → marshal names ≡ ok text → str_eq text "" ≡ false
marshal_nonempty [] text h = cc
marshal_nonempty (n ∷ []) text h = elim (Bool-cases (str_eq n "Name")) [
  | inl same ↦
      let e : ◌≡◌ {A = Result String} (ok "[Name]") (ok text) = rw same at h in
      rw (sym (ok-injective e))
  | inr other ↦
      let e : ◌≡◌ {A = Result String} (err (plain "unsupported")) (ok text) = rw other at h in cc
]
marshal_nonempty (n ∷ m ∷ ns) text h = cc

abbrev names : Names
names = record {
  marshal = marshal;
  unmarshal = λ text. ok ("Name" ∷ []);
  marshal_back = marshal_back;
  marshal_nonempty = marshal_nonempty;
}

abbrev find : (TemplateRow → Bool) → List TemplateRow → Option TemplateRow
find matches [] = none
find matches (r ∷ rs) = if matches r then some r else find matches rs

find-some :
    (matches : TemplateRow → Bool) (rs : List TemplateRow) (r : TemplateRow)
    → find matches rs ≡ some r
    → (matches r ≡ true) × Memᴰ r rs
find-some matches [] r h = cc
find-some matches (x ∷ rs) r h = elim (Bool-cases (matches x)) [
  | inl hit ↦
      let e : some x ≡ some r = rw hit at h in
      let same : x ≡ r = cc in (rw (sym same) hit, Memᴰ.head (sym same))
  | inr miss ↦ let (hit, m) = find-some matches rs r (rw miss at h) in (hit, Memᴰ.tail m)
]

abbrev server : TemplateServer
server = record {
  Db = List TemplateRow;
  rows = λ db. db;
  now = λ db. 100;
  server_now = λ db. 100;
  insert = λ r db. (ok tt, db ++ r ∷ []);
  update =
      λ matches assign db. (ok (length (select matches db)), map (touched 100 matches assign) db);
  delete = λ matches db. (ok (length (select matches db)), select (λ r. not (matches r)) db);
  query_row = λ matches db. (ok (find matches db), db);
  insert_ok = λ r db h. refl;
  insert_err = λ r db e h. absurd (ok≢err h);
  update_ok = λ matches assign db affected h. refl;
  update_err = λ matches assign db e h. absurd (ok≢err h);
  delete_ok = λ matches db affected h. refl;
  delete_err = λ matches db e h. absurd (ok≢err h);
  query_row_rows = λ matches db. refl;
  query_row_some = λ matches db r h. find-some matches db r (ok-injective h);
}

abbrev web : TemplateWeb
web = record {
  bind_create =
      λ body. ok (record { name = "second"; channel = "push"; subject = none; content = body });
  bind_update = λ body. ok (record {
    name = none;
    channel = none;
    subject = none;
    content = some body;
    is_active = some false;
  });
  bind_render = λ body. ok (("Name", "Ada") ∷ []);
  parse_uuid = λ text. some 1;
  uuid_string = λ id. "1";
  error_text = λ e. "error";
}

abbrev requests : List TemplateRequest
requests =
    create 2 60 "Hi {{.Name}}"
    ∷ update "1" "Bye {{.Name}}"
    ∷ render "1" "{}"
    ∷ get "1"
    ∷ delete "1"
    ∷ []

abbrev rows : List TemplateRow
rows = template_columns greeting "[Name]" ∷ []

rows-AllSound : AllSound greeter names server rows
unfolding extract_variables unique_keys validate check_variables Channels.is_valid
rows-AllSound = ((greeting, "[Name]", refl, refl, refl, refl), tt)

serve_all-AllSound_example :
    AllSound greeter names server (serve_all web greeter names server requests rows)
serve_all-AllSound_example = serve_all-AllSound web greeter names server requests rows rows-AllSound
