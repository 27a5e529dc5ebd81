-- ===== src/Handler/Templates/Sound.antt =====
-- Every run of template requests keeps the table sound.
use insider_one_notification.Prelude.{ℕ, ◌≡◌, refl, Option, none, some, String, List, [], ◌∷◌}
use insider_one_notification.Result.{Result, ok, err}
use insider_one_notification.Entity.{Uuid, Time, Vars}
use insider_one_notification.Entity.Channels
use insider_one_notification.Template
use insider_one_notification.Template.{
  Template, Engine, in_context, new_template, extract_variables,
}
use insider_one_notification.Template.Store.{
  Names, TemplateServer, create_template, get_template_by_id, update_template, delete_template,
}
use insider_one_notification.Template.Store.Sound.{
  AllSound, HasItsVariables, create-AllSound, update-AllSound, delete-AllSound, get-AllSound,
}
use insider_one_notification.Handler.Templates.{
  TemplateWeb, CreateTemplateRequest, UpdateTemplateRequest, apply_content, apply_update, given,
  given_channel, given_subject, template_saved, after_bind_template, handle_create_template,
  template_found, load_template, after_parse_get, handle_get_template, after_load_template,
  after_bind_update, after_parse_update, handle_update_template, template_deleted,
  after_parse_delete, handle_delete_template, after_bind_render, after_parse_render,
  handle_render_template,
}

-- The requests, with the ID and the time that a new template is given.
pub data TemplateRequest : Type 0 where
  create : Uuid → Time → String → TemplateRequest
  get : String → TemplateRequest
  update : String → String → TemplateRequest
  delete : String → TemplateRequest
  render : String → String → TemplateRequest

module _ (web : TemplateWeb) (engine : Engine) (names : Names) (server : TemplateServer) where
  open server use {Db}

  unfoldable pub serve : TemplateRequest → Db → Db
  serve (create id at body) db = (handle_create_template web engine names server id at body db).1
  serve (get param) db = (handle_get_template web engine names server param db).1
  serve (update param body) db = (handle_update_template web engine names server param body db).1
  serve (delete param) db = (handle_delete_template web engine names server param db).1
  serve (render param body) db = (handle_render_template web engine names server param body db).1

  unfoldable pub serve_all : List TemplateRequest → Db → Db
  serve_all [] db = db
  serve_all (r ∷ rs) db = serve_all rs (serve r db)

  abbrev pub IsKept : Db → Type 0
  IsKept db = AllSound engine names server db

  saved-IsKept :
      (code : ℕ) (t : Template) (out : Result (Unit {0}) × Db)
      → IsKept out.1
      → IsKept (template_saved web engine names server code t out).1
  unfolding template_saved
  saved-IsKept code t (err e, db) sound = sound
  saved-IsKept code t (ok u, db) sound = sound

  create-IsKept :
      (id : Uuid) (at : Time) (bound : Result CreateTemplateRequest) (db : Db)
      → IsKept db
      → IsKept (after_bind_template web engine names server id at bound db).1
  unfolding after_bind_template new_template
  create-IsKept id at (err e) db sound = sound
  create-IsKept id at (ok req) db sound =
      let made = new_template engine id at req.name (Channels.of_string req.channel) req.content in
      let t : Template = record made { subject = req.subject } in
      saved-IsKept 201 t (Template.create engine (create_template names server) t db)
        (create-AllSound engine names server t db refl sound)

  content-HasItsVariables :
      (content : Option String) (t : Template)
      → HasItsVariables engine names t
      → HasItsVariables engine names (apply_content web engine names server content t)
  unfolding apply_content
  content-HasItsVariables none t its = its
  content-HasItsVariables (some content) t its = refl

  apply_update-HasItsVariables :
      (req : UpdateTemplateRequest) (t : Template)
      → HasItsVariables engine names t
      → HasItsVariables engine names (apply_update web engine names server req t)
  unfolding apply_update
  apply_update-HasItsVariables req t its =
      content-HasItsVariables req.content
        (record t {
          name = given req.name t.name;
          channel = given_channel req.channel t.channel;
          subject = given_subject req.subject t.subject;
          is_active = given req.is_active t.is_active;
        })
        its

  loaded-IsKept :
      (req : UpdateTemplateRequest) (found : Result Template) (db : Db)
      → IsKept db
      → ((t : Template) → found ≡ ok t → HasItsVariables engine names t)
      → IsKept
          (after_load_template web engine names server req
            (in_context "getting template" found, db)).1
  unfolding after_load_template
  loaded-IsKept req (err e) db sound its = sound
  loaded-IsKept req (ok old) db sound its =
      let t = apply_update web engine names server req old in
      saved-IsKept 200 _ (Template.update engine (update_template names server) t db) (
        update-AllSound engine names server t db
          (apply_update-HasItsVariables req old (its old refl)) sound)

  update-IsKept :
      (id : Uuid) (bound : Result UpdateTemplateRequest) (db : Db)
      → IsKept db
      → IsKept (after_bind_update web engine names server id bound db).1
  unfolding after_bind_update load_template
  update-IsKept id (err e) db sound = sound
  update-IsKept id (ok req) db sound =
      let (found, db') = get_template_by_id names server id db in
      let (sound', its) = get-AllSound engine names server id db sound in
      loaded-IsKept req found db' sound' its

  found-IsKept :
      (out : Result Template × Db)
      → IsKept out.1
      → IsKept (template_found web engine names server out).1
  unfolding template_found
  found-IsKept (err e, db) sound = sound
  found-IsKept (ok t, db) sound = sound

  deleted-IsKept :
      (out : Result (Unit {0}) × Db)
      → IsKept out.1
      → IsKept (template_deleted web engine names server out).1
  unfolding template_deleted
  deleted-IsKept (err e, db) sound = sound
  deleted-IsKept (ok u, db) sound = sound

  get-IsKept :
      (id : Option Uuid) (db : Db)
      → IsKept db
      → IsKept (after_parse_get web engine names server id db).1
  unfolding after_parse_get load_template
  get-IsKept none db sound = sound
  get-IsKept (some id) db sound =
      let (found, db') = get_template_by_id names server id db in
      found-IsKept (in_context "getting template" found, db')
        (get-AllSound engine names server id db sound).0

  put-IsKept :
      (id : Option Uuid) (body : String) (db : Db)
      → IsKept db
      → IsKept (after_parse_update web engine names server id body db).1
  unfolding after_parse_update
  put-IsKept none body db sound = sound
  put-IsKept (some id) body db sound = update-IsKept id (web.bind_update body) db sound

  delete-IsKept :
      (id : Option Uuid) (db : Db)
      → IsKept db
      → IsKept (after_parse_delete web engine names server id db).1
  unfolding after_parse_delete
  delete-IsKept none db sound = sound
  delete-IsKept (some id) db sound =
      deleted-IsKept (delete_template names server id db)
        (delete-AllSound engine names server id db sound)

  bound_render-IsKept :
      (id : Uuid) (bound : Result Vars) (db : Db)
      → IsKept db
      → IsKept (after_bind_render web engine names server id bound db).1
  unfolding after_bind_render
  bound_render-IsKept id (err e) db sound = sound
  bound_render-IsKept id (ok vars) db sound = (get-AllSound engine names server id db sound).0

  render-IsKept :
      (id : Option Uuid) (body : String) (db : Db)
      → IsKept db
      → IsKept (after_parse_render web engine names server id body db).1
  unfolding after_parse_render
  render-IsKept none body db sound = sound
  render-IsKept (some id) body db sound = bound_render-IsKept id (web.bind_render body) db sound

  serve-IsKept : (r : TemplateRequest) (db : Db) → IsKept db → IsKept (serve r db)
  unfolding serve handle_create_template handle_get_template handle_update_template
      handle_delete_template handle_render_template
  serve-IsKept (create id at body) db sound = create-IsKept id at (web.bind_create body) db sound
  serve-IsKept (get param) db sound = get-IsKept (web.parse_uuid param) db sound
  serve-IsKept (update param body) db sound = put-IsKept (web.parse_uuid param) body db sound
  serve-IsKept (delete param) db sound = delete-IsKept (web.parse_uuid param) db sound
  serve-IsKept (render param body) db sound = render-IsKept (web.parse_uuid param) body db sound

  -- If every row of the table is a valid template whose variables are those of its content, written as
  -- JSON, then so it is after every sequence of requests, whatever fails on the way: no partial update
  -- leaves variables that the content does not have.
  pub serve_all-AllSound :
      (rs : List TemplateRequest) (db : Db)
      → AllSound engine names server db
      → AllSound engine names server (serve_all rs db)
  unfolding serve_all
  serve_all-AllSound [] db sound = sound
  serve_all-AllSound (r ∷ rs) db sound =
      serve_all-AllSound rs (serve r db) (serve-IsKept r db sound)
