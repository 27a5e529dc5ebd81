-- ===== src/Handler/Templates.antt =====
-- internal/delivery/handler/template_handler.go: Create, GetByID, Update, Delete and Render, with their
-- requests and responses of internal/delivery/handler/dto.go, over the template service and the table of
-- the templates. What uuid.New and time.Now return in NewTemplate are arguments.
pub mod Sound
use insider_one_notification.Prelude.{ℕ, Bool, Option, none, some, String, List, [], ◌∷◌}
use insider_one_notification.Errors.{Error, wrap}
use insider_one_notification.Result.{Result, ok, err}
use insider_one_notification.Entity.{Channel, Uuid, Time, Vars}
use insider_one_notification.Entity.Channels
use insider_one_notification.Handler.{respond, map_domain_error}
use insider_one_notification.Handler.Notifications.{Answer, refused, reply}
use insider_one_notification.Template
use insider_one_notification.Template.{
  Template, Engine, new_template, extract_variables, in_context, render,
}
use insider_one_notification.Template.Store.{
  Names, TemplateServer, create_template, get_template_by_id, update_template, delete_template,
}

pub record CreateTemplateRequest : Type 0 where
  pub name : String
  pub channel : String
  pub subject : Option String
  pub content : String

pub record UpdateTemplateRequest : Type 0 where
  pub name : Option String
  pub channel : Option String
  pub subject : Option String
  pub content : Option String
  pub is_active : Option Bool

pub record TemplateResponse : Type 0 where
  pub id : String
  pub name : String
  pub channel : String
  pub subject : Option String
  pub content : String
  pub variables : List String
  pub is_active : Bool
  pub created_at : Time
  pub updated_at : Time

pub record RenderTemplateResponse : Type 0 where
  pub subject : String
  pub content : String

pub record TemplateWeb : Type 0 where
  pub bind_create : String → Result CreateTemplateRequest
  pub bind_update : String → Result UpdateTemplateRequest
  pub bind_render : String → Result Vars
  pub parse_uuid : String → Option Uuid
  pub uuid_string : Uuid → String
  pub error_text : Error → String

-- `if req.Name != nil { ... }`
abbrev pub given {ℓ} : {A : Type ℓ} → Option A → A → A
given none old = old
given (some new) old = new

abbrev pub given_subject : Option String → Option String → Option String
given_subject none old = old
given_subject (some new) old = some new

abbrev pub given_channel : Option String → Channel → Channel
given_channel none old = old
given_channel (some new) old = Channels.of_string new

module _ (web : TemplateWeb) where
  open web use {parse_uuid, uuid_string, error_text}

  unfoldable pub map_template_to_response : Template → TemplateResponse
  map_template_to_response t = record {
    id = uuid_string t.id;
    name = t.name;
    channel = Channels.to_string t.channel;
    subject = t.subject;
    content = t.content;
    variables = t.variables;
    is_active = t.is_active;
    created_at = t.created_at;
    updated_at = t.updated_at;
  }

  bad_template_request : {A : Type 0} → String → Answer A
  bad_template_request text = refused (respond 400 text)

  module _ (engine : Engine) (names : Names) (server : TemplateServer) where
    open server use {Db, now}

    apply_content : Option String → Template → Template
    apply_content none t = t
    apply_content (some content) t = record t {
      content = content;
      variables = extract_variables engine content;
    }

    -- The partial update.
    unfoldable pub apply_update : UpdateTemplateRequest → Template → Template
    unfolding apply_content
    apply_update req t = apply_content req.content (record t {
      name = given req.name t.name;
      channel = given_channel req.channel t.channel;
      subject = given_subject req.subject t.subject;
      is_active = given req.is_active t.is_active;
    })

    template_saved : ℕ → Template → Result (Unit {0}) × Db → Answer TemplateResponse × Db
    unfolding map_template_to_response
    template_saved code t (err e, db) = (refused (map_domain_error error_text e), db)
    template_saved code t (ok u, db) = (reply code (map_template_to_response t), db)

    after_bind_template :
        Uuid → Time → Result CreateTemplateRequest → Db → Answer TemplateResponse × Db
    unfolding template_saved bad_template_request
    after_bind_template id at (err e) db = (bad_template_request (error_text e), db)
    after_bind_template id at (ok req) db =
        let t =
          record (new_template engine id at req.name (Channels.of_string req.channel) req.content) {
            subject = req.subject;
          } in
        template_saved 201 t (Template.create engine (create_template names server) t db)

    -- TemplateHandler.Create
    unfoldable pub handle_create_template : Uuid → Time → String → Db → Answer TemplateResponse × Db
    unfolding after_bind_template
    handle_create_template id at body db = after_bind_template id at (web.bind_create body) db

    template_found : Result Template × Db → Answer TemplateResponse × Db
    unfolding map_template_to_response
    template_found (err e, db) = (refused (map_domain_error error_text e), db)
    template_found (ok t, db) = (reply 200 (map_template_to_response t), db)

    -- templateService.GetByID
    unfoldable pub load_template : Uuid → Db → Result Template × Db
    load_template id db =
        let (found, db') = get_template_by_id names server id db in
        (in_context "getting template" found, db')

    after_parse_get : Option Uuid → Db → Answer TemplateResponse × Db
    unfolding template_found bad_template_request
    after_parse_get none db = (bad_template_request "invalid template id", db)
    after_parse_get (some id) db = template_found (load_template id db)

    -- TemplateHandler.GetByID
    unfoldable pub handle_get_template : String → Db → Answer TemplateResponse × Db
    unfolding after_parse_get
    handle_get_template param db = after_parse_get (parse_uuid param) db

    -- Update of the repository also sets UpdatedAt of the template that is shown.
    after_load_template :
        UpdateTemplateRequest → Result Template × Db → Answer TemplateResponse × Db
    unfolding template_saved
    after_load_template req (err e, db) = (refused (map_domain_error error_text e), db)
    after_load_template req (ok old, db) =
        let t = apply_update req old in
        template_saved 200 (record t { updated_at = now db })
          (Template.update engine (update_template names server) t db)

    after_bind_update : Uuid → Result UpdateTemplateRequest → Db → Answer TemplateResponse × Db
    unfolding after_load_template bad_template_request
    after_bind_update id (err e) db = (bad_template_request (error_text e), db)
    after_bind_update id (ok req) db = after_load_template req (load_template id db)

    after_parse_update : Option Uuid → String → Db → Answer TemplateResponse × Db
    unfolding after_bind_update bad_template_request
    after_parse_update none body db = (bad_template_request "invalid template id", db)
    after_parse_update (some id) body db = after_bind_update id (web.bind_update body) db

    -- TemplateHandler.Update
    unfoldable pub handle_update_template : String → String → Db → Answer TemplateResponse × Db
    unfolding after_parse_update
    handle_update_template param body db = after_parse_update (parse_uuid param) body db

    template_deleted : Result (Unit {0}) × Db → Answer (Unit {0}) × Db
    template_deleted (err e, db) =
        (refused (map_domain_error error_text (wrap "deleting template" e)), db)
    template_deleted (ok u, db) = (reply 204 tt, db)

    after_parse_delete : Option Uuid → Db → Answer (Unit {0}) × Db
    unfolding template_deleted bad_template_request
    after_parse_delete none db = (bad_template_request "invalid template id", db)
    after_parse_delete (some id) db = template_deleted (delete_template names server id db)

    -- TemplateHandler.Delete
    unfoldable pub handle_delete_template : String → Db → Answer (Unit {0}) × Db
    unfolding after_parse_delete
    handle_delete_template param db = after_parse_delete (parse_uuid param) db

    template_rendered : Result (String × String) → Answer RenderTemplateResponse
    template_rendered (err e) = refused (map_domain_error error_text e)
    template_rendered (ok (subject, content)) =
        reply 200 (record { subject = subject; content = content })

    after_bind_render : Uuid → Result Vars → Db → Answer RenderTemplateResponse × Db
    unfolding template_rendered bad_template_request
    after_bind_render id (err e) db = (bad_template_request (error_text e), db)
    after_bind_render id (ok vars) db =
        let (found, db') = get_template_by_id names server id db in
        (template_rendered (render engine (λ x. found) id vars), db')

    after_parse_render : Option Uuid → String → Db → Answer RenderTemplateResponse × Db
    unfolding after_bind_render bad_template_request
    after_parse_render none body db = (bad_template_request "invalid template id", db)
    after_parse_render (some id) body db = after_bind_render id (web.bind_render body) db

    -- TemplateHandler.Render
    unfoldable pub handle_render_template :
        String → String → Db → Answer RenderTemplateResponse × Db
    unfolding after_parse_render
    handle_render_template param body db = after_parse_render (parse_uuid param) body db
