-- ===== src/Template.antt =====
-- internal/domain/entity/template.go, internal/template/engine.go and
-- internal/service/template_service.go. The regular expression of placeholders, the packages
-- text/template and the repository's queries are parameters.
pub mod Rendering
pub mod Store
use Prim.Native.String.{◌++◌ as ◌+++◌}
use insider_one_notification.Prelude.{
  ℕ, String, Bool, true, false, not, ◌&&◌, Option, none, some, List, [], ◌∷◌, ◌++◌, any, select,
  str_eq, ◌==◌, if◌then◌else◌,
}
use insider_one_notification.Errors.{Error, plain, wrap, validation_error}
use insider_one_notification.Result.{Result, ok, err, ◌>>=◌}
use insider_one_notification.Entity.{Channel, Uuid, Vars, Time}
use insider_one_notification.Entity.Channels
use insider_one_notification.Entity.Validation.{check, is_blank, is_email}
use insider_one_notification.NotificationService.{message, join_messages}

pub record Template : Type 0 where
  pub id : Uuid
  pub name : String
  pub channel : Channel
  pub subject : Option String
  pub content : String
  pub variables : List String
  pub is_active : Bool
  pub created_at : Time
  pub updated_at : Time

abbrev pub contains : String → List String → Bool
contains name names = any (λ x. str_eq x name) names

-- The keys of the set, once each; their order is not specified in the source.
unfoldable pub unique_keys : List String → List String
unique_keys [] = []
unique_keys (x ∷ xs) = let rest = unique_keys xs in if contains x rest then rest else x ∷ rest

-- `_, ok := provided[name]`
abbrev pub is_provided : String → Vars → Bool
is_provided name vars = any (λ v. str_eq v.0 name) vars

unfoldable pub join_names : List String → String
join_names [] = ""
join_names (n ∷ []) = n
join_names (n ∷ m ∷ ns) = n +++ (", " +++ join_names (m ∷ ns))

abbrev pub missing_error : List String → Option Error
missing_error [] = none
missing_error (m ∷ ms) =
    some (plain ("missing required template variables: " +++ join_names (m ∷ ms)))

unfoldable pub validate_variables : List String → Vars → Option Error
validate_variables required provided =
    missing_error (select (λ name. not (is_provided name provided)) required)

-- `fmt.Errorf("...: %w", err)` around a call that may fail.
abbrev pub in_context {ℓ} : {A : Type ℓ} → String → Result A → Result A
in_context context (ok a) = ok a
in_context context (err e) = err (wrap context e)

-- text/template and the regular expression.
pub record Engine : Type 1 where
  pub Parsed : Type 0
  pub parse : String → Result Parsed
  pub execute : Parsed → Vars → Result String
  -- The first groups of all matches of templateVarPattern.
  pub find_variables : String → List String

module _ (engine : Engine) where
  open engine use {parse, execute, find_variables}

  unfoldable pub extract_variables : String → List String
  extract_variables content = unique_keys (find_variables content)

  unfoldable pub new_template : Uuid → Time → String → Channel → String → Template
  new_template id now name channel content = record {
    id = id;
    name = name;
    channel = channel;
    subject = none;
    content = content;
    variables = extract_variables content;
    is_active = true;
    created_at = now;
    updated_at = now;
  }

  -- The loop over the declared variables.
  unfoldable pub check_variables : List String → List String → List Error
  check_variables found [] = []
  check_variables found (v ∷ vs) =
      check (not (contains v found)) "declared variable not found in content"
      ++ check_variables found vs

  unfoldable pub validate : Template → List Error
  validate t =
      check (t.id == 0) "id must not be nil"
      ++ (check (str_eq t.name "") "name must not be empty"
          ++ (check (not (Channels.is_valid t.channel)) "channel is not valid"
              ++ (check (str_eq t.content "") "content must not be empty"
                  ++ (check (is_email t.channel && is_blank t.subject)
                        "subject is required for email templates"
                      ++ check_variables (find_variables t.content) t.variables))))

  unfoldable pub render_text : String → Vars → Result String
  render_text content vars = do
    parsed ← in_context "parsing template" (parse content)
    in_context "executing template" (execute parsed vars)

  abbrev pub render_subject : Option String → Vars → Result String
  render_subject none vars = ok ""
  render_subject (some s) vars =
      if str_eq s "" then ok "" else in_context "rendering template subject" (render_text s vars)

  unfoldable pub render_checked : Option Error → Template → Vars → Result (String × String)
  render_checked (some e) t vars = err (validation_error "variables" (message e))
  render_checked none t vars = do
    content ← in_context "rendering template content" (render_text t.content vars)
    subject ← render_subject t.subject vars
    ok (subject, content)

  abbrev pub render_loaded : Result Template → Vars → Result (String × String)
  render_loaded (err e) vars = err (wrap "loading template for render" e)
  render_loaded (ok t) vars = render_checked (validate_variables t.variables vars) t vars

  -- templateService.Render, from what GetByID of the repository returns.
  unfoldable pub render : (Uuid → Result Template) → Uuid → Vars → Result (String × String)
  render get_by_id id vars = render_loaded (get_by_id id) vars

  -- validateTemplate
  unfoldable pub validate_template : Template → Option Error
  validate_template t = elim (validate t) [
    | [] ↦ none
    | e ∷ es ↦ some (validation_error "template" (join_messages (e ∷ es)))
  ]

  -- Create and Update, from what the repository's method does and the context of its error.
  abbrev pub save_valid :
      {Db : Type 0}
      → Option Error
      → String
      → (Db → Result (Unit {0}) × Db)
      → Db
      → Result (Unit {0}) × Db
  save_valid (some e) context write db = (err e, db)
  save_valid none context write db =
      let (result, db') = write db in (in_context context result, db')

  unfoldable pub create :
      {Db : Type 0}
      → (Template → Db → Result (Unit {0}) × Db)
      → Template
      → Db
      → Result (Unit {0}) × Db
  create insert t db = save_valid (validate_template t) "persisting template" (insert t) db

  unfoldable pub update :
      {Db : Type 0}
      → (Template → Db → Result (Unit {0}) × Db)
      → Template
      → Db
      → Result (Unit {0}) × Db
  update replace t db = save_valid (validate_template t) "updating template" (replace t) db
