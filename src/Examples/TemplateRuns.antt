-- ===== src/Examples/TemplateRuns.antt =====
-- A template with one variable, over an engine that renders every text as "Hello".
use insider_one_notification.Prelude.{◌≡◌, ◌↔◌, refl, String, true, none, [], ◌∷◌}
use insider_one_notification.Errors.{validation_error}
use insider_one_notification.Result.{Result, ok, err}
use insider_one_notification.Entity.{Uuid, Vars, sms}
use insider_one_notification.Template.{Template, Engine, render}
use insider_one_notification.Template.Rendering.{
  AreProvided, Renders, RendersSubject, render_outcome,
}

abbrev pub greeter : Engine
greeter = record {
  Parsed = String;
  parse = λ content. ok content;
  execute = λ parsed vars. ok "Hello";
  find_variables = λ content. "Name" ∷ [];
}

abbrev pub greeting : Template
greeting = record {
  id = 1;
  name = "greeting";
  channel = sms;
  subject = none;
  content = "Hello {{.Name}}";
  variables = "Name" ∷ [];
  is_active = true;
  created_at = 0;
  updated_at = 0;
}

abbrev stored : Uuid → Result Template
stored id = ok greeting

abbrev named : Vars
named = ("Name", "Ada") ∷ []

render_outcome_example :
    ((render greeter stored 1 named ≡ ok ("", "Hello")) ↔ (
      AreProvided greeting.variables named
      × Renders greeter greeting.content named "Hello"
      × RendersSubject greeter greeting.subject named ""))
    × (¬ (AreProvided greeting.variables named)
        → (text : String) × (render greeter stored 1 named
            ≡ err (validation_error "variables" text)))
render_outcome_example = render_outcome greeter stored 1 named greeting "" "Hello" refl
