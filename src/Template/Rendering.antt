-- ===== src/Template/Rendering.antt =====
-- When Render succeeds, and what ValidateVariables and Validate promise of it.
use insider_one_notification.Prelude.{
  String, ◌≡◌, ◌≢◌, ◌↔◌, refl, sym, ap, ◌∙◌, ◌⊎◌, inl, inr, true, true≢false, str_eq, eq_iff, not,
  Bool-cases, Option, none, some, List, [], ◌∷◌, All, select,
}
use insider_one_notification.Errors.{Error, validation_error}
use insider_one_notification.Result.{Result, ok, err, ◌>>=◌, >>=-eq-ok, ok-injective, ok≢err}
use insider_one_notification.Entity.{Uuid, Vars}
use insider_one_notification.NotificationService.{message}
use insider_one_notification.Template.{
  Template, Engine, is_provided, validate_variables, missing_error, in_context, render_text,
  render_subject, render_checked, render,
}

abbrev pub AreProvided : List String → Vars → Type 0
AreProvided names vars = All (λ name. is_provided name vars ≡ true) names

none_missing :
    (names : List String) (vars : Vars)
    → (select (λ name. not (is_provided name vars)) names ≡ []) ↔ AreProvided names vars
none_missing [] vars = (λ h. tt, λ h. refl)
none_missing (n ∷ ns) vars = elim (Bool-cases (is_provided n vars)) [
  | inl given ↦
      let rest = none_missing ns vars in
      (λ h. (given, rest.0 (rw given at h)), λ h. rw given (rest.1 h.1))
  | inr lacking ↦ (
    λ h.
        let more : n ∷ select (λ name. not (is_provided name vars)) ns ≡ [] = rw lacking at h in
        absurd cc,
    λ h. let given = h.0 in absurd cc,
  )
]

missing_error-none : (ms : List String) → (missing_error ms ≡ none) ↔ (ms ≡ [])
missing_error-none [] = (λ h. refl, λ h. refl)
missing_error-none (m ∷ ms) = (λ h. absurd cc, λ h. absurd cc)

validate_variables-none :
    (names : List String) (vars : Vars)
    → (validate_variables names vars ≡ none) ↔ AreProvided names vars
unfolding validate_variables
validate_variables-none names vars =
    let (to, from) = none_missing names vars in
    let (to', from') = missing_error-none (select (λ name. not (is_provided name vars)) names) in
    (λ h. to (to' h), λ h. from' (from h))

in_context-ok :
    {A : Type 0} (context : String) (r : Result A) (a : A) → in_context context r ≡ ok a → r ≡ ok a
in_context-ok context (ok x) a h = h
in_context-ok context (err e) a h = cc

module _ (engine : Engine) where
  checked_iff :
      (o : Option Error) (t : Template) (vars : Vars) (subject content : String)
      → (render_checked engine o t vars ≡ ok (subject, content)) ↔ (
          (o ≡ none)
          × (render_text engine t.content vars ≡ ok content)
          × (render_subject engine t.subject vars ≡ ok subject))
  unfolding render_checked
  checked_iff (some e) t vars subject content =
      (λ h. absurd (ok≢err (sym h)), λ (x, made, made'). absurd cc)
  checked_iff none t vars subject content = (
    λ h.
        let (c, made, h') =
          >>=-eq-ok (in_context "rendering template content" (render_text engine t.content vars))
            (λ c. render_subject engine t.subject vars >>= λ s. ok (s, c)) h in
        let (s, made', h'') =
          >>=-eq-ok (render_subject engine t.subject vars) (λ s. ok (s, c)) h' in
        let pair : ◌≡◌ {A = String × String} (s, c) (subject, content) = ok-injective h'' in
        let same_s : s ≡ subject = ap (λ (x : String × String). x.0) pair in
        let same_c : c ≡ content = ap (λ (x : String × String). x.1) pair in
        (
          refl,
          in_context-ok "rendering template content" (render_text engine t.content vars) content
              (made ∙ ap (λ x. ok x) same_c),
          made' ∙ ap (λ x. ok x) same_s,
        ),
    λ (x, content_made, subject_made). rw (content_made, subject_made) refl,
  )

  refused :
      (o : Option Error) (t : Template) (vars : Vars)
      → o ≢ none
      → (text : String) × (render_checked engine o t vars ≡ err (validation_error "variables" text))
  unfolding render_checked
  refused none t vars h = absurd (h refl)
  refused (some e) t vars h = (message e, refl)

  -- The text parses as a template, and the template executes to the output.
  abbrev pub Renders : String → Vars → String → Type 0
  Renders text vars out =
      (parsed : engine.Parsed) × (engine.parse text ≡ ok parsed)
      × (engine.execute parsed vars ≡ ok out)

  -- A subject that is absent or empty stays empty.
  abbrev pub RendersSubject : Option String → Vars → String → Type 0
  RendersSubject none vars out = out ≡ ""
  RendersSubject (some text) vars out =
      ((text ≡ "") × (out ≡ "")) ⊎ ((text ≢ "") × Renders text vars out)

  render_text-Renders :
      (text : String) (vars : Vars) (out : String)
      → (render_text engine text vars ≡ ok out) ↔ Renders text vars out
  unfolding render_text
  render_text-Renders text vars out = (
    λ h.
        let (parsed, first, rest) =
          >>=-eq-ok (in_context "parsing template" (engine.parse text)) _ h in
        (
          parsed,
          in_context-ok "parsing template" (engine.parse text) parsed first,
          in_context-ok "executing template" (engine.execute parsed vars) out rest,
        ),
    λ (parsed, made, done). rw made (rw done refl),
  )

  subject-Renders :
      (subject : Option String) (vars : Vars) (out : String)
      → (render_subject engine subject vars ≡ ok out) ↔ RendersSubject subject vars out
  subject-Renders none vars out = (λ h. sym (ok-injective h), λ e. ap (λ x. ok x) (sym e))
  subject-Renders (some text) vars out =
      let (to, from) = render_text-Renders text vars out in
      elim (Bool-cases (str_eq text "")) [
        | inl empty ↦ (
          λ h. inl ((eq_iff text "").0 empty, sym (ok-injective (rw empty at h))),
          λ made. elim made [
            | inl (none_given, e) ↦ rw empty (ap (λ x. ok x) (sym e))
            | inr (given, e) ↦ absurd (given ((eq_iff text "").0 empty))
          ],
        )
        | inr given ↦ (
          λ h.
              let inner : in_context "rendering template subject" (render_text engine text vars)
                  ≡ ok out =
                rw given at h in
              inr (
                λ e. absurd (true≢false (sym ((eq_iff text "").1 e) ∙ given)),
                to (
                    in_context-ok "rendering template subject" (render_text engine text vars) out
                      inner),
              ),
          λ made. elim made [
            | inl (e, same) ↦ absurd (true≢false (sym ((eq_iff text "").1 e) ∙ given))
            | inr (full, e) ↦ rw given (rw (from e) refl)
          ],
        )
      ]

  -- Render returns a subject and a content exactly when the template's variables are all provided, its
  -- content parses and executes to that content, and its subject to that subject, which is empty if the
  -- template has none or an empty one. With a variable missing it returns a ValidationError, whatever
  -- the template holds.
  pub render_outcome :
      (get_by_id : Uuid → Result Template) (id : Uuid) (vars : Vars) (t : Template)
      (subject content : String)
      → get_by_id id ≡ ok t
      → ((render engine get_by_id id vars ≡ ok (subject, content)) ↔ (
          AreProvided t.variables vars
          × Renders t.content vars content
          × RendersSubject t.subject vars subject))
        × (¬ (AreProvided t.variables vars)
            → (text : String) × (render engine get_by_id id vars
                ≡ err (validation_error "variables" text)))
  unfolding render
  render_outcome get_by_id id vars t subject content found =
      let (to, from) = checked_iff (validate_variables t.variables vars) t vars subject content in
      let (to', from') = validate_variables-none t.variables vars in
      rw found (
        (
          λ h.
              let (given, content_made, subject_made) = to h in
              (
                to' given,
                (render_text-Renders t.content vars content).0 content_made,
                (subject-Renders t.subject vars subject).0 subject_made,
              ),
          λ (given, content_made, subject_made). from (
            from' given,
            (render_text-Renders t.content vars content).1 content_made,
            (subject-Renders t.subject vars subject).1 subject_made,
          ),
        ),
        λ lacking. refused (validate_variables t.variables vars) t vars (λ z. lacking (to' z)),
      )
