-- ===== src/NotificationService/Batch/Prepared.antt =====
-- What CreateBatch checks and writes of each notification before it stores the batch.
use insider_one_notification.Prelude.{
  ◌≡◌, refl, sym, ap, ◌∙◌, Option, none, some, List, [], ◌∷◌, AllPairs, String, str_eq,
  if◌then◌else◌,
}
use insider_one_notification.Errors.{Error, validation_error}
use insider_one_notification.Result.{Result, ok, err, >>=-eq-ok, ok-injective}
use insider_one_notification.Entity.{Notification, pending, Uuid}
use insider_one_notification.Entity.Validation.{validate}
use insider_one_notification.Entity.Validation.Rules.{IsWellFormed, validate_iff-IsWellFormed}
use insider_one_notification.NotificationService.{
  NotificationService, rendered, render_with, render_template, with_rendered, validate_notification,
  join_messages,
}
use insider_one_notification.NotificationService.Batch.{
  in_batch, at_index, unless_invalid, prepare_one, prepare,
}

module _ (s : NotificationService) where
  -- What is stored for a notification of the batch: it is valid, pending and of the batch, and its subject
  -- and content are as given or, with a template, rendered.
  abbrev pub IsPrepared : Uuid → Notification → Notification → Type 0
  IsPrepared batch_id n m =
      IsWellFormed s.parse_address (record m { batch_id = n.batch_id; status = n.status })
      × (m ≡ record n {
        batch_id = some batch_id;
        status = pending;
        subject = m.subject;
        content = m.content;
      })
      × (n.template_id ≡ none → (m.subject ≡ n.subject) × (m.content ≡ n.content))
      × ((id : Uuid)
          → n.template_id ≡ some id
          → (subject : String) × (s.render id n.template_vars ≡ ok (subject, m.content))
            × (m.subject ≡ (if str_eq subject "" then n.subject else some subject)))

  rendered-ok :
      (n m : Notification) (out : Result (String × String))
      → rendered s n out ≡ ok m
      → (text : String × String) × (out ≡ ok text) × (with_rendered n text.0 text.1 ≡ m)
  unfolding rendered
  rendered-ok n m (err e) h = cc
  rendered-ok n m (ok (subject, content)) h = ((subject, content), refl, cc)

  render-IsRendered :
      (n m : Notification) (template_id : Option Uuid)
      → n.template_id ≡ template_id
      → render_with s template_id n ≡ ok m
      → (m ≡ record n { subject = m.subject; content = m.content })
        × (n.template_id ≡ none → (m.subject ≡ n.subject) × (m.content ≡ n.content))
        × ((id : Uuid)
            → n.template_id ≡ some id
            → (subject : String) × (s.render id n.template_vars ≡ ok (subject, m.content))
              × (m.subject ≡ (if str_eq subject "" then n.subject else some subject)))
  unfolding render_with rendered
  render-IsRendered n m none same h =
      let e : n ≡ m = cc in
      (
        sym e ∙ ap (λ (x : Notification). record n { subject = x.subject; content = x.content }) e,
        λ none_at. (
          ap (λ (x : Notification). x.subject) (sym e),
          ap (λ (x : Notification). x.content) (sym e),
        ),
        λ id some_at. cc,
      )
  render-IsRendered n m (some id) same h =
      let ((subject, content), made, e) = rendered-ok n m (s.render id n.template_vars) h in
      rw (sym e) (
        refl,
        λ none_at. cc,
        λ id' some_at. let one : id ≡ id' = cc in (subject, rw (sym one) made, refl),
      )

  no_errors :
      (es : List Error)
      → ◌≡◌ {A = Option Error}
          (elim es [
            | [] ↦ none
            | e ∷ es' ↦ some (validation_error "notification" (join_messages (e ∷ es')))
          ])
          none
      → es ≡ []
  no_errors [] h = refl
  no_errors (e ∷ es) h = cc

  valid-IsWellFormed :
      (n : Notification)
      → validate_notification s.parse_address n ≡ none
      → IsWellFormed s.parse_address n
  unfolding validate_notification
  valid-IsWellFormed n h =
      (validate_iff-IsWellFormed s.parse_address n).0 (no_errors (validate s.parse_address n) h)

  at_index-ok : (r : Result Notification) (n : Notification) → at_index r ≡ ok n → r ≡ ok n
  at_index-ok (ok x) n h = h
  at_index-ok (err e) n h = cc

  unless_invalid-ok :
      (failure : Option Error) (n m : Notification)
      → unless_invalid failure n ≡ ok m
      → (failure ≡ none) × (n ≡ m)
  unless_invalid-ok none n m h = (refl, ok-injective h)
  unless_invalid-ok (some e) n m h = cc

  prepare_one-IsPrepared :
      (batch_id : Uuid) (n m : Notification)
      → prepare_one s batch_id n ≡ ok m
      → IsPrepared batch_id n m
  unfolding prepare_one render_template
  prepare_one-IsPrepared batch_id n m h =
      let (made, first, rest) = >>=-eq-ok (at_index (render_with s n.template_id n)) _ h in
      let (valid, second, last) =
        >>=-eq-ok (at_index (unless_invalid (validate_notification s.parse_address made) made)) _
          rest in
      let (same, plain, templated) =
        render-IsRendered n made n.template_id refl (at_index-ok _ made first) in
      let (passed, kept) = unless_invalid-ok _ made valid (at_index-ok _ valid second) in
      let stored : in_batch batch_id made ≡ m = ap (in_batch batch_id) kept ∙ ok-injective last in
      let whole : record made { batch_id = n.batch_id; status = n.status } ≡ made =
        ap (λ (x : Notification). record made { batch_id = x.batch_id; status = x.status })
          (sym same) in
      rw (sym stored) (
        rw whole (valid-IsWellFormed made passed),
        ap (λ (x : Notification). record x { batch_id = some batch_id; status = pending }) same,
        plain,
        templated,
      )

  pub prepare-IsPrepared :
      (batch_id : Uuid) (ns valid : List Notification)
      → prepare s batch_id ns ≡ ok valid
      → AllPairs (IsPrepared batch_id) ns valid
  unfolding prepare
  prepare-IsPrepared batch_id [] valid h = rw (sym (ok-injective h)) tt
  prepare-IsPrepared batch_id (n ∷ ns) valid h =
      let (m, first, rest) = >>=-eq-ok (prepare_one s batch_id n) _ h in
      let (ms, second, last) = >>=-eq-ok (prepare s batch_id ns) _ rest in
      rw (sym (ok-injective last))
        (prepare_one-IsPrepared batch_id n m first, prepare-IsPrepared batch_id ns ms second)
