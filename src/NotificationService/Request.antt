-- ===== src/NotificationService/Request.antt =====
-- What Create may write into the notification that it is given.
use insider_one_notification.Prelude.{ℕ, ◌≢◌, ◌≡◌, refl, sym, ap, Option, none, some, String}
use insider_one_notification.Errors.{Error}
use insider_one_notification.Result.{Result, ok, err}
use insider_one_notification.Entity.{Notification, Uuid, pending, queued}
use insider_one_notification.NotificationService.{
  NotificationService, World, with_rendered, broadcast_status, rendered, render_with,
  render_template, after_update, after_enqueue, dispatch, after_create, after_validation,
  after_render, validate_notification, create,
}

-- All fields but the subject, the content and the status are the same, and without a template the subject
-- and the content too.
abbrev pub SameRequest : Notification → Notification → Type 0
SameRequest n m =
    (record m { subject = n.subject; content = n.content; status = n.status } ≡ n)
    × (n.template_id ≡ none → (m.subject ≡ n.subject) × (m.content ≡ n.content))

module _ (s : NotificationService) where
  open s use {repo, producer, pubsub}

  update-SameRequest :
      (n m : Notification) (w : World s) (out : Result (Unit {0}) × repo.Db)
      → SameRequest n m
      → SameRequest n (after_update s m w out).1
  unfolding after_update
  update-SameRequest n m w (err e, db) same = same
  update-SameRequest n m w (ok u, db) same = same

  enqueue-SameRequest :
      (n m : Notification) (w : World s) (out : Result (Unit {0}) × producer.Queue)
      → SameRequest n m
      → SameRequest n (after_enqueue s m w out).1
  unfolding after_enqueue
  enqueue-SameRequest n m w (err e, queue) same = same
  enqueue-SameRequest n m w (ok u, queue) same =
      let m' : Notification = record m { status = queued } in
      let w₁ : World s = record w { queue = queue } in
      update-SameRequest n m' w₁ (repo.update_status m.id queued none none w.db) same

  dispatch-SameRequest :
      (n m : Notification) (w : World s) (scheduled_at : Option ℕ)
      → SameRequest n m
      → SameRequest n (dispatch s scheduled_at m w).1
  unfolding dispatch
  dispatch-SameRequest n m w (some at) same = same
  dispatch-SameRequest n m w none same = enqueue-SameRequest n m w (producer.enqueue m w.queue) same

  row-SameRequest :
      (n m : Notification) (w : World s) (out : Result (Unit {0}) × repo.Db)
      → SameRequest n m
      → SameRequest n (after_create s m w out).1
  unfolding after_create
  row-SameRequest n m w (err e, db) same = same
  row-SameRequest n m w (ok u, db) same =
      dispatch-SameRequest n m (broadcast_status s m.id m.status (record w { db = db }))
        m.scheduled_at same

  validation-SameRequest :
      (n m : Notification) (w : World s) (invalid : Option Error)
      → SameRequest n m
      → SameRequest n (after_validation s invalid m w).1
  unfolding after_validation
  validation-SameRequest n m w (some e) same = same
  validation-SameRequest n m w none same =
      let m' : Notification = record m { status = pending } in
      row-SameRequest n m' w (repo.create m' w.db) same

  rendered-SameRequest :
      (n m : Notification) (out : Result (String × String))
      → n.template_id ≢ none
      → rendered s n out ≡ ok m
      → SameRequest n m
  unfolding rendered
  rendered-SameRequest n m (err e) has h = cc
  rendered-SameRequest n m (ok (subject, content)) has h =
      let e : with_rendered n subject content ≡ m = cc in
      (
        ap
            (λ (x : Notification). record x {
              subject = n.subject;
              content = n.content;
              status = n.status;
            })
            (sym e),
        λ none_at. absurd (has none_at),
      )

  template-SameRequest :
      (n m : Notification) (template_id : Option Uuid)
      → n.template_id ≡ template_id
      → render_with s template_id n ≡ ok m
      → SameRequest n m
  unfolding render_with
  template-SameRequest n m none same h =
      let e : n ≡ m = cc in
      (
        ap
            (λ (x : Notification). record x {
              subject = n.subject;
              content = n.content;
              status = n.status;
            })
            (sym e),
        λ none_at. (
          ap (λ (x : Notification). x.subject) (sym e),
          ap (λ (x : Notification). x.content) (sym e),
        ),
      )
  template-SameRequest n m (some id) same h =
      rendered-SameRequest n m (s.render id n.template_vars) (λ z. cc) h

  render-SameRequest :
      (n : Notification) (w : World s) (made : Result Notification)
      → ((m : Notification) → made ≡ ok m → SameRequest n m)
      → SameRequest n (after_render s n made w).1
  unfolding after_render
  render-SameRequest n w (err e) h = (refl, λ none_at. (refl, refl))
  render-SameRequest n w (ok m) h =
      validation-SameRequest n m w (validate_notification s.parse_address m) (h m refl)

  pub create-SameRequest : (n : Notification) (w : World s) → SameRequest n (create s n w).1
  unfolding create render_template
  create-SameRequest n w =
      render-SameRequest n w (render_with s n.template_id n)
        (λ m. template-SameRequest n m n.template_id refl)
