-- ===== src/Template/Store/Sound.antt =====
-- A sound row is a valid template whose variables are those of its content. What the methods of the
-- repository do to a table of sound rows.
use mathlib.Core.List.{Memᴰ}
use insider_one_notification.Prelude.{
  ℕ, ◌≡◌, refl, sym, ap, ◌∙◌, inl, inr, Bool, not, Bool-cases, Option, none, some, String, List, [],
  ◌∷◌, ◌++◌, map, select, All, ◌==◌, arith,
}
use insider_one_notification.Errors.{Error, validation_error}
use insider_one_notification.Result.{Result, ok, err, ok-injective}
use insider_one_notification.Entity.{Uuid, Time}
use insider_one_notification.NotificationService.{join_messages}
use insider_one_notification.Template
use insider_one_notification.Template.{
  Template, Engine, extract_variables, validate, validate_template, save_valid, in_context,
}
use insider_one_notification.Template.Store.{
  TemplateRow, Names, template_columns, set_template, has_template_id, touched, TemplateServer,
  mapped_error, insert_template, create_template, variables_of, with_variables, scan_template,
  get_template, get_template_by_id, found_or_not, mapped_count, replace_template, update_template,
  wrapped_count, delete_template,
}

All-append :
    (P : TemplateRow → Type 0) (xs ys : List TemplateRow) → All P xs → All P ys → All P (xs ++ ys)
All-append P [] ys hx hy = hy
All-append P (x ∷ xs) ys (h, hx) hy = (h, All-append P xs ys hx hy)

All-map :
    (P : TemplateRow → Type 0) (f : TemplateRow → TemplateRow) (xs : List TemplateRow)
    → ((x : TemplateRow) → P x → P (f x))
    → All P xs
    → All P (map f xs)
All-map P f [] keep h = tt
All-map P f (x ∷ xs) keep (h, hs) = (keep x h, All-map P f xs keep hs)

All-select :
    (P : TemplateRow → Type 0) (test : TemplateRow → Bool) (xs : List TemplateRow)
    → All P xs
    → All P (select test xs)
All-select P test [] h = tt
All-select P test (x ∷ xs) (h, hs) = elim (Bool-cases (test x)) [
  | inl hit ↦ rw hit (h, All-select P test xs hs)
  | inr miss ↦ rw miss (All-select P test xs hs)
]

All-Memᴰ :
    (P : TemplateRow → Type 0) (x : TemplateRow) (xs : List TemplateRow)
    → Memᴰ x xs
    → All P xs
    → P x
All-Memᴰ P x [] absent h = elim absent [ ]
All-Memᴰ P x (y ∷ ys) (Memᴰ.head e) (h, hs) = rw e h
All-Memᴰ P x (y ∷ ys) (Memᴰ.tail m) (h, hs) = All-Memᴰ P x ys m hs

module _ (engine : Engine) (names : Names) where
  abbrev pub HasItsVariables : Template → Type 0
  HasItsVariables t = t.variables ≡ extract_variables engine t.content

  abbrev pub IsSound : TemplateRow → Type 0
  IsSound r =
      (t : Template) × (text : String) × (r
        ≡ record (template_columns t text) { created_at = r.created_at; updated_at = r.updated_at })
      × (names.marshal t.variables ≡ ok text)
      × (validate engine t ≡ [])
      × HasItsVariables t

  valid-none :
      (t : Template) (es : List Error)
      → validate engine t ≡ es
      → validate_template engine t ≡ none
      → es ≡ []
  unfolding validate_template
  valid-none t [] same h = refl
  valid-none t (e ∷ es) same h =
      let failure : ◌≡◌ {A = Option Error}
          (some (validation_error "template" (join_messages (e ∷ es)))) none =
        rw (validate_template, same) at h in
      cc

  module _ (server : TemplateServer) where
    open server use {Db, rows, now, server_now}

    abbrev pub AllSound : Db → Type 0
    AllSound db = All IsSound (rows db)

    -- Create and Update of the service call the repository with valid templates only.
    save-AllSound :
        (t : Template) (context : String) (write : Db → Result (Unit {0}) × Db) (db : Db)
        (answer : Option Error)
        → (answer ≡ none → AllSound (write db).1)
        → AllSound db
        → AllSound (save_valid engine answer context write db).1
    save-AllSound t context write db (some e) written sound = sound
    save-AllSound t context write db none written sound = written refl

    insert-AllSound :
        (r : TemplateRow) (db : Db) (result : Result (Unit {0})) (db' : Db)
        → server.insert r db ≡ (result, db')
        → IsSound r
        → AllSound db
        → AllSound (mapped_error names server (result, db')).1
    unfolding mapped_error
    insert-AllSound r db (ok u) db' h this sound =
        let done : (server.insert r db).0 ≡ ok tt = ap (λ (x : Result (Unit {0}) × Db). x.0) h in
        rw (ap (λ (x : Result (Unit {0}) × Db). rows x.1) (sym h) ∙ server.insert_ok r db done)
          (All-append IsSound (rows db) (r ∷ []) sound (this, tt))
    insert-AllSound r db (err e) db' h this sound =
        let failure : (server.insert r db).0 ≡ err e = ap (λ (x : Result (Unit {0}) × Db). x.0) h in
        rw
          (ap (λ (x : Result (Unit {0}) × Db). rows x.1) (sym h) ∙ server.insert_err r db e failure)
          sound

    marshal-AllSound :
        (t : Template) (db : Db) (text : Result String)
        → names.marshal t.variables ≡ text
        → validate engine t ≡ []
        → HasItsVariables t
        → AllSound db
        → AllSound (insert_template names server t text db).1
    unfolding insert_template
    marshal-AllSound t db (err e) h valid its sound = sound
    marshal-AllSound t db (ok text) h valid its sound =
        let (result, db') = server.insert (template_columns t text) db in
        insert-AllSound (template_columns t text) db result db' refl (t, text, refl, h, valid, its)
          sound

    -- Create of the service, for a template with the variables of its content.
    pub create-AllSound :
        (t : Template) (db : Db)
        → HasItsVariables t
        → AllSound db
        → AllSound (Template.create engine (create_template names server) t db).1
    unfolding Template.create create_template
    create-AllSound t db its sound =
        save-AllSound t "persisting template" (λ d. create_template names server t d) db
          (validate_template engine t)
          (λ h.
            marshal-AllSound t db (names.marshal t.variables) refl
              (valid-none t (validate engine t) refl h) its sound)
          sound

    -- The row that an UPDATE leaves.
    set-IsSound :
        (t : Template) (text : String) (at : Time) (db : Db) (r : TemplateRow)
        → names.marshal t.variables ≡ ok text
        → validate engine t ≡ []
        → HasItsVariables t
        → IsSound r
        → IsSound (touched (server_now db) (has_template_id t.id) (set_template t text at) r)
    unfolding validate
    set-IsSound t text at db r h valid its sound = elim (Bool-cases (r.id == t.id)) [
      | inr miss ↦ rw miss sound
      | inl hit ↦ rw hit (
          let t' : Template = record t {
            id = r.id;
            created_at = r.created_at;
            updated_at = server_now db;
          } in
          let same : r.id ≡ t.id = ground (arith, hit) in (t', text, refl, h, rw same valid, its))
    ]

    replace-AllSound :
        (t : Template) (text : String) (at : Time) (db : Db) (result : Result ℕ) (db' : Db)
        → server.update (has_template_id t.id) (set_template t text at) db ≡ (result, db')
        → names.marshal t.variables ≡ ok text
        → validate engine t ≡ []
        → HasItsVariables t
        → AllSound db
        → AllSound (found_or_not names server t.id (mapped_count names server (result, db'))).1
    unfolding found_or_not mapped_count
    replace-AllSound t text at db (ok affected) db' same h valid its sound =
        let done : (server.update (has_template_id t.id) (set_template t text at) db).0
            ≡ ok affected =
          ap (λ (x : Result ℕ × Db). x.0) same in
        let after : AllSound db' =
          rw
            (ap (λ (x : Result ℕ × Db). rows x.1) (sym same)
              ∙ server.update_ok (has_template_id t.id) (set_template t text at) db affected done)
            (All-map IsSound
              (touched (server_now db) (has_template_id t.id) (set_template t text at)) (rows db)
              (λ r this. set-IsSound t text at db r h valid its this) sound) in
        elim (Bool-cases (affected == 0)) [
          | inl none_hit ↦ rw none_hit after
          | inr some_hit ↦ rw some_hit after
        ]
    replace-AllSound t text at db (err e) db' same h valid its sound =
        let failure : (server.update (has_template_id t.id) (set_template t text at) db).0 ≡ err e =
          ap (λ (x : Result ℕ × Db). x.0) same in
        rw
          (ap (λ (x : Result ℕ × Db). rows x.1) (sym same)
            ∙ server.update_err (has_template_id t.id) (set_template t text at) db e failure)
          sound

    replace_marshal-AllSound :
        (t : Template) (db : Db) (text : Result String)
        → names.marshal t.variables ≡ text
        → validate engine t ≡ []
        → HasItsVariables t
        → AllSound db
        → AllSound (replace_template names server t text db).1
    unfolding replace_template
    replace_marshal-AllSound t db (err e) h valid its sound = sound
    replace_marshal-AllSound t db (ok text) h valid its sound =
        let (result, db') =
          server.update (has_template_id t.id) (set_template t text (now db)) db in
        replace-AllSound t text (now db) db result db' refl h valid its sound

    -- Update of the service, for a template with the variables of its content.
    pub update-AllSound :
        (t : Template) (db : Db)
        → HasItsVariables t
        → AllSound db
        → AllSound (Template.update engine (update_template names server) t db).1
    unfolding Template.update update_template
    update-AllSound t db its sound =
        save-AllSound t "updating template" (λ d. update_template names server t d) db
          (validate_template engine t)
          (λ h.
            replace_marshal-AllSound t db (names.marshal t.variables) refl
              (valid-none t (validate engine t) refl h) its sound)
          sound

    removed-AllSound :
        (id : Uuid) (db : Db) (result : Result ℕ) (db' : Db)
        → server.delete (has_template_id id) db ≡ (result, db')
        → AllSound db
        → AllSound (found_or_not names server id (wrapped_count names server (result, db'))).1
    unfolding found_or_not wrapped_count
    removed-AllSound id db (ok affected) db' same sound =
        let done : (server.delete (has_template_id id) db).0 ≡ ok affected =
          ap (λ (x : Result ℕ × Db). x.0) same in
        let after : AllSound db' =
          rw
            (ap (λ (x : Result ℕ × Db). rows x.1) (sym same)
              ∙ server.delete_ok (has_template_id id) db affected done)
            (All-select IsSound (λ r. not (has_template_id id r)) (rows db) sound) in
        elim (Bool-cases (affected == 0)) [
          | inl none_hit ↦ rw none_hit after
          | inr some_hit ↦ rw some_hit after
        ]
    removed-AllSound id db (err e) db' same sound =
        let failure : (server.delete (has_template_id id) db).0 ≡ err e =
          ap (λ (x : Result ℕ × Db). x.0) same in
        rw
          (ap (λ (x : Result ℕ × Db). rows x.1) (sym same)
            ∙ server.delete_err (has_template_id id) db e failure)
          sound

    pub delete-AllSound :
        (id : Uuid) (db : Db) → AllSound db → AllSound (delete_template names server id db).1
    unfolding delete_template
    delete-AllSound id db sound =
        let (result, db') = server.delete (has_template_id id) db in
        removed-AllSound id db result db' refl sound

    -- Reading: the table stays, and a template that is found in a sound table has the variables of its
    -- content; a row that is found can be read.
    scan-IsSound :
        (r : TemplateRow)
        → IsSound r
        → (t : Template) × (scan_template names server (ok (some r)) ≡ ok t) × HasItsVariables t
    unfolding scan_template variables_of with_variables
    scan-IsSound r (t, text, row, h, valid, its) = (
      record t { created_at = r.created_at; updated_at = r.updated_at },
      rw row
          (rw (names.marshal_nonempty t.variables text h, names.marshal_back t.variables text h)),
      its,
    )

    found-HasItsVariables :
        (id : Uuid) (db : Db) (found : Result (Option TemplateRow)) (t : Template)
        → (server.query_row (has_template_id id) db).0 ≡ found
        → scan_template names server found ≡ ok t
        → AllSound db
        → HasItsVariables t
    unfolding scan_template
    found-HasItsVariables id db (err e) t h read sound = cc
    found-HasItsVariables id db (ok none) t h read sound = cc
    found-HasItsVariables id db (ok (some r)) t h read sound =
        let (hit, m) = server.query_row_some (has_template_id id) db r h in
        let (t', read', its) = scan-IsSound r (All-Memᴰ IsSound r (rows db) m sound) in
        let e : t' ≡ t = ok-injective (sym read' ∙ read) in rw (sym e) its

    pub get-AllSound :
        (id : Uuid) (db : Db)
        → AllSound db
        → AllSound (get_template_by_id names server id db).1
          × ((t : Template) → (get_template_by_id names server id db).0 ≡ ok t → HasItsVariables t)
    unfolding get_template_by_id get_template
    get-AllSound id db sound = (
      rw (server.query_row_rows (has_template_id id) db) sound,
      λ t read.
          found-HasItsVariables id db (server.query_row (has_template_id id) db).0 t refl read
            sound,
    )
