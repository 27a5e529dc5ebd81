-- ===== src/Entity/Validation/Rules.antt =====
-- The rules that a notification meets when `Validate` finds no error.
use Prim.Native.String.{len}
use Prim.Native.String.len
use text.Mathlib.TextPositions.{len_utf8-pos}
use mathlib.Core.List.{append-eq-nil_iff}
use insider_one_notification.Prelude.{
  refl, ℕ, ◌≤◌, ◌<◌, ◌≡◌, ◌≢◌, ◌↔◌, ◌⊎◌, String, Bool, true, false, not, ◌&&◌, Option, none, some,
  is_some, List, [], arith, str_eq, eq_iff, leb, ◌==◌, if◌then◌else◌,
}
use insider_one_notification.Errors.{Error}
use insider_one_notification.Entity.Channels
use insider_one_notification.Entity.Channels.{Channel, sms, email, push, other_channel}
use insider_one_notification.Entity.Priorities
use insider_one_notification.Entity.Priorities.{Priority, high, normal, low}
use insider_one_notification.Entity.Statuses.{Status, pending, other_status}
use insider_one_notification.Entity.Statuses
use insider_one_notification.Entity.Struct.{Notification, Uuid, Time}
use insider_one_notification.Entity.Validation.{
  check, is_blank, is_before, is_email, validate_recipient, validate,
}

len_pos : (s : String) → str_eq s "" ≡ false → 0 < len s
len_pos String.[] h = ground (arith, eq_iff "" "")
len_pos (String.◌∷◌ c s) h = let (k, e) = len_utf8-pos c in omega (arith, e, len.cons c s)

module _ (parse_address : String → Option Error) where
  -- Each test of the code, failed by no part of the notification.
  record Passed (n : Notification) : Type 0 where
    id_test : (n.id == 0) ≡ false
    key_test : str_eq n.idempotency_key "" ≡ false
    channel_test : Channels.is_valid n.channel ≡ true
    priority_test : Priorities.is_valid n.priority ≡ true
    recipient_test : str_eq n.recipient "" ≡ false
    content_test : (str_eq n.content "" && not (is_some n.template_id)) ≡ false
    status_test : Statuses.is_valid n.status ≡ true
    attempts_test : leb n.max_attempts 0 ≡ false
    address_test : validate_recipient parse_address n.channel n.recipient ≡ []
    subject_test : (is_email n.channel && is_blank n.subject && not (is_some n.template_id)) ≡ false
    past_test : is_before n.scheduled_at n.created_at ≡ false

  check-nil : (b : Bool) (m : String) → check b m ≡ [] → b ≡ false
  check-nil true m h = cc
  check-nil false m h = refl

  not-false : (b : Bool) → not b ≡ false → b ≡ true
  not-false true h = refl
  not-false false h = cc

  if-nil : (b : Bool) (es : List Error) → b ≡ true → (if b then es else []) ≡ [] → es ≡ []
  if-nil true es e h = h
  if-nil false es e h = cc

  validate-Passed : (n : Notification) → validate parse_address n ≡ [] → Passed n
  unfolding validate
  validate-Passed n h =
      let (e1, h1) = append-eq-nil_iff.0 h in
      let (e2, h2) = append-eq-nil_iff.0 h1 in
      let (e3, h3) = append-eq-nil_iff.0 h2 in
      let (e4, h4) = append-eq-nil_iff.0 h3 in
      let (e5, h5) = append-eq-nil_iff.0 h4 in
      let (e6, h6) = append-eq-nil_iff.0 h5 in
      let (e7, h7) = append-eq-nil_iff.0 h6 in
      let (e8, h8) = append-eq-nil_iff.0 h7 in
      let (e9, h9) = append-eq-nil_iff.0 h8 in
      let (e10, e11) = append-eq-nil_iff.0 h9 in
      let valid : Channels.is_valid n.channel ≡ true = not-false _ (check-nil _ _ e3) in
      record {
        id_test = check-nil _ _ e1;
        key_test = check-nil _ _ e2;
        channel_test = valid;
        priority_test = not-false _ (check-nil _ _ e4);
        recipient_test = check-nil _ _ e5;
        content_test = check-nil _ _ e6;
        status_test = not-false _ (check-nil _ _ e7);
        attempts_test = check-nil _ _ e8;
        address_test = if-nil _ _ valid e9;
        subject_test = check-nil _ _ e10;
        past_test = check-nil _ _ e11;
      }

  Passed-validate : (n : Notification) → Passed n → validate parse_address n ≡ []
  unfolding validate
  Passed-validate n p = rw (
    p.id_test, p.key_test, p.channel_test, p.priority_test, p.recipient_test, p.content_test,
    p.status_test, p.attempts_test, p.address_test, p.subject_test, p.past_test,
  )

  -- The business rules, each in terms of the fields.
  pub record IsWellFormed (n : Notification) : Type 0 where
    pub has_id : n.id ≢ 0
    pub has_key : n.idempotency_key ≢ ""
    pub known_channel : (n.channel ≡ sms) ⊎ (n.channel ≡ email) ⊎ (n.channel ≡ push)
    pub known_priority : (n.priority ≡ high) ⊎ (n.priority ≡ normal) ⊎ (n.priority ≡ low)
    pub has_recipient : n.recipient ≢ ""
    pub has_content : (n.content ≢ "") ⊎ (n.template_id ≢ none)
    pub known_status : (s : String) → n.status ≢ other_status s
    pub may_attempt : 0 < n.max_attempts
    pub email_address : n.channel ≡ email → parse_address n.recipient ≡ none
    pub phone_number : n.channel ≡ sms → 7 ≤ len n.recipient
    pub has_subject :
        n.channel ≡ email → n.template_id ≡ none → (n.subject ≢ none) × (n.subject ≢ some "")
    pub not_past : (t : Time) → n.scheduled_at ≡ some t → n.created_at ≤ t

  leb_zero : (m : ℕ) → leb m 0 ≡ false → 0 < m
  leb_zero m h = ground arith

  leb_pos : (m : ℕ) → 0 < m → leb m 0 ≡ false
  leb_pos m h = ground arith

  eq_zero : (m : ℕ) → m ≢ 0 → (m == 0) ≡ false
  eq_zero m h = ground arith

  known_channel_iff :
      (c : Channel) → (Channels.is_valid c ≡ true) ↔ ((c ≡ sms) ⊎ (c ≡ email) ⊎ (c ≡ push))
  unfolding Channels.is_valid
  known_channel_iff c = ground arith

  known_priority_iff :
      (p : Priority) → (Priorities.is_valid p ≡ true) ↔ ((p ≡ high) ⊎ (p ≡ normal) ⊎ (p ≡ low))
  unfolding Priorities.is_valid
  known_priority_iff p = ground arith

  known_status_to : (s : Status) → Statuses.is_valid s ≡ true → (t : String) → s ≢ other_status t
  unfolding Statuses.is_valid
  known_status_to s h t e = ground arith

  known_status_from :
      (s : Status) → ((t : String) → s ≢ other_status t) → Statuses.is_valid s ≡ true
  unfolding Statuses.is_valid
  known_status_from (other_status t) h = absurd (h t refl)
  known_status_from pending h = refl
  known_status_from _ h = refl

  text_test : (s : String) → (str_eq s "" ≡ false) ↔ (s ≢ "")
  text_test s = ground (arith, eq_iff s "")

  content_iff :
      (s : String) (t : Option Uuid)
      → ((str_eq s "" && not (is_some t)) ≡ false) ↔ ((s ≢ "") ⊎ (t ≢ none))
  content_iff s none = ground (arith, eq_iff s "")
  content_iff s (some t) = ground (arith, eq_iff s "")

  recipient_to :
      (c : Channel) (r : String)
      → validate_recipient parse_address c r ≡ []
      → (c ≡ email → parse_address r ≡ none) × (c ≡ sms → 7 ≤ len r)
  unfolding validate_recipient
  recipient_to sms r h = (λ e. cc, λ e. ground arith)
  recipient_to email r h = (λ e. ground arith, λ e. cc)
  recipient_to push r h = (λ e. cc, λ e. cc)
  recipient_to (other_channel t) r h = (λ e. cc, λ e. cc)

  recipient_from :
      (c : Channel) (r : String)
      → str_eq r "" ≡ false
      → (c ≡ email → parse_address r ≡ none)
      → (c ≡ sms → 7 ≤ len r)
      → validate_recipient parse_address c r ≡ []
  unfolding validate_recipient
  recipient_from sms r h e s = let long : 7 ≤ len r = s refl in ground arith
  recipient_from email r h e s = rw (e refl)
  recipient_from push r h e s = let some_bytes = len_pos r h in ground arith
  recipient_from (other_channel t) r h e s = refl

  subject_iff :
      (c : Channel) (s : Option String) (t : Option Uuid)
      → ((is_email c && is_blank s && not (is_some t)) ≡ false)
        ↔ (c ≡ email → t ≡ none → (s ≢ none) × (s ≢ some ""))
  subject_iff email none none = (λ h. cc, λ h. absurd ((h refl refl).0 refl))
  subject_iff email (some s) none =
      (λ h e e'. ground (arith, eq_iff s ""), λ h. ground (arith, eq_iff s "", (h refl refl).1))
  subject_iff email s (some t) = (λ h e e'. cc, λ h. ground arith)
  subject_iff sms s t = (λ h e. cc, λ h. refl)
  subject_iff push s t = (λ h e. cc, λ h. refl)
  subject_iff (other_channel c) s t = (λ h e. cc, λ h. refl)

  past_iff :
      (o : Option Time) (created : Time)
      → (is_before o created ≡ false) ↔ ((t : Time) → o ≡ some t → created ≤ t)
  past_iff none created = (λ h t e. cc, λ h. refl)
  past_iff (some u) created =
      (λ h t e. ground arith, λ h. let k : created ≤ u = h u refl in ground arith)

  Passed-IsWellFormed : (n : Notification) → Passed n → IsWellFormed n
  Passed-IsWellFormed n p =
      let (address, phone) = recipient_to n.channel n.recipient p.address_test in
      record {
        has_id = λ e. ground (arith, p.id_test);
        has_key = (text_test n.idempotency_key).0 p.key_test;
        known_channel = (known_channel_iff n.channel).0 p.channel_test;
        known_priority = (known_priority_iff n.priority).0 p.priority_test;
        has_recipient = (text_test n.recipient).0 p.recipient_test;
        has_content = (content_iff n.content n.template_id).0 p.content_test;
        known_status = known_status_to n.status p.status_test;
        may_attempt = leb_zero n.max_attempts p.attempts_test;
        email_address = address;
        phone_number = phone;
        has_subject = (subject_iff n.channel n.subject n.template_id).0 p.subject_test;
        not_past = (past_iff n.scheduled_at n.created_at).0 p.past_test;
      }

  IsWellFormed-Passed : (n : Notification) → IsWellFormed n → Passed n
  IsWellFormed-Passed n w =
      let recipient = (text_test n.recipient).1 w.has_recipient in
      record {
        id_test = eq_zero n.id w.has_id;
        key_test = (text_test n.idempotency_key).1 w.has_key;
        channel_test = (known_channel_iff n.channel).1 w.known_channel;
        priority_test = (known_priority_iff n.priority).1 w.known_priority;
        recipient_test = recipient;
        content_test = (content_iff n.content n.template_id).1 w.has_content;
        status_test = known_status_from n.status w.known_status;
        attempts_test = leb_pos n.max_attempts w.may_attempt;
        address_test =
            recipient_from n.channel n.recipient recipient w.email_address w.phone_number;
        subject_test = (subject_iff n.channel n.subject n.template_id).1 w.has_subject;
        past_test = (past_iff n.scheduled_at n.created_at).1 w.not_past;
      }

  -- `Validate` finds no error exactly in a notification that follows all business rules: an ID and an
  -- idempotency key, a known channel, priority and status, a recipient that fits the channel, content
  -- or a template, a positive retry budget, a subject for an email with no template, and a schedule
  -- that is not before the creation.
  pub validate_iff-IsWellFormed :
      (n : Notification) → (validate parse_address n ≡ []) ↔ IsWellFormed n
  validate_iff-IsWellFormed n = (
    λ h. Passed-IsWellFormed n (validate-Passed n h),
    λ w. Passed-validate n (IsWellFormed-Passed n w),
  )
