-- ===== src/Hub/Broadcast.antt =====
-- What broadcast leaves in the hub.
use insider_one_notification.Prelude.{
  ℕ, ◌≡◌, refl, sym, ap, ◌∙◌, Bool, true, false, not, ◌&&◌, ◌||◌, Bool-cases, inl, inr, some,
  String, List, [], ◌∷◌, ◌++◌, select, arith, if◌then◌else◌, ◌==◌,
}
use insider_one_notification.Hub.{
  SendChannel, Hub, has_room, is_registered, with_send, delete, close, and_then, offer, offer_all,
  broadcast,
}

-- The map has no client twice, and all their channels are open.
abbrev pub IsDistinct : List ℕ → Type 0
IsDistinct [] = Unit
IsDistinct (c ∷ cs) = (is_registered c cs ≡ false) × IsDistinct cs

abbrev pub AreOpen : (ℕ → SendChannel) → List ℕ → Type 0
AreOpen sends cs = (c : ℕ) → is_registered c cs ≡ true → (sends c).closed ≡ false

-- The channel with the message, if there was room, and else closed.
abbrev pub offered : String → SendChannel → SendChannel
offered msg s =
    if has_room s then record s { buffer = s.buffer ++ msg ∷ [] } else record s { closed = true }

pub eq_true : (a b : ℕ) → (a == b) ≡ true → a ≡ b
eq_true a b h = ground arith

pub eq_refl : (a : ℕ) → (a == a) ≡ true
eq_refl a = ground arith

pub and_false : (a : Bool) → (a && false) ≡ false
and_false true = refl
and_false false = refl

pub is_registered-select :
    (p : ℕ → Bool) (d : ℕ) (cs : List ℕ)
    → is_registered d (select p cs) ≡ (is_registered d cs && p d)
is_registered-select p d [] = refl
is_registered-select p d (c ∷ cs) =
    let rest = is_registered-select p d cs in
    elim (Bool-cases (c == d)) [
      | inl same ↦
          let e : c ≡ d = eq_true c d same in
          elim (Bool-cases (p d)) [
            | inl passes ↦
                let passes' : p c ≡ true = ap p e ∙ passes in rw (passes', passes, same) refl
            | inr fails ↦
                let fails' : p c ≡ false = ap p e ∙ fails in
                rw (fails', fails, same)
                  (rest ∙ ap (λ b. is_registered d cs && b) fails ∙ and_false (is_registered d cs))
          ]
      | inr other ↦ elim (Bool-cases (p c)) [
        | inl passes ↦ rw (passes, other) rest
        | inr fails ↦ rw (fails, other) rest
      ]
    ]

pub and_true : (a : Bool) → (a && true) ≡ a
and_true true = refl
and_true false = refl

or_false : (a : Bool) → (a || false) ≡ a
or_false true = refl
or_false false = refl

kept : (a b : Bool) → a ≡ (a && (b || true))
kept true true = refl
kept true false = refl
kept false b = refl

eq_comm : (a b : ℕ) → (a == b) ≡ (b == a)
eq_comm a b = ground arith

-- What one client's turn does to the hub.
offer_turn :
    (msg : String) (c : ℕ) (h : Hub)
    → (h.sends c).closed ≡ false
    → (h' : Hub) × (offer msg c h ≡ some h')
      × ((d : ℕ) → h'.sends d ≡ (if d == c then offered msg (h.sends c) else h.sends d))
      × ((d : ℕ)
          → is_registered d h'.clients
            ≡ (is_registered d h.clients && (not (d == c) || has_room (h.sends c))))
unfolding offer close delete
offer_turn msg c h open_send = elim (Bool-cases (has_room (h.sends c))) [
  | inl room ↦ (
    with_send c (record (h.sends c) { buffer = (h.sends c).buffer ++ msg ∷ [] }) h,
    rw (open_send, room) refl,
    λ d. rw room refl,
    λ d. rw room (kept (is_registered d h.clients) (not (d == c))),
  )
  | inr full ↦ (
    with_send c (record (h.sends c) { closed = true }) (delete c h),
    rw (open_send, full) refl,
    λ d. rw full refl,
    λ d. rw full (
        is_registered-select (λ x. not (x == c)) d h.clients
        ∙ ap (λ b. is_registered d h.clients && b) (sym (or_false (not (d == c))))),
  )
]

-- The hub after the turns of some clients.
abbrev pub Offered : String → List ℕ → Hub → Hub → Type 0
Offered msg cs h h' =
    ((d : ℕ) → h'.sends d ≡ (if is_registered d cs then offered msg (h.sends d) else h.sends d))
    × ((d : ℕ)
        → is_registered d h'.clients
          ≡ (is_registered d h.clients && (not (is_registered d cs) || has_room (h.sends d))))

still_open :
    (msg : String) (c : ℕ) (cs : List ℕ) (h h₁ : Hub)
    → IsDistinct (c ∷ cs)
    → AreOpen h.sends (c ∷ cs)
    → ((d : ℕ) → h₁.sends d ≡ (if d == c then offered msg (h.sends c) else h.sends d))
    → AreOpen h₁.sends cs
still_open msg c cs h h₁ (fresh, distinct) all_open turn d member = elim (Bool-cases (d == c)) [
  | inl same ↦
      let again : is_registered c cs ≡ true = rw (sym (eq_true d c same)) member in absurd cc
  | inr other ↦
      let swapped : (c == d) ≡ false = eq_comm c d ∙ other in
      let kept_send : h₁.sends d ≡ h.sends d = turn d ∙ rw other refl in
      rw kept_send (all_open d (rw swapped member))
]

-- A turn and then those of the others.
joined :
    (msg : String) (c : ℕ) (cs : List ℕ) (h h₁ h' : Hub)
    → is_registered c cs ≡ false
    → ((d : ℕ) → h₁.sends d ≡ (if d == c then offered msg (h.sends c) else h.sends d))
    → ((d : ℕ)
        → is_registered d h₁.clients
          ≡ (is_registered d h.clients && (not (d == c) || has_room (h.sends c))))
    → Offered msg cs h₁ h'
    → Offered msg (c ∷ cs) h h'
joined msg c cs h h₁ h' fresh sends members (sends', members') = (
  λ d. elim (Bool-cases (d == c)) [
    | inl same ↦
        rw (eq_true d c same) (rw (eq_refl c) (sends' c ∙ rw fresh (sends c ∙ rw (eq_refl c) refl)))
    | inr other ↦
        let swapped : (c == d) ≡ false = eq_comm c d ∙ other in
        let same_send : h₁.sends d ≡ h.sends d = sends d ∙ rw other refl in
        rw swapped (sends' d ∙ rw same_send refl)
  ],
  λ d. elim (Bool-cases (d == c)) [
    | inl same ↦ rw (eq_true d c same) (
        rw (eq_refl c) (
          members' c
          ∙ rw fresh (and_true (is_registered c h₁.clients) ∙ members c ∙ rw (eq_refl c) refl)))
    | inr other ↦
        let swapped : (c == d) ≡ false = eq_comm c d ∙ other in
        let same_send : h₁.sends d ≡ h.sends d = sends d ∙ rw other refl in
        let same_member : is_registered d h₁.clients ≡ is_registered d h.clients =
          members d ∙ rw other (and_true (is_registered d h.clients)) in
        rw swapped (members' d ∙ rw (same_member, same_send) refl)
  ],
)

offer_all_offers :
    (msg : String) (cs : List ℕ) (h : Hub)
    → IsDistinct cs
    → AreOpen h.sends cs
    → (h' : Hub) × (offer_all msg cs h ≡ some h') × Offered msg cs h h'
unfolding offer_all
offer_all_offers msg [] h distinct all_open =
    (h, refl, (λ d. refl, λ d. sym (and_true (is_registered d h.clients))))
offer_all_offers msg (c ∷ cs) h (fresh, distinct) all_open =
    let (h₁, took, sends, members) = offer_turn msg c h (all_open c (rw (eq_refl c) refl)) in
    let (h', done, after) =
      offer_all_offers msg cs h₁ distinct
        (still_open msg c cs h h₁ (fresh, distinct) all_open sends) in
    (
      h',
      ap (λ o. and_then o (λ x. offer_all msg cs x)) took ∙ done,
      joined msg c cs h h₁ h' fresh sends members after,
    )

absorbed : (a b : Bool) → (a && (not a || b)) ≡ (a && b)
absorbed true b = refl
absorbed false b = refl

pub and_parts : (a b : Bool) → (a && b) ≡ true → (a ≡ true) × (b ≡ true)
and_parts true b h = (refl, h)
and_parts false b h = cc

-- With every client listed once and its channel open, broadcast does not panic. A client whose buffer has
-- room gets the message, last, and stays; one whose buffer is full is removed and its channel closed; the
-- channels of all others, and so every channel that was closed, are as they were.
pub broadcast_outcome :
    (msg : String) (h : Hub)
    → IsDistinct h.clients
    → AreOpen h.sends h.clients
    → (h' : Hub) × (broadcast msg h ≡ some h')
      × ((d : ℕ)
          → h'.sends d ≡ (if is_registered d h.clients then offered msg (h.sends d) else h.sends d))
      × ((d : ℕ) → is_registered d h'.clients ≡ (is_registered d h.clients && has_room (h.sends d)))
      × AreOpen h'.sends h'.clients
unfolding broadcast
broadcast_outcome msg h distinct all_open =
    let (h', done, (sends, members)) = offer_all_offers msg h.clients h distinct all_open in
    let stays : (d : ℕ)
        → is_registered d h'.clients ≡ (is_registered d h.clients && has_room (h.sends d)) =
      λ d. members d ∙ absorbed (is_registered d h.clients) (has_room (h.sends d)) in
    (
      h',
      done,
      sends,
      stays,
      λ d member.
          let (was, room) =
            and_parts (is_registered d h.clients) (has_room (h.sends d)) (sym (stays d) ∙ member) in
          rw (sends d) (rw (was, room) (all_open d was)),
    )
