-- ===== src/Hub/Registry.antt =====
-- What the unregistration of a client leaves in the hub.
use insider_one_notification.Prelude.{
  ℕ, ◌≡◌, refl, sym, ◌∙◌, Bool, true, false, not, ◌&&◌, Bool-cases, inl, inr, some, List, [], ◌∷◌,
  select, ◌==◌,
}
use insider_one_notification.Hub.{Hub, is_registered, with_send, delete, close, unregister}
use insider_one_notification.Hub.Broadcast.{
  IsDistinct, AreOpen, is_registered-select, eq_true, eq_refl, and_parts, and_false, and_true,
}

IsDistinct-select : (p : ℕ → Bool) (cs : List ℕ) → IsDistinct cs → IsDistinct (select p cs)
IsDistinct-select p [] distinct = tt
IsDistinct-select p (c ∷ cs) (fresh, distinct) =
    let rest = IsDistinct-select p cs distinct in
    elim (Bool-cases (p c)) [
      | inl passes ↦ rw passes (is_registered-select p c cs ∙ rw fresh refl, rest)
      | inr fails ↦ rw fails rest
    ]

out_already :
    (c d : ℕ) (cs : List ℕ)
    → is_registered c cs ≡ false
    → is_registered d cs ≡ (is_registered d cs && not (d == c))
out_already c d cs out = elim (Bool-cases (d == c)) [
  | inl same ↦ rw (eq_true d c same) (rw out refl)
  | inr other ↦ rw other (sym (and_true (is_registered d cs)))
]

not-true : (b : Bool) → not b ≡ true → b ≡ false
not-true true h = sym h
not-true false h = refl

unregister_out : (c : ℕ) (h : Hub) → is_registered c h.clients ≡ false → unregister c h ≡ some h
unfolding unregister
unregister_out c h out = rw out refl

-- With every client listed once and its channel open, the unregistration of a client does not panic,
-- whether it is registered or not: it alone is out after that, the others are listed once with open
-- channels, and a second unregistration of it changes nothing and closes nothing again.
pub unregister_outcome :
    (c : ℕ) (h : Hub)
    → IsDistinct h.clients
    → AreOpen h.sends h.clients
    → (h' : Hub) × (unregister c h ≡ some h')
      × ((d : ℕ) → is_registered d h'.clients ≡ (is_registered d h.clients && not (d == c)))
      × IsDistinct h'.clients
      × AreOpen h'.sends h'.clients
      × (unregister c h' ≡ some h')
unfolding unregister close delete
unregister_outcome c h distinct all_open = elim (Bool-cases (is_registered c h.clients)) [
  | inr out ↦ (h, rw out refl, λ d. out_already c d h.clients out, distinct, all_open, rw out refl)
  | inl member ↦
      let h' = with_send c (record (h.sends c) { closed = true }) (delete c h) in
      let stays : (d : ℕ)
          → is_registered d h'.clients ≡ (is_registered d h.clients && not (d == c)) =
        λ d. is_registered-select (λ x. not (x == c)) d h.clients in
      let out : is_registered c h'.clients ≡ false =
        stays c ∙ rw (eq_refl c) (and_false (is_registered c h.clients)) in
      (
        h',
        rw (member, all_open c member) refl,
        stays,
        IsDistinct-select (λ x. not (x == c)) h.clients distinct,
        λ d still.
            let (was, differs) =
              and_parts (is_registered d h.clients) (not (d == c)) (sym (stays d) ∙ still) in
            let other : (d == c) ≡ false = not-true (d == c) differs in rw other (all_open d was),
        unregister_out c h' out,
      )
]
