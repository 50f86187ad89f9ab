-- ===== src/Node/Topics/Subscribed.antt =====
-- node/node.go: `Subscribe` where gossipsub refuses nothing.
use eth_slot_sim.Base.{
  ℕ, ◌≡◌, refl, sym, ap, ◌∙◌, Bool, true, false, ◌||◌, List, Option, none, some, arith, Bool-cases,
  inl, inr,
}
use eth_slot_sim.Node.Registry.{Lookups, text_eq}
use eth_slot_sim.Node.Topics.{
  Settings, Node, Answers, has_text, find_sub, register_verify_hook, is_partial_topic, join_locked,
  go_on, subscribe_first, subscribe_last, finish, subscribe,
}
use eth_slot_sim.Node.Topics.Maps.{text_eq_sound, find_sub-drop_sub}
use eth_slot_sim.Node.Topics.Untouched.{join_locked-LeavesSubs}

abbrev pub is_given : Option ℕ → Bool
is_given none = false
is_given (some h) = true

abbrev pub has_sub : List ℕ → List (List ℕ × ℕ) → Bool
has_sub t subs = is_given (find_sub t subs)

-- Gossipsub refuses nothing, and gives a subscription.
abbrev pub granted : ℕ → Answers
granted h = record { registered = true; joined = true; subscription = some h }

module _ (o : Settings) (lk : Lookups) where
  register_verify_hook-granted :
      (t : List ℕ) (n : Node) → (register_verify_hook o lk true t n).1 ≡ true
  unfolding register_verify_hook
  register_verify_hook-granted t n = elim (Bool-cases (has_text t n.validated)) [
    | inl old ↦ rw old refl
    | inr new ↦ rw new refl
  ]

  join_locked-granted : (t : List ℕ) (n : Node) → (join_locked o lk true true t n).1 ≡ true
  unfolding join_locked
  join_locked-granted t n = elim (Bool-cases (has_text t n.topics)) [
    | inl old ↦ rw old refl
    | inr new ↦ elim (Bool-cases (is_partial_topic o lk t)) [
      | inl partial ↦ rw (new, partial) refl
      | inr classic ↦ rw (new, classic, register_verify_hook-granted t n) refl
    ]
  ]

  finish-granted :
      (h : ℕ) (t u : List ℕ) (n : Node) (found : Option ℕ)
      → find_sub t n.subs ≡ found
      → let (m, next) = go_on t n found in
        ((finish (some h) t m next).1 ≡ true)
        × (has_sub u (finish (some h) t m next).0.subs ≡ text_eq t u || has_sub u n.subs)
  unfolding subscribe_last
  finish-granted h t u n (some k) e = (
    refl,
    elim (Bool-cases (text_eq t u)) [
      | inl same ↦
          rw same (ap is_given (ap (λ v. find_sub v n.subs) (sym (text_eq_sound t u same)) ∙ e))
      | inr other ↦ rw other refl
    ],
  )
  finish-granted h t u n none e = (
    refl,
    elim (Bool-cases (text_eq t u)) [
      | inl same ↦ ground (arith, same)
      | inr other ↦ ground (arith, other, find_sub-drop_sub u t n.subs)
    ],
  )

  -- The topic is subscribed after it, and the others are as they were.
  pub subscribe-granted :
      (h : ℕ) (t u : List ℕ) (n : Node)
      → let (m, ok) = subscribe o lk (granted h) t n in
        (ok ≡ true) × (has_sub u m.subs ≡ text_eq t u || has_sub u n.subs)
  unfolding subscribe subscribe_first
  subscribe-granted h t u n =
      let m = (join_locked o lk true true t n).0 in
      let same = (join_locked-LeavesSubs o lk true true t n).subs in
      let (ok, subscribed) = finish-granted h t u m (find_sub t m.subs) refl in
      rw (join_locked-granted t n)
        (ok, subscribed ∙ ap (λ subs. text_eq t u || has_sub u subs) same)
