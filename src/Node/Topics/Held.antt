-- ===== src/Node/Topics/Held.antt =====
-- node/node.go: a subscription is held until it is cancelled, where operations do not interleave.
use eth_slot_sim.Base.{
  ℕ, ◌≡◌, refl, sym, ap, ◌∙◌, ◌⊎◌, inl, inr, Bool, true, false, ◌==◌, List, [], ◌∷◌, ◌++◌, map,
  Option, none, some-injective, some, arith, Bool-cases,
}
use eth_slot_sim.Node.Registry.{Lookups, text_eq}
use eth_slot_sim.Node.Registry.Entries.{text_eq_refl}
use eth_slot_sim.Node.Topics.{
  Call, cancels, Settings, Node, new_node, Answers, has_text, find_sub, join_locked, go_on,
  subscribe_first, subscribe_last, finish, subscribe, drop_sub, cancel_found, unsubscribe, publish,
}
use eth_slot_sim.Node.Topics.Lifetime.{close}
use eth_slot_sim.Node.Topics.Maps.{text_eq_sound, find_sub-drop_sub}
use eth_slot_sim.Node.Topics.Protocol.{was_given}
use eth_slot_sim.Node.Topics.Untouched.{was_cancelled, LeavesSubs, join_locked-LeavesSubs}

-- Every subscription that was given is cancelled or held.
abbrev IsAccounted : Node → Type 0
IsAccounted n =
    (h : ℕ)
    → was_given h n.calls ≡ true
    → (was_cancelled h n.calls ≡ true) ⊎ ((t : List ℕ) × (find_sub t n.subs ≡ some h))

LeavesSubs-IsAccounted : (n m : Node) → LeavesSubs n m → IsAccounted n → IsAccounted m
LeavesSubs-IsAccounted n m x a h given = elim (a h (sym (x.given h) ∙ given)) [
  | inl gone ↦ inl (x.cancelled h ∙ gone)
  | inr (t, e) ↦ inr (t, ap (find_sub t) x.subs ∙ e)
]

-- A subscription that is held is that of the dropped topic, or is still held.
after_drop :
    (t u : List ℕ) (h : ℕ) (subs : List (List ℕ × ℕ))
    → find_sub u subs ≡ some h
    → (find_sub t subs ≡ some h) ⊎ ((find_sub u (drop_sub t subs) ≡ some h) × (text_eq t u ≡ false))
after_drop t u h subs f = elim (Bool-cases (text_eq t u)) [
  | inl same ↦ inl (ap (λ v. find_sub v subs) (text_eq_sound t u same) ∙ f)
  | inr miss ↦ inr (find_sub-drop_sub u t subs ∙ rw miss f, miss)
]

module _ (o : Settings) (lk : Lookups) where
  finish-IsAccounted :
      (r : Option ℕ) (t : List ℕ) (n : Node) (found : Option ℕ)
      → find_sub t n.subs ≡ found
      → IsAccounted n
      → let (m, next) = go_on t n found in IsAccounted (finish r t m next).0
  unfolding subscribe_last
  finish-IsAccounted r t n (some k) e a h given = a h given
  finish-IsAccounted none t n none e a h given = a h given
  finish-IsAccounted (some k) t n none e a h given = elim (Bool-cases (k == h)) [
    | inl same ↦ inr (t, ground (arith, same, text_eq_refl t))
    | inr other ↦ elim (a h (ground (arith, other, given))) [
      | inl gone ↦ inl gone
      | inr (u, f) ↦ elim (after_drop t u h n.subs f) [
        | inl hit ↦ absurd (cc (e, hit))
        | inr (still, miss) ↦ inr (u, rw miss still)
      ]
    ]
  ]

  subscribe-IsAccounted :
      (a : Answers) (t : List ℕ) (n : Node) → IsAccounted n → IsAccounted (subscribe o lk a t n).0
  unfolding subscribe subscribe_first
  subscribe-IsAccounted a t n s =
      let m = (join_locked o lk a.registered a.joined t n).0 in
      let q =
        LeavesSubs-IsAccounted n m (join_locked-LeavesSubs o lk a.registered a.joined t n) s in
      elim (Bool-cases (join_locked o lk a.registered a.joined t n).1) [
        | inl ok ↦ rw ok (finish-IsAccounted a.subscription t m (find_sub t m.subs) refl q)
        | inr no_topic ↦ rw no_topic q
      ]

cancel_found-IsAccounted :
    (t : List ℕ) (n : Node) (found : Option ℕ)
    → find_sub t n.subs ≡ found
    → IsAccounted n
    → IsAccounted (record n { subs = drop_sub t n.subs; calls = cancel_found found n.calls })
cancel_found-IsAccounted t n none e a h given = elim (a h given) [
  | inl gone ↦ inl gone
  | inr (u, f) ↦ elim (after_drop t u h n.subs f) [
    | inl hit ↦ absurd (cc (e, hit))
    | inr (still, miss) ↦ inr (u, still)
  ]
]
cancel_found-IsAccounted t n (some c) e a h given = elim (a h given) [
  | inl gone ↦ inl (ground (arith, gone))
  | inr (u, f) ↦ elim (after_drop t u h n.subs f) [
    | inl hit ↦ inl (ground (arith, some-injective c h (sym e ∙ hit)))
    | inr (still, miss) ↦ inr (u, still)
  ]
]

publish-IsAccounted : (t : List ℕ) (n : Node) → IsAccounted n → IsAccounted (publish t n).0
unfolding publish
publish-IsAccounted t n a = elim (Bool-cases (has_text t n.topics)) [
  | inl there ↦ rw there (λ h given. a h given)
  | inr absent ↦ rw absent a
]

-- One operation after the other, with the answers of gossipsub.
pub data Op : Type 0 where
  join : Bool → Bool → List ℕ → Op
  subscribes_to : Answers → List ℕ → Op
  leaves : List ℕ → Op
  publishes_on : List ℕ → Op

module _ (o : Settings) (lk : Lookups) where
  unfoldable pub run_op : Op → Node → Node
  unfolding join_locked subscribe unsubscribe publish
  run_op (join registered joined t) n = (join_locked o lk registered joined t n).0
  run_op (subscribes_to a t) n = (subscribe o lk a t n).0
  run_op (leaves t) n = unsubscribe t n
  run_op (publishes_on t) n = (publish t n).0

  unfoldable pub run_ops : List Op → Node → Node
  unfolding run_op
  run_ops [] n = n
  run_ops (p ∷ ps) n = run_ops ps (run_op p n)

  run_op-IsAccounted : (p : Op) (n : Node) → IsAccounted n → IsAccounted (run_op p n)
  unfolding run_op unsubscribe
  run_op-IsAccounted (join registered joined t) n a =
      LeavesSubs-IsAccounted n (join_locked o lk registered joined t n).0
        (join_locked-LeavesSubs o lk registered joined t n) a
  run_op-IsAccounted (subscribes_to r t) n a = subscribe-IsAccounted o lk r t n a
  run_op-IsAccounted (leaves t) n a = cancel_found-IsAccounted t n (find_sub t n.subs) refl a
  run_op-IsAccounted (publishes_on t) n a = publish-IsAccounted t n a

  run_ops-IsAccounted : (ps : List Op) (n : Node) → IsAccounted n → IsAccounted (run_ops ps n)
  unfolding run_ops
  run_ops-IsAccounted [] n a = a
  run_ops-IsAccounted (p ∷ ps) n a = run_ops-IsAccounted ps (run_op p n) (run_op-IsAccounted p n a)

was_cancelled-append :
    (h : ℕ) (subs : List (List ℕ × ℕ)) (cs : List Call)
    → was_cancelled h cs ≡ true
    → was_cancelled h (map (λ s. cancels s.1) subs ++ cs) ≡ true
was_cancelled-append h [] cs e = e
was_cancelled-append h ((t, k) ∷ subs) cs e = ground (arith, was_cancelled-append h subs cs e)

was_cancelled-held :
    (h : ℕ) (t : List ℕ) (subs : List (List ℕ × ℕ)) (cs : List Call)
    → find_sub t subs ≡ some h
    → was_cancelled h (map (λ s. cancels s.1) subs ++ cs) ≡ true
was_cancelled-held h t [] cs e = cc
was_cancelled-held h t ((u, k) ∷ subs) cs e = ground (arith, e, was_cancelled-held h t subs cs)

was_given-append :
    (h : ℕ) (subs : List (List ℕ × ℕ)) (cs : List Call)
    → was_given h (map (λ s. cancels s.1) subs ++ cs) ≡ was_given h cs
was_given-append h [] cs = refl
was_given-append h ((t, k) ∷ subs) cs = was_given-append h subs cs

-- After joins, subscriptions, leaves and publishes, one after the other, whatever gossipsub answers:
-- once the node is closed, every subscription that was ever given is cancelled.
pub close-run_ops :
    (o : Settings) (lk : Lookups) (ps : List Op) (h : ℕ)
    → let calls = (close (run_ops o lk ps new_node)).0.calls in
      was_given h calls ≡ true → was_cancelled h calls ≡ true
unfolding close
close-run_ops o lk ps h given =
    let n = run_ops o lk ps new_node in
    let a = run_ops-IsAccounted o lk ps new_node (λ k e. cc) in
    elim (a h (sym (was_given-append h n.subs n.calls) ∙ given)) [
      | inl gone ↦ was_cancelled-append h n.subs n.calls gone
      | inr (t, e) ↦ was_cancelled-held h t n.subs n.calls e
    ]
