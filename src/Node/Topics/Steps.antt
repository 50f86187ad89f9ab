-- ===== src/Node/Topics/Steps.antt =====
-- node/node.go: each operation on the topics keeps the node in step with the calls it made.
use eth_slot_sim.Base.{
  ℕ, ◌≡◌, refl, sym, ap, subst, ◌∙◌, Bool, true, false, ◌||◌, List, Option, none, some, arith,
  Bool-cases, inl, inr,
}
use eth_slot_sim.Node.Registry.{Lookups, text_eq}
use eth_slot_sim.Node.Registry.Entries.{text_eq_refl}
use eth_slot_sim.Node.Topics.Maps.{text_eq_sound, has_text-remove_text, find_sub-drop_sub}
use eth_slot_sim.Node.Topics.{
  joins, Settings, Node, has_text, find_sub, go_on, cancel_found, register_verify_hook,
  is_partial_topic, join_call, join_locked, subscribe_first, subscribe_last, drop_sub, unsubscribe,
  publish,
}
use eth_slot_sim.Node.Topics.Protocol.{is_joined, IsProper, IsInStep}
use eth_slot_sim.Node.Topics.Hooking.{register_verify_hook-Keeps}

module _ (o : Settings) (lk : Lookups) where
  join_call-IsInStep :
      (opt joined : Bool) (t : List ℕ) (n : Node)
      → IsInStep o lk n
      → IsProper o lk (joins t opt joined) n.calls
      → let (m, ok) = join_call opt joined t n in
        IsInStep o lk m × (ok ≡ true → has_text t m.topics ≡ true)
  join_call-IsInStep opt true t n s p = (
    record {
      joined = λ u. ground (arith, s.joined u);
      hooked = s.hooked;
      held = s.held;
      coming = λ u h. ground (arith, s.coming u h);
      proper = (p, s.proper);
    },
    λ h. ground (arith, text_eq_refl t),
  )
  join_call-IsInStep opt false t n s p = (
    record {
      joined = s.joined;
      hooked = s.hooked;
      held = s.held;
      coming = s.coming;
      proper = (p, s.proper);
    },
    λ h. cc,
  )

  pub join_locked-IsInStep :
      (registered joined : Bool) (t : List ℕ) (n : Node)
      → IsInStep o lk n
      → let (m, ok) = join_locked o lk registered joined t n in
        IsInStep o lk m × (ok ≡ true → has_text t m.topics ≡ true)
  unfolding join_locked
  join_locked-IsInStep registered joined t n s = elim (Bool-cases (has_text t n.topics)) [
    | inl old ↦ rw old (s, λ h. old)
    | inr new ↦ elim (Bool-cases (is_partial_topic o lk t)) [
      | inl partial ↦
          rw (new, partial)
            (join_call-IsInStep true joined t n s (sym (s.joined t) ∙ new, sym partial, refl))
      | inr classic ↦
          let (m, e, f) = register_verify_hook-Keeps o lk registered t n s new classic in
          elim (Bool-cases (register_verify_hook o lk registered t n).1) [
            | inl hooked ↦
                rw (new, classic, hooked)
                  (join_call-IsInStep false joined t (register_verify_hook o lk registered t n).0 m
                    (
                      sym (m.joined t) ∙ ap (has_text t) e ∙ new,
                      sym classic,
                      sym (m.hooked t) ∙ f hooked,
                    ))
            | inr refused ↦ rw (new, classic, refused) (m, λ h. cc)
          ]
    ]
  ]

  go_on-IsInStep :
      (found : Option ℕ) (t : List ℕ) (n : Node)
      → IsInStep o lk n
      → has_text t n.topics ≡ true
      → IsInStep o lk (go_on t n found).0
  go_on-IsInStep (some k) t n s h = s
  go_on-IsInStep none t n s h = record {
    joined = s.joined;
    hooked = s.hooked;
    held = s.held;
    coming = λ u k. elim (Bool-cases (text_eq t u)) [
      | inl same ↦
          subst (λ v. is_joined v n.calls ≡ true) (text_eq_sound t u same) (sym (s.joined t) ∙ h)
      | inr other ↦ s.coming u (subst (λ b. b || has_text u n.arriving ≡ true) other k)
    ];
    proper = s.proper;
  }

  pub subscribe_first-IsInStep :
      (registered joined : Bool) (t : List ℕ) (n : Node)
      → IsInStep o lk n
      → IsInStep o lk (subscribe_first o lk registered joined t n).0
  unfolding subscribe_first
  subscribe_first-IsInStep registered joined t n s =
      let m = (join_locked o lk registered joined t n).0 in
      let (q, h) = join_locked-IsInStep registered joined t n s in
      elim (Bool-cases (join_locked o lk registered joined t n).1) [
        | inl ok ↦ rw ok (go_on-IsInStep (find_sub t m.subs) t m q (h ok))
        | inr failed ↦ rw failed q
      ]

  pub subscribe_last-IsInStep :
      (r : Option ℕ) (t : List ℕ) (n : Node)
      → IsInStep o lk n
      → has_text t n.arriving ≡ true
      → IsInStep o lk (subscribe_last r t n).0
  unfolding subscribe_last
  subscribe_last-IsInStep none t n s h = record {
    joined = s.joined;
    hooked = s.hooked;
    held = s.held;
    coming = λ u k. s.coming u (has_text-remove_text u t n.arriving k);
    proper = (s.coming t h, s.proper);
  }
  subscribe_last-IsInStep (some k) t n s h = record {
    joined = s.joined;
    hooked = s.hooked;
    held = λ u j e. elim (Bool-cases (text_eq t u)) [
      | inl same ↦ ground (arith, same, e)
      | inr other ↦ ground (arith, other, e, find_sub-drop_sub u t n.subs, s.held u j)
    ];
    coming = λ u k. s.coming u (has_text-remove_text u t n.arriving k);
    proper = (s.coming t h, s.proper);
  }

  cancel_found-IsInStep :
      (t : List ℕ) (n : Node) (found : Option ℕ)
      → find_sub t n.subs ≡ found
      → IsInStep o lk n
      → IsInStep o lk (record n { subs = drop_sub t n.subs; calls = cancel_found found n.calls })
  cancel_found-IsInStep t n none e s = record {
    joined = s.joined;
    hooked = s.hooked;
    held = λ u h k. ground (arith, find_sub-drop_sub u t n.subs, s.held u h, k);
    coming = s.coming;
    proper = s.proper;
  }
  cancel_found-IsInStep t n (some c) e s = record {
    joined = s.joined;
    hooked = s.hooked;
    held = λ u h k. ground (arith, find_sub-drop_sub u t n.subs, s.held u h, k);
    coming = s.coming;
    proper = (s.held t c e, s.proper);
  }

  pub unsubscribe-IsInStep :
      (t : List ℕ) (n : Node) → IsInStep o lk n → IsInStep o lk (unsubscribe t n)
  unfolding unsubscribe
  unsubscribe-IsInStep t n s = cancel_found-IsInStep t n (find_sub t n.subs) refl s

  pub publish-IsInStep : (t : List ℕ) (n : Node) → IsInStep o lk n → IsInStep o lk (publish t n).0
  unfolding publish
  publish-IsInStep t n s = elim (Bool-cases (has_text t n.topics)) [
    | inl there ↦ rw there (record {
      joined = s.joined;
      hooked = s.hooked;
      held = s.held;
      coming = s.coming;
      proper = (sym (s.joined t) ∙ there, s.proper);
    })
    | inr absent ↦ rw absent s
  ]
