-- ===== src/Node/Topics/Hooking.antt =====
-- node/node.go: a verify hook is registered in step with the calls.
use eth_slot_sim.Base.{
  ℕ, ◌≡◌, refl, sym, ap, ◌∙◌, Bool, true, false, List, Option, none, some, arith, Bool-cases, inl,
  inr,
}
use eth_slot_sim.Node.Registry.{Lookups, VerifyClass, verify_class_for}
use eth_slot_sim.Node.Registry.Entries.{text_eq_refl}
use eth_slot_sim.Node.Topics.{
  Hook, column_hook, sleep_hook, batch_hook, registers, Settings, Node, VerifierOpts,
  batch_verifier_for, find_verifier, register_call, has_text, hook_for, with_queue, found_or_made,
  register_verify_hook, is_partial_topic,
}
use eth_slot_sim.Node.Topics.Protocol.{IsProper, IsInStep}

module _ (o : Settings) (lk : Lookups) where
  pub found_or_made-Keeps :
      (class : VerifyClass) (n : Node) (found : Option VerifierOpts)
      → IsInStep o lk n
      → let m = (found_or_made o class n found).0 in
        IsInStep o lk m × (m.topics ≡ n.topics) × (m.validated ≡ n.validated) × (m.calls ≡ n.calls)
  found_or_made-Keeps class n (some v) s = (s, refl, refl, refl)
  found_or_made-Keeps class n none s = (
    record {
      joined = s.joined;
      hooked = s.hooked;
      held = s.held;
      coming = s.coming;
      proper = s.proper;
    },
    refl,
    refl,
    refl,
  )

  with_queue-Keeps :
      (hook : Hook) (n : Node)
      → IsInStep o lk n
      → let m = with_queue o hook n in
        IsInStep o lk m × (m.topics ≡ n.topics) × (m.validated ≡ n.validated) × (m.calls ≡ n.calls)
  unfolding batch_verifier_for
  with_queue-Keeps column_hook n s = (s, refl, refl, refl)
  with_queue-Keeps (sleep_hook d) n s = (s, refl, refl, refl)
  with_queue-Keeps (batch_hook class) n s =
      found_or_made-Keeps class n (find_verifier class n.verifiers) s

  register_call-IsInStep :
      (ok : Bool) (t : List ℕ) (hook : Hook) (n : Node)
      → IsInStep o lk n
      → IsProper o lk (registers t hook ok) n.calls
      → let (m, hooked) = register_call ok t hook n in
        IsInStep o lk m × (m.topics ≡ n.topics) × (hooked ≡ true → has_text t m.validated ≡ true)
  register_call-IsInStep true t hook n s p = (
    record {
      joined = s.joined;
      hooked = λ u. ground (arith, s.hooked u);
      held = s.held;
      coming = s.coming;
      proper = (p, s.proper);
    },
    refl,
    λ h. ground (arith, text_eq_refl t),
  )
  register_call-IsInStep false t hook n s p = (
    record {
      joined = s.joined;
      hooked = s.hooked;
      held = s.held;
      coming = s.coming;
      proper = (p, s.proper);
    },
    refl,
    λ h. cc,
  )

  pub register_verify_hook-Keeps :
      (ok : Bool) (t : List ℕ) (n : Node)
      → IsInStep o lk n
      → has_text t n.topics ≡ false
      → is_partial_topic o lk t ≡ false
      → let (m, hooked) = register_verify_hook o lk ok t n in
        IsInStep o lk m × (m.topics ≡ n.topics) × (hooked ≡ true → has_text t m.validated ≡ true)
  unfolding register_verify_hook
  register_verify_hook-Keeps ok t n s fresh classic = elim (Bool-cases (has_text t n.validated)) [
    | inl old ↦ rw old (s, refl, λ h. old)
    | inr new ↦
        let hook = hook_for o (verify_class_for lk t) in
        let m = with_queue o hook n in
        let (q, e, f, g) = with_queue-Keeps hook n s in
        let (r, e1, h1) = register_call-IsInStep ok t hook m q (
          sym (q.hooked t) ∙ ap (has_text t) f ∙ new,
          sym (q.joined t) ∙ ap (has_text t) e ∙ fresh,
          classic,
          refl,
        ) in
        rw new (r, e1 ∙ e, h1)
  ]
