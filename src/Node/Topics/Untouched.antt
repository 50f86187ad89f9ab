-- ===== src/Node/Topics/Untouched.antt =====
-- node/node.go: to join a topic changes nothing about the subscriptions.
use eth_slot_sim.Base.{
  ℕ, ◌≡◌, refl, ◌∙◌, inl, inr, Bool, true, false, ◌||◌, ◌==◌, List, [], ◌∷◌, Option, none, some,
  Bool-cases,
}
use eth_slot_sim.Node.Registry.{Lookups, VerifyClass, verify_class_for}
use eth_slot_sim.Node.Topics.{
  Hook, column_hook, sleep_hook, batch_hook, Call, registers, joins, subscribes, cancels, publishes,
  Settings, Node, has_text, find_verifier, VerifierOpts, hook_for, with_queue, found_or_made,
  batch_verifier_for, register_call, register_verify_hook, is_partial_topic, join_call, join_locked,
}
use eth_slot_sim.Node.Topics.Protocol.{was_given}

abbrev pub was_cancelled : ℕ → List Call → Bool
was_cancelled h [] = false
was_cancelled h (registers u hook ok ∷ cs) = was_cancelled h cs
was_cancelled h (joins u opt ok ∷ cs) = was_cancelled h cs
was_cancelled h (subscribes u r ∷ cs) = was_cancelled h cs
was_cancelled h (cancels k ∷ cs) = k == h || was_cancelled h cs
was_cancelled h (publishes u ∷ cs) = was_cancelled h cs

-- Nothing about subscriptions has changed.
pub record LeavesSubs (n m : Node) : Type 0 where
  pub subs : m.subs ≡ n.subs
  pub given : (h : ℕ) → was_given h m.calls ≡ was_given h n.calls
  pub cancelled : (h : ℕ) → was_cancelled h m.calls ≡ was_cancelled h n.calls

LeavesSubs-refl : (n : Node) → LeavesSubs n n
LeavesSubs-refl n = record { subs = refl; given = λ h. refl; cancelled = λ h. refl }

LeavesSubs-trans : (n m k : Node) → LeavesSubs n m → LeavesSubs m k → LeavesSubs n k
LeavesSubs-trans n m k x y = record {
  subs = y.subs ∙ x.subs;
  given = λ h. y.given h ∙ x.given h;
  cancelled = λ h. y.cancelled h ∙ x.cancelled h;
}

found_or_made-LeavesSubs :
    (o : Settings) (class : VerifyClass) (n : Node) (found : Option VerifierOpts)
    → LeavesSubs n (found_or_made o class n found).0
found_or_made-LeavesSubs o class n (some v) = LeavesSubs-refl n
found_or_made-LeavesSubs o class n none = record {
  subs = refl;
  given = λ h. refl;
  cancelled = λ h. refl;
}

with_queue-LeavesSubs : (o : Settings) (hook : Hook) (n : Node) → LeavesSubs n (with_queue o hook n)
unfolding batch_verifier_for
with_queue-LeavesSubs o column_hook n = LeavesSubs-refl n
with_queue-LeavesSubs o (sleep_hook d) n = LeavesSubs-refl n
with_queue-LeavesSubs o (batch_hook class) n =
    found_or_made-LeavesSubs o class n (find_verifier class n.verifiers)

register_call-LeavesSubs :
    (ok : Bool) (t : List ℕ) (hook : Hook) (n : Node) → LeavesSubs n (register_call ok t hook n).0
register_call-LeavesSubs true t hook n = record {
  subs = refl;
  given = λ h. refl;
  cancelled = λ h. refl;
}
register_call-LeavesSubs false t hook n = record {
  subs = refl;
  given = λ h. refl;
  cancelled = λ h. refl;
}

join_call-LeavesSubs :
    (opt joined : Bool) (t : List ℕ) (n : Node) → LeavesSubs n (join_call opt joined t n).0
join_call-LeavesSubs opt true t n = record { subs = refl; given = λ h. refl; cancelled = λ h. refl }
join_call-LeavesSubs opt false t n = record {
  subs = refl;
  given = λ h. refl;
  cancelled = λ h. refl;
}

module _ (o : Settings) (lk : Lookups) where
  register_verify_hook-LeavesSubs :
      (ok : Bool) (t : List ℕ) (n : Node) → LeavesSubs n (register_verify_hook o lk ok t n).0
  unfolding register_verify_hook
  register_verify_hook-LeavesSubs ok t n =
      let hook = hook_for o (verify_class_for lk t) in
      elim (Bool-cases (has_text t n.validated)) [
        | inl old ↦ rw old (LeavesSubs-refl n)
        | inr new ↦ rw new (
            LeavesSubs-trans n (with_queue o hook n)
              (register_call ok t hook (with_queue o hook n)).0 (with_queue-LeavesSubs o hook n)
              (register_call-LeavesSubs ok t hook (with_queue o hook n)))
      ]

  pub join_locked-LeavesSubs :
      (registered joined : Bool) (t : List ℕ) (n : Node)
      → LeavesSubs n (join_locked o lk registered joined t n).0
  unfolding join_locked
  join_locked-LeavesSubs registered joined t n =
      let m = (register_verify_hook o lk registered t n).0 in
      let x = register_verify_hook-LeavesSubs registered t n in
      elim (Bool-cases (has_text t n.topics)) [
        | inl old ↦ rw old (LeavesSubs-refl n)
        | inr new ↦ elim (Bool-cases (is_partial_topic o lk t)) [
          | inl partial ↦ rw (new, partial) (join_call-LeavesSubs true joined t n)
          | inr classic ↦ elim (Bool-cases (register_verify_hook o lk registered t n).1) [
            | inl hooked ↦
                rw (new, classic, hooked)
                  (LeavesSubs-trans n m (join_call false joined t m).0 x
                    (join_call-LeavesSubs false joined t m))
            | inr refused ↦ rw (new, classic, refused) x
          ]
        ]
      ]
