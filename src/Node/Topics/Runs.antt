-- ===== src/Node/Topics/Runs.antt =====
-- node/node.go: the calls of gossipsub are proper, in whatever order the operations run.
use eth_slot_sim.Base.{ℕ, refl, Bool, List, [], ◌∷◌, Option, if◌then◌else◌, Bool-cases, inl, inr}
use eth_slot_sim.Node.Registry.{Lookups, VerifyClass}
use eth_slot_sim.Node.Topics.{
  Settings, Node, new_node, has_text, find_verifier, batch_verifier_for, join_locked,
  subscribe_first, subscribe_last, unsubscribe, publish,
}
use eth_slot_sim.Node.Topics.Protocol.{AreProper, IsInStep}
use eth_slot_sim.Node.Topics.Hooking.{found_or_made-Keeps}
use eth_slot_sim.Node.Topics.Steps.{
  join_locked-IsInStep, subscribe_first-IsInStep, subscribe_last-IsInStep, unsubscribe-IsInStep,
  publish-IsInStep,
}

-- What runs under the lock, with the answers of gossipsub: `Join`, the two parts of `Subscribe`,
-- `Unsubscribe`, `Publish`, and `verifierFor`.
pub data Event : Type 0 where
  join : Bool → Bool → List ℕ → Event
  subscribe_starts : Bool → Bool → List ℕ → Event
  subscribe_ends : Option ℕ → List ℕ → Event
  leave : List ℕ → Event
  send : List ℕ → Event
  need_verifier : VerifyClass → Event

module _ (o : Settings) (lk : Lookups) where
  unfoldable pub run_event : Event → Node → Node
  unfolding join_locked subscribe_first subscribe_last unsubscribe publish batch_verifier_for
  run_event (join registered joined t) n = (join_locked o lk registered joined t n).0
  run_event (subscribe_starts registered joined t) n =
      (subscribe_first o lk registered joined t n).0
  run_event (subscribe_ends r t) n = if has_text t n.arriving then (subscribe_last r t n).0 else n
  run_event (leave t) n = unsubscribe t n
  run_event (send t) n = (publish t n).0
  run_event (need_verifier class) n = (batch_verifier_for o class n).0

  unfoldable pub run_events : List Event → Node → Node
  unfolding run_event
  run_events [] n = n
  run_events (e ∷ es) n = run_events es (run_event e n)

  run_event-IsInStep : (e : Event) (n : Node) → IsInStep o lk n → IsInStep o lk (run_event e n)
  unfolding run_event
  run_event-IsInStep (join registered joined t) n s =
      (join_locked-IsInStep o lk registered joined t n s).0
  run_event-IsInStep (subscribe_starts registered joined t) n s =
      subscribe_first-IsInStep o lk registered joined t n s
  run_event-IsInStep (subscribe_ends r t) n s = elim (Bool-cases (has_text t n.arriving)) [
    | inl under_way ↦ rw under_way (subscribe_last-IsInStep o lk r t n s under_way)
    | inr not_so ↦ rw not_so s
  ]
  run_event-IsInStep (leave t) n s = unsubscribe-IsInStep o lk t n s
  run_event-IsInStep (send t) n s = publish-IsInStep o lk t n s
  run_event-IsInStep (need_verifier class) n s =
      (found_or_made-Keeps o lk class n (find_verifier class n.verifiers) s).0

  pub run_events-IsInStep :
      (es : List Event) (n : Node) → IsInStep o lk n → IsInStep o lk (run_events es n)
  unfolding run_events
  run_events-IsInStep [] n s = s
  run_events-IsInStep (e ∷ es) n s =
      run_events-IsInStep es (run_event e n) (run_event-IsInStep e n s)

  new_node-IsInStep : IsInStep o lk new_node
  new_node-IsInStep = record {
    joined = λ t. refl;
    hooked = λ t. refl;
    held = λ t h e. cc;
    coming = λ t e. cc;
    proper = tt;
  }

  -- In whatever order the parts of joins, subscriptions, leaves and publishes run, and whatever
  -- gossipsub answers: no topic is joined twice, nor given two validators; a classic topic has the
  -- validator of its class before it is joined, and a partial one is joined for partial messages
  -- and has none; only joined topics are subscribed and published on; and what is cancelled was
  -- given.
  pub run_events-AreProper : (es : List Event) → AreProper o lk (run_events es new_node).calls
  run_events-AreProper es = (run_events-IsInStep es new_node new_node-IsInStep).proper
