-- ===== src/Node/Topics/Protocol.antt =====
-- node/node.go: which calls of gossipsub are proper, and how a node is in step with its calls.
use eth_slot_sim.Base.{
  ℕ, ◌≡◌, Bool, true, false, ◌&&◌, ◌||◌, List, [], ◌∷◌, Option, none, some, ◌==◌,
}
use eth_slot_sim.Node.Registry.{Lookups, text_eq, verify_class_for}
use eth_slot_sim.Node.Topics.{
  Call, registers, joins, subscribes, cancels, publishes, Settings, Node, has_text, find_sub,
  hook_for, is_partial_topic,
}

-- What the log says of a topic, or of a subscription.
abbrev pub has_validator : List ℕ → List Call → Bool
has_validator t [] = false
has_validator t (registers u hook ok ∷ cs) = ok && text_eq u t || has_validator t cs
has_validator t (joins u opt ok ∷ cs) = has_validator t cs
has_validator t (subscribes u r ∷ cs) = has_validator t cs
has_validator t (cancels h ∷ cs) = has_validator t cs
has_validator t (publishes u ∷ cs) = has_validator t cs

abbrev pub is_joined : List ℕ → List Call → Bool
is_joined t [] = false
is_joined t (registers u hook ok ∷ cs) = is_joined t cs
is_joined t (joins u opt ok ∷ cs) = ok && text_eq u t || is_joined t cs
is_joined t (subscribes u r ∷ cs) = is_joined t cs
is_joined t (cancels h ∷ cs) = is_joined t cs
is_joined t (publishes u ∷ cs) = is_joined t cs

abbrev pub gives : Option ℕ → ℕ → Bool
gives none h = false
gives (some k) h = k == h

abbrev pub was_given : ℕ → List Call → Bool
was_given h [] = false
was_given h (registers u hook ok ∷ cs) = was_given h cs
was_given h (joins u opt ok ∷ cs) = was_given h cs
was_given h (subscribes u r ∷ cs) = gives r h || was_given h cs
was_given h (cancels k ∷ cs) = was_given h cs
was_given h (publishes u ∷ cs) = was_given h cs

module _ (o : Settings) (lk : Lookups) where
  -- A call, after those before it: no validator is registered for a topic that has one, that is
  -- joined, or that is partial; no topic is joined again, nor a classic one before its validator.
  abbrev pub IsProper : Call → List Call → Type 0
  IsProper (registers t hook ok) cs =
      (has_validator t cs ≡ false)
      × (is_joined t cs ≡ false)
      × (is_partial_topic o lk t ≡ false)
      × (hook ≡ hook_for o (verify_class_for lk t))
  IsProper (joins t opt ok) cs =
      (is_joined t cs ≡ false)
      × (opt ≡ is_partial_topic o lk t)
      × (opt || has_validator t cs ≡ true)
  IsProper (subscribes t r) cs = is_joined t cs ≡ true
  IsProper (cancels h) cs = was_given h cs ≡ true
  IsProper (publishes t) cs = is_joined t cs ≡ true

  abbrev pub AreProper : List Call → Type 0
  AreProper [] = Unit {0}
  AreProper (c ∷ cs) = IsProper c cs × AreProper cs

  -- What the node keeps is what the log says.
  pub record IsInStep (n : Node) : Type 0 where
    pub joined : (t : List ℕ) → has_text t n.topics ≡ is_joined t n.calls
    pub hooked : (t : List ℕ) → has_text t n.validated ≡ has_validator t n.calls
    pub held : (t : List ℕ) (h : ℕ) → find_sub t n.subs ≡ some h → was_given h n.calls ≡ true
    pub coming : (t : List ℕ) → has_text t n.arriving ≡ true → is_joined t n.calls ≡ true
    pub proper : AreProper n.calls
