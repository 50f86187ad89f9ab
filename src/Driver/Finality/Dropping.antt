-- ===== src/Driver/Finality/Dropping.antt =====
-- driver/runner.go: a teardown spares what another live round lists.
use eth_slot_sim.Base.{
  ℕ, ◌≡◌, Bool, true, not, List, [], ◌∷◌, ◌++◌, arith, ◌==◌, contains, contains-append, inl, inr,
  Bool-cases, Option-cases, keep,
}
use eth_slot_sim.Driver.Finality.{
  Chain, FinalityState, delete, find, keeps_topic, keeps_peer, mark_dropped, torn_down,
  drop_finality, reap_key, reap_finality,
}
use eth_slot_sim.Driver.Finality.Sparing.{
  contains-keep, either_right, IsSafe, AllRely, IsHeld, AllRely-delete,
}

-- What a test keeps is not taken by a teardown that asks the test.
spared-IsSafe :
    (keeps : ℕ → Bool) (gone xs now joining leaving : List ℕ)
    → ((x : ℕ) → contains xs x ≡ true → keeps x ≡ true)
    → IsSafe xs now joining leaving
    → IsSafe xs now joining (keep (λ x. not (keeps x)) gone ++ leaving)
spared-IsSafe keeps gone xs now joining leaving all_kept h y m =
    let (there, stays) = h y m in
    (
      there,
      ground (
        arith,
        contains-append (keep (λ x. not (keeps x)) gone) leaving y,
        contains-keep (λ x. not (keeps x)) gone y,
        all_kept y m,
        stays,
      ),
    )

-- What the other rounds list is kept, and the round that is torn down relies on nothing.
AllRely-drop :
    (n : ℕ) (c c' : Chain) (kt kp : ℕ → Bool)
    → ((xs : List ℕ)
        → ((x : ℕ) → contains xs x ≡ true → kt x ≡ true)
        → IsSafe xs c.subscribed c.joining_topics c.leaving_topics
        → IsSafe xs c'.subscribed c'.joining_topics c'.leaving_topics)
    → ((xs : List ℕ)
        → ((x : ℕ) → contains xs x ≡ true → kp x ≡ true)
        → IsSafe xs c.connected c.joining_peers c.leaving_peers
        → IsSafe xs c'.connected c'.joining_peers c'.leaving_peers)
    → (es : List (ℕ × FinalityState)) → ((x : ℕ) → keeps_topic n es x ≡ true → kt x ≡ true)
    → ((x : ℕ) → keeps_peer n es x ≡ true → kp x ≡ true)
    → AllRely c es
    → AllRely c' (mark_dropped n es)
AllRely-drop n c c' kt kp st sp [] a b h = tt
AllRely-drop n c c' kt kp st sp ((k, fs) ∷ es) a b h = (
  elim (Bool-cases (k == n)) [
    | inl own ↦ rw own (λ live. absurd (cc))
    | inr other ↦ rw other (λ live.
        let (topics, peers) = h.0 live in
        (
          st fs.aggregate_subscribed (λ x m. a x (ground (arith, other, m))) topics,
          sp (fs.vote_dialed ++ fs.aggregate_dialed) (λ x m. b x (ground (arith, other, m))) peers,
        ))
  ],
  AllRely-drop n c c' kt kp st sp es (λ x e. a x (either_right _ _ e))
      (λ x e. b x (either_right _ _ e)) h.1,
)

pub drop_finality-IsHeld :
    (n : ℕ) (fs : FinalityState) (c : Chain) → IsHeld c → IsHeld (drop_finality n fs c)
unfolding drop_finality
drop_finality-IsHeld n fs c h = elim (Bool-cases fs.dropped) [
  | inl done ↦ rw done h
  | inr first ↦ rw first (
      AllRely-drop n c (torn_down n fs c) (keeps_topic n c.finals) (keeps_peer n c.finals)
        (λ xs k s. spared-IsSafe (keeps_topic n c.finals) fs.aggregate_subscribed xs _ _ _ k s)
        (λ xs k s.
          spared-IsSafe (keeps_peer n c.finals) (fs.vote_dialed ++ fs.aggregate_dialed) xs _ _ _ k
            s)
        c.finals (λ x e. e) (λ x e. e) h)
]

pub reap_finality-IsHeld : (slot : ℕ) (c : Chain) → IsHeld c → IsHeld (reap_finality slot c).0
unfolding reap_finality
reap_finality-IsHeld slot c h = elim (Option-cases (reap_key c slot)) [
  | inl none_ends ↦ rw (none_ends, reap_finality) h
  | inr (key, ends) ↦
      let reaped : Chain = record c { finals = delete key c.finals } in
      let kept : IsHeld reaped = AllRely-delete key c c.finals h in
      elim (Option-cases (find key c.finals)) [
        | inl absent ↦ rw (ends, reap_finality) (rw absent kept)
        | inr (fs, live) ↦
            rw (ends, reap_finality) (rw live (drop_finality-IsHeld key fs reaped kept))
      ]
]
