-- ===== src/Driver/Setup/Preparing.antt =====
-- driver/runner.go: `Prepare`, the subscriptions of a runner's own topics at bring-up.
pub mod Listed
pub mod Asked
pub mod Wanted
use eth_slot_sim.Base.{
  ℕ, ◌+◌, ◌≡◌, refl, ap, ◌∙◌, Bool, true, false, ◌||◌, List, [], ◌∷◌, ◌++◌, map, ltb, if◌then◌else◌,
  ℤ, pos, negsuc, arith,
}
use eth_slot_sim.Node.Registry.{Lookups, codes, text_eq}
use eth_slot_sim.Node.Registry.Numbers.{decimal, suffix, subnet_topic, attestation_topic}
use eth_slot_sim.Validator.{column_topic}
use eth_slot_sim.Node.Topics.{Settings, Node, Answers, new_node, has_text, subscribe}
use eth_slot_sim.Node.Topics.Lifetime.{global_topics, subscribe_each, join_topics}
use eth_slot_sim.Node.Topics.Subscribed.{has_sub, granted, subscribe-granted}
use eth_slot_sim.Driver.Setup.{Runner, is_on}

-- The topic of a subnet that may be negative, as `%d` writes it.
unfoldable pub int_topic : List ℕ → ℤ → List ℕ
int_topic prefix (pos s) = subnet_topic prefix s
int_topic prefix (negsuc n) = prefix ++ (45 ∷ decimal (n + 1) ++ suffix)

abbrev pub when_topics : Bool → List (List ℕ) → List (List ℕ)
when_topics b ts = if b then ts else []

-- The topics that `Prepare` subscribes, in order.
unfoldable pub own_topics : Runner → List (List ℕ)
unfolding int_topic
own_topics r =
    let view = r.chain.view in
    when_topics r.phases.attest (
      when_topics view.has_aggregators
        (codes "/eth2/00000000/beacon_aggregate_and_proof/ssz_snappy" ∷ [])
      ++ map attestation_topic view.subscribed_subnets)
    ++ (when_topics (ltb 0 view.num_columns) (map column_topic view.custody_columns)
        ++ (when_topics r.phases.sync (
              codes "/eth2/00000000/sync_committee_contribution_and_proof/ssz_snappy"
              ∷ when_topics view.sync_member
                  (int_topic (codes "/eth2/00000000/sync_committee_") view.sync_subnet ∷ []))
            ++ (when_topics (is_on r.phases.epbs)
                  (codes "/eth2/00000000/payload_attestation_message/ssz_snappy" ∷ [])
                ++ when_topics r.phases.decoupled (
                    codes "/eth2/00000000/availability_vote/ssz_snappy"
                    ∷ codes "/eth2/00000000/finality_aggregate_and_proof/ssz_snappy"
                    ∷ when_topics view.finality_member (
                        int_topic (codes "/eth2/00000000/finality_vote_") view.finality_subnet
                        ∷ [])))))

module _ (o : Settings) (lk : Lookups) (answers : List ℕ → Answers) where
  -- An error is logged, and the next topic is subscribed. The warm-up of round 0, which `Prepare`
  -- starts too, is in Driver/Setup/Rounds.
  unfoldable pub subscribe_own : List (List ℕ) → Node → Node
  unfolding subscribe
  subscribe_own [] n = n
  subscribe_own (t ∷ ts) n = subscribe_own ts (subscribe o lk (answers t) t n).0

  unfoldable pub prepare : Runner → Node → Node
  unfolding subscribe_own own_topics
  prepare r n = subscribe_own (own_topics r) n

swap_or : (a b c : Bool) → a || (b || c) ≡ b || a || c
swap_or a b c = ground arith

or_false : (a : Bool) → a || false ≡ a
or_false a = ground arith

module _ (o : Settings) (lk : Lookups) (handle : List ℕ → ℕ) where
  abbrev grant : List ℕ → Answers
  grant t = granted (handle t)

  subscribe_own-granted :
      (ts : List (List ℕ)) (u : List ℕ) (n : Node)
      → has_sub u (subscribe_own o lk grant ts n).subs ≡ has_text u ts || has_sub u n.subs
  unfolding subscribe_own
  subscribe_own-granted [] u n = refl
  subscribe_own-granted (t ∷ ts) u n =
      subscribe_own-granted ts u (subscribe o lk (grant t) t n).0
      ∙ ap (λ b. has_text u ts || b) (subscribe-granted o lk (handle t) t u n).1
      ∙ swap_or (has_text u ts) (text_eq t u) (has_sub u n.subs)

  subscribe_each-granted :
      (ts : List (List ℕ)) (u : List ℕ) (n : Node)
      → let (m, ok) = subscribe_each o lk grant ts n in
        (ok ≡ true) × (has_sub u m.subs ≡ has_text u ts || has_sub u n.subs)
  unfolding subscribe_each
  subscribe_each-granted [] u n = (refl, refl)
  subscribe_each-granted (t ∷ ts) u n =
      let (ok, first) = subscribe-granted o lk (handle t) t u n in
      let (oks, rest) = subscribe_each-granted ts u (subscribe o lk (grant t) t n).0 in
      rw ok (
        oks,
        rest
            ∙ ap (λ b. has_text u ts || b) first
            ∙ swap_or (has_text u ts) (text_eq t u) (has_sub u n.subs),
      )

  -- What is subscribed at bring-up, as a test on the lists of topics.
  pub prepare-has_sub :
      (r : Runner) (u : List ℕ)
      → let (n, ok) = join_topics o lk grant in
        (ok ≡ true)
        × (has_sub u (prepare o lk grant r n).subs
            ≡ has_text u (own_topics r) || has_text u global_topics)
  unfolding join_topics prepare
  prepare-has_sub r u =
      let (ok, joined) = subscribe_each-granted global_topics u new_node in
      let n = (subscribe_each o lk grant global_topics new_node).0 in
      (
        ok,
        subscribe_own-granted (own_topics r) u n
            ∙ ap (λ b. has_text u (own_topics r) || b) (joined ∙ or_false _),
      )
