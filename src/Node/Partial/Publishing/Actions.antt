-- ===== src/Node/Partial/Publishing/Actions.antt =====
-- node/partial.go: what `publishActions` sends of a group, and how it leaves it.
use eth_slot_sim.Base.{
  ◌⊎◌, ℕ, ◌≡◌, refl, sym, ap, ap₂, subst, inl, inr, Bool, true, false, ◌||◌, List, [], ◌∷◌, map,
  some, some-injective, arith, ◌==◌, ==_iff, length, Bool-cases,
}
use eth_slot_sim.Node.Partial.Buckets.{BitmapOps, PartialBucket, select_iwant_targets, want_from}
use eth_slot_sim.Node.Partial.Buckets.Votes.{IsTracked}
use eth_slot_sim.Node.Partial.Buckets.Sending.{EachOnce, IsCapped, select_iwant_targets-capped}
use eth_slot_sim.Node.Partial.Groups.{
  Topic, attestation_subnet, finality_subnet, other_topic, topic_eq, PartialGroup, PartialManager,
  is_group, find_group, put_group,
}
use eth_slot_sim.Node.Partial.Publishing.{
  PeerStates, Action, Tick, Selected, buckets_of, tick_of, gossip_flags, select_all,
  publish_actions,
}
use eth_slot_sim.Node.Partial.Publishing.Served.{View, view}
use eth_slot_sim.Node.Partial.Publishing.Ticks.{
  AreSelected, AreServable, AreSent, views, serve_peers-IsTick,
}

topic_eq_sound : (a b : Topic) → topic_eq a b ≡ true → a ≡ b
topic_eq_sound (attestation_subnet m) (attestation_subnet n) h =
    ap attestation_subnet ((==_iff m n).0 h)
topic_eq_sound (finality_subnet m) (finality_subnet n) h = ap finality_subnet ((==_iff m n).0 h)
topic_eq_sound (other_topic m) (other_topic n) h = ap other_topic ((==_iff m n).0 h)
topic_eq_sound _ _ h = cc

find_group-is_group :
    (topic : Topic) (key : ℕ) (gs : List PartialGroup) (g : PartialGroup)
    → find_group topic key gs ≡ some g
    → is_group topic key g ≡ true
find_group-is_group topic key [] g e = cc
find_group-is_group topic key (x ∷ gs) g e = elim (Bool-cases (is_group topic key x)) [
  | inl this ↦
      subst (λ y. is_group topic key y ≡ true) (some-injective x g (ground (arith, this, e))) this
  | inr other ↦ find_group-is_group topic key gs g (ground (arith, other, e))
]

-- The group that is written back is the one that is found.
find_group-put_group :
    (topic : Topic) (key : ℕ) (gs : List PartialGroup) (g g' : PartialGroup)
    → find_group topic key gs ≡ some g
    → is_group topic key g' ≡ true
    → find_group topic key (put_group g' gs) ≡ some g'
find_group-put_group topic key [] g g' e h = cc
find_group-put_group topic key (x ∷ gs) g g' e h =
    let same : is_group g'.topic g'.key x ≡ is_group topic key x =
      ap₂ (λ a k. is_group a k x) (topic_eq_sound g'.topic topic (ground (arith, h)))
        ((==_iff g'.key key).0 (ground (arith, h))) in
    elim (Bool-cases (is_group topic key x)) [
      | inl this ↦ rw (same, this) (rw h refl)
      | inr other ↦
          rw (same, other, other)
            (find_group-put_group topic key gs g g' (ground (arith, other, e)) h)
    ]

select-IsTracked :
    (bits : BitmapOps) (max_iwant size : ℕ) (ps : List (ℕ × Bool)) (b : PartialBucket)
    → IsTracked b
    → IsTracked (select_iwant_targets bits max_iwant size ps b).0
      × (view (select_iwant_targets bits max_iwant size ps b).0 ≡ view b)
      × ((select_iwant_targets bits max_iwant size ps b).0.send_count ≡ b.send_count)
unfolding select_iwant_targets
select-IsTracked bits max_iwant size [] b s = (s, refl, refl)
select-IsTracked bits max_iwant size ((p, false) ∷ rest) b s =
    select-IsTracked bits max_iwant size rest b s
select-IsTracked bits max_iwant size ((p, true) ∷ rest) b s =
    let (x, e, f) =
      select-IsTracked bits max_iwant size rest (want_from bits max_iwant size p b).0
        (record { held = s.held; apart = s.apart }) in
    (x, e, f)

select_all-AreSelected :
    (t : Tick) (states : PeerStates) (buckets : List (ℕ × PartialBucket))
    → AreServable t buckets
    → AreSelected t (select_all t states buckets)
      × (views (select_all t states buckets) ≡ map (λ x. view x.1) buckets)
unfolding select_all
select_all-AreSelected t states [] h = (tt, refl)
select_all-AreSelected t states ((d, b) ∷ rest) (s, hs) =
    let flags = gossip_flags states in
    let (tracked, same, sends) = select-IsTracked t.bits t.max_iwant t.size flags b s.tracked in
    let capped = select_iwant_targets-capped t.bits t.max_iwant t.size flags b s.asks in
    let (x, e) = select_all-AreSelected t states rest hs in
    (
      (
        record {
          tracked = tracked;
          once = subst (λ (v : View). EachOnce v.2) (sym same) s.once;
          sends = subst (IsCapped t.max_peers) (sym sends) s.sends;
          asks = λ p. (capped p).1;
        },
        x,
      ),
      rw (same, e) refl,
    )

selected-AreServable :
    (t : Tick) (sel : Selected) → AreSelected t sel → AreServable t (buckets_of sel)
selected-AreServable t [] h = tt
selected-AreServable t ((d, b, targets) ∷ rest) (s, hs) = (s, selected-AreServable t rest hs)

-- A tick of a group that is there returns, whatever the order of the peers, if in each bucket a held
-- position is either validating or validated, and no position is counted beyond a cap. Each batch
-- of an action has validated positions of one bucket with the signatures that are held, and a peer
-- without the partial extension is sent none; the buckets of the group, which is still there, are
-- left as sound; and a group that is sealed sends nothing.
pub publish_actions-AreSent :
    (bits : BitmapOps) (requests_partial : ℕ → Bool) (takes : ℕ → Action → Bool) (topic : Topic)
    (key : ℕ) (states : PeerStates) (m : PartialManager) (g : PartialGroup)
    → find_group topic key m.groups ≡ some g
    → let t = tick_of bits requests_partial key m g in
      AreServable t g.buckets
      → (ticked : PartialManager × PeerStates × List (ℕ × Action)) × (publish_actions bits
            requests_partial takes topic key states m
          ≡ some ticked)
        × AreSent t (map (λ x. view x.1) g.buckets) ticked.2
        × ((g' : PartialGroup) × (find_group topic key ticked.0.groups ≡ some g')
            × AreServable t g'.buckets)
        × ((g.sealed ≡ false) ⊎ (ticked.2 ≡ []))
unfolding publish_actions
publish_actions-AreSent bits requests_partial takes topic key states m g there servable =
    let t = tick_of bits requests_partial key m g in
    let (selected, same) = select_all-AreSelected t states g.buckets servable in
    let (x, e, tick) = serve_peers-IsTick t takes states (select_all t states g.buckets) selected in
    let g' : PartialGroup = record g { buckets = buckets_of x.0 } in
    elim (Bool-cases (g.sealed || length g.buckets == 0)) [
      | inl quiet ↦ ((m, states, []), rw (there, quiet) refl, tt, (g, there, servable), inr refl)
      | inr open_group ↦ (
        (record m { groups = put_group g' m.groups }, x.1, x.2),
        rw (there, open_group, e) refl,
        subst (λ vs. AreSent t vs x.2) same tick.sent,
        (
          g',
          find_group-put_group topic key m.groups g g' there
              (find_group-is_group topic key m.groups g there),
          selected-AreServable t x.0 tick.servable,
        ),
        inl (ground (arith, open_group)),
      )
    ]
