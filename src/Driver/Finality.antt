-- ===== src/Driver/Finality.antt =====
-- driver/runner.go: the finality chain of one node. A topic is named by its finality subnet. What runs
-- under the lock is one step; the network operations that follow it are steps of their own, each an
-- effect on the set of meshes or of connections.
pub mod Steps
pub mod Sparing
pub mod Dropping
pub mod Teardown
pub mod Emits
pub mod Dials
use eth_slot_sim.Base.{
  ℕ, zero, suc, ◌+◌, ◌-◌, ◌*◌, ◌/◌, ◌%◌, ◌<◌, Bool, true, false, not, ◌&&◌, ◌||◌, List, [], ◌∷◌,
  ◌++◌, Option, none, some, ◌>>=◌, ℤ, pos, negsuc, ltb, leb, ◌==◌, if◌then◌else◌, length, get_elem?,
  contains, any, keep,
}
use eth_slot_sim.Schedule.{AttestDuty, View}

pub record FinalityState : Type 0 where
  pub duties : List AttestDuty
  pub own_subnet : ℤ
  pub vote_dialed : List ℕ
  pub aggregate_subnets : List ℕ
  pub aggregate_subscribed : List ℕ
  pub aggregate_dialed : List ℕ
  pub dropped : Bool  -- `dropOnce` has run

-- The runner's part of the chain: the live rounds by key, the foreign meshes that are subscribed, and
-- the peers that are dialed beyond the stable ones.
pub record Chain : Type 0 where
  pub num : ℕ
  pub view : View
  pub stable_peers : List ℕ
  pub slot_dur : ℕ
  pub finality_round_size : ℕ
  pub fc_vote_offset : ℕ
  pub fc_agg_fraction : ℕ
  pub segregated : Bool
  pub round_agg_fraction : ℕ
  pub partial : Bool
  pub finals : List (ℕ × FinalityState)
  pub subscribed : List ℕ
  pub connected : List ℕ
  -- The network operations that are still to run, outside the lock.
  pub joining_topics : List ℕ
  pub joining_peers : List ℕ
  pub leaving_topics : List ℕ
  pub leaving_peers : List ℕ

abbrev pub is_subnet : ℤ → ℕ → Bool
is_subnet (pos n) s = n == s
is_subnet (negsuc n) s = false

-- The loop of `dialTwo`, with the peers picked so far and those dialed.
unfoldable pub dial_two : Chain → List ℕ → List ℕ → List ℕ → List ℕ
dial_two c picked dialed [] = dialed
dial_two c picked dialed (p ∷ ps) =
    let skip = dial_two c picked dialed ps in
    let take_it = dial_two c (p ∷ picked) (dialed ++ p ∷ []) ps in
    if leb 2 (length dialed)
    then dialed
    else (if p == c.num || contains c.stable_peers p || contains picked p then skip else take_it)

-- The dials of each subnet in turn, and the peers picked after them.
unfoldable pub dial_subnets : Chain → (ℕ → List ℕ) → List ℕ → List ℕ → List ℕ × List ℕ
unfolding dial_two
dial_subnets c shuffled picked [] = ([], picked)
dial_subnets c shuffled picked (s ∷ ss) =
    let here = dial_two c picked [] (shuffled s) in
    let (more, after) = dial_subnets c shuffled (here ++ picked) ss in (here ++ more, after)

-- The foreign subnets of the duties, each once, in the order of the duties.
unfoldable pub duty_subnets_of : ℤ → List ℕ → List AttestDuty → List ℕ
duty_subnets_of own acc [] = acc
duty_subnets_of own acc (d ∷ ds) =
    duty_subnets_of own
      (if is_subnet own d.subnet || contains acc d.subnet then acc else acc ++ d.subnet ∷ []) ds

unfoldable pub foreign : ℤ → List ℕ → List ℕ
foreign own [] = []
foreign own (s ∷ ss) = let rest = foreign own ss in if is_subnet own s then rest else s ∷ rest

abbrev pub delete : ℕ → List (ℕ × FinalityState) → List (ℕ × FinalityState)
delete n [] = []
delete n ((k, fs) ∷ rest) = let more = delete n rest in if k == n then more else (k, fs) ∷ more

abbrev pub find : ℕ → List (ℕ × FinalityState) → Option FinalityState
find n [] = none
find n ((k, fs) ∷ rest) = let more = find n rest in if k == n then some fs else more

-- The state of round `n`, given the peers dialed for its duties and for its aggregations.
abbrev pub finality_state : ℤ → List AttestDuty → List ℕ → List ℕ → List ℕ → FinalityState
finality_state own duties agg_subnets vote_dialed aggregate_dialed = record {
  duties = duties;
  own_subnet = own;
  vote_dialed = vote_dialed;
  aggregate_subnets = agg_subnets;
  aggregate_subscribed = foreign own agg_subnets;
  aggregate_dialed = aggregate_dialed;
  dropped = false;
}

-- Under the lock, the state replaces the round's old one. Its foreign meshes are then to be subscribed
-- and its peers to be dialed.
abbrev pub joined : ℕ → FinalityState → Chain → Chain
joined n fs c = record c {
  finals = (n, fs) ∷ delete n c.finals;
  joining_topics = fs.aggregate_subscribed ++ c.joining_topics;
  joining_peers = (fs.vote_dialed ++ fs.aggregate_dialed) ++ c.joining_peers;
}

-- The state that `prejoinFinality` builds, with the seeded order of a subnet's subscribers.
unfoldable pub prejoin_state : (ℕ → List ℕ) → Chain → List AttestDuty → List ℕ → FinalityState
unfolding dial_subnets duty_subnets_of foreign
prejoin_state shuffled c duties agg_subnets =
    let own = c.view.finality_subnet in
    let (vote_dialed, picked) = dial_subnets c shuffled [] (duty_subnets_of own [] duties) in
    let (aggregate_dialed, _) = dial_subnets c shuffled picked agg_subnets in
    finality_state own duties agg_subnets vote_dialed aggregate_dialed

-- `prejoinFinality` up to its network operations. `none` is a panic of the view's tables.
unfoldable pub prejoin_finality : (ℕ → ℕ → List ℕ) → ℕ → Chain → Option Chain
unfolding prejoin_state
prejoin_finality shuffled n c =
    if not c.view.finality_member || leb (length c.view.finality_vote_duties) n then some c else (do
      duties ← get_elem? c.view.finality_vote_duties n
      agg_subnets ← get_elem? c.view.finality_aggregations n
      some (joined n (prejoin_state (shuffled n) c duties agg_subnets) c))

unfoldable pub has_prejoin_state : FinalityState → Bool
has_prejoin_state fs =
    ltb 0 (length fs.vote_dialed)
    || ltb 0 (length fs.aggregate_dialed)
    || ltb 0 (length fs.aggregate_subscribed)

-- Whether a round other than `n` lists a topic, or a peer.
abbrev pub keeps_topic : ℕ → List (ℕ × FinalityState) → ℕ → Bool
keeps_topic n finals topic =
    any (λ e. not (e.0 == n) && contains e.1.aggregate_subscribed topic) finals

abbrev pub keeps_peer : ℕ → List (ℕ × FinalityState) → ℕ → Bool
keeps_peer n finals p =
    any (λ e. not (e.0 == n) && contains (e.1.vote_dialed ++ e.1.aggregate_dialed) p) finals

abbrev pub mark_dropped : ℕ → List (ℕ × FinalityState) → List (ℕ × FinalityState)
mark_dropped n [] = []
mark_dropped n ((k, fs) ∷ rest) =
    (k, if k == n then record fs { dropped = true } else fs) ∷ mark_dropped n rest

-- What no other round lists, under the lock, is then to be unsubscribed and disconnected.
abbrev pub torn_down : ℕ → FinalityState → Chain → Chain
torn_down n fs c = record c {
  finals = mark_dropped n c.finals;
  leaving_topics =
      keep (λ t. not (keeps_topic n c.finals t)) fs.aggregate_subscribed ++ c.leaving_topics;
  leaving_peers =
      keep (λ p. not (keeps_peer n c.finals p)) (fs.vote_dialed ++ fs.aggregate_dialed)
      ++ c.leaving_peers;
}

-- `dropFinality` of the state `fs` of round `n`, up to its network operations.
unfoldable pub drop_finality : ℕ → FinalityState → Chain → Chain
drop_finality n fs c = if fs.dropped then c else torn_down n fs c

-- The round that ends with a slot, where one does.
unfoldable pub reap_key : Chain → ℕ → Option ℕ
reap_key c slot =
    if c.segregated
    then some slot
    else (if not ((slot + 1) % c.finality_round_size == 0)
        then none
        else some (slot / c.finality_round_size))

-- `reapFinality`; the second part is the group key whose partial buckets are pruned.
unfoldable pub reap_finality : ℕ → Chain → Chain × Option ℕ
unfolding reap_key drop_finality
reap_finality slot c = elim (reap_key c slot) [
  | none ↦ (c, none)
  | some key ↦
      let reaped = record c { finals = delete key c.finals } in
      (
        elim (find key c.finals) [ none ↦ reaped | some fs ↦ drop_finality key fs reaped ],
        if c.partial then some key else none,
      )
]

-- The population that sizes an aggregate. Go panics on a zero divisor, which a segregated plan
-- does not have.
unfoldable pub validators_per_cell : Chain → ℕ → ℕ → ℕ
validators_per_cell c n subnet =
    let counts =
      if c.segregated
      then elim (get_elem? c.view.validators_per_round_subnet (n % c.finality_round_size)) [
        | none ↦ []
        | some row ↦ row
      ]
      else c.view.validators_per_subnet in
    elim (get_elem? counts subnet) [ none ↦ 0 | some count ↦ count ]
