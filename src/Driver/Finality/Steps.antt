-- ===== src/Driver/Finality/Steps.antt =====
-- driver/runner.go: what happens to the finality chain, in any order. Of `prejoinFinality` and
-- `dropFinality` each network operation is a step of its own, in any order too, and succeeds.
use eth_slot_sim.Base.{
  any, ◌++◌, ℕ, Bool, true, not, ◌&&◌, List, [], ◌∷◌, Option, none, some, ◌>>=◌, ◌==◌,
  if◌then◌else◌, contains, keep,
}
use eth_slot_sim.Driver.Finality.{
  FinalityState, Chain, find, prejoin_finality, drop_finality, reap_finality,
}

-- The first of the numbers that are equal to one is taken away.
abbrev pub take_away : ℕ → List ℕ → List ℕ
take_away x [] = []
take_away x (y ∷ ys) = let rest = take_away x ys in if y == x then ys else y ∷ rest

abbrev pub all_but : ℕ → List ℕ → List ℕ
all_but x ys = keep (λ y. not (y == x)) ys

-- One network operation, where it is still to run.
unfoldable pub subscribe_one : ℕ → Chain → Chain
subscribe_one t c =
    if contains c.joining_topics t
    then record c { joining_topics = take_away t c.joining_topics; subscribed = t ∷ c.subscribed }
    else c

unfoldable pub dial_one : ℕ → Chain → Chain
dial_one p c =
    if contains c.joining_peers p
    then record c { joining_peers = take_away p c.joining_peers; connected = p ∷ c.connected }
    else c

unfoldable pub unsubscribe_one : ℕ → Chain → Chain
unsubscribe_one t c =
    if contains c.leaving_topics t
    then record c {
      leaving_topics = take_away t c.leaving_topics;
      subscribed = all_but t c.subscribed;
    }
    else c

unfoldable pub disconnect_one : ℕ → Chain → Chain
disconnect_one p c =
    if contains c.leaving_peers p
    then record c { leaving_peers = take_away p c.leaving_peers; connected = all_but p c.connected }
    else c

-- A round is registered, a round's drop timer fires, a slot ends; or an operation of a pre-join or of a
-- teardown runs.
pub data Event : Type 0 where
  prejoin : ℕ → Event
  drop_timer : ℕ → Event
  slot_ends : ℕ → Event
  subscribes : ℕ → Event
  dials : ℕ → Event
  unsubscribes : ℕ → Event
  disconnects : ℕ → Event

unfoldable pub run_event : (ℕ → ℕ → List ℕ) → Event → Chain → Option Chain
unfolding prejoin_finality drop_finality reap_finality subscribe_one dial_one unsubscribe_one
    disconnect_one
run_event shuffled (prejoin n) c = prejoin_finality shuffled n c
run_event shuffled (drop_timer n) c = elim (find n c.finals) [
  | none ↦ some c
  | some fs ↦ some (drop_finality n fs c)
]
run_event shuffled (slot_ends slot) c = some (reap_finality slot c).0
run_event shuffled (subscribes t) c = some (subscribe_one t c)
run_event shuffled (dials p) c = some (dial_one p c)
run_event shuffled (unsubscribes t) c = some (unsubscribe_one t c)
run_event shuffled (disconnects p) c = some (disconnect_one p c)

unfoldable pub run_events : (ℕ → ℕ → List ℕ) → List Event → Chain → Option Chain
unfolding run_event
run_events shuffled [] c = some c
run_events shuffled (e ∷ es) c = do c' ← run_event shuffled e c; run_events shuffled es c'

-- No teardown under way takes what the state of a round lists.
abbrev pub is_clear : Option FinalityState → Chain → Bool
is_clear none c = true
is_clear (some fs) c =
    not (any (contains c.leaving_topics) fs.aggregate_subscribed)
    && not (any (contains c.leaving_peers) (fs.vote_dialed ++ fs.aggregate_dialed))

-- Whether a round that is registered has the state after which it is so.
abbrev pub registers_apart : (ℕ → ℕ → List ℕ) → Event → Chain → Bool
registers_apart shuffled (prejoin n) c = elim (prejoin_finality shuffled n c) [
  | none ↦ true
  | some c' ↦ is_clear (find n c'.finals) c
]
registers_apart shuffled (drop_timer n) c = true
registers_apart shuffled (slot_ends slot) c = true
registers_apart shuffled (subscribes t) c = true
registers_apart shuffled (dials p) c = true
registers_apart shuffled (unsubscribes t) c = true
registers_apart shuffled (disconnects p) c = true

-- Whether no round of a run is registered that lists what a teardown under way takes.
unfoldable pub are_apart : (ℕ → ℕ → List ℕ) → List Event → Chain → Bool
unfolding run_event prejoin_finality
are_apart shuffled [] c = true
are_apart shuffled (e ∷ es) c =
    registers_apart shuffled e c
    && elim (run_event shuffled e c) [ none ↦ true | some c' ↦ are_apart shuffled es c' ]
