-- ===== src/Driver/Finality/Teardown.antt =====
-- driver/runner.go: the teardown of a finality round spares what another live round lists.
use eth_slot_sim.Base.{
  ap, ==_iff, any, ==_refl, ℕ, ◌⊎◌, some-injective, ◌≡◌, refl, sym, Bool, true, false, not, ◌&&◌,
  ◌||◌, List, [], ◌∷◌, ◌++◌, Option, none, some, ◌>>=◌, arith, ◌==◌, leb, if◌then◌else◌, length,
  get_elem?, contains, contains-append, inl, inr, Bool-cases, subst,
}
use eth_slot_sim.Schedule.{AttestDuty}
use eth_slot_sim.Driver.Finality.{
  Chain, FinalityState, delete, find, joined, prejoin_state, prejoin_finality, drop_finality,
}
use eth_slot_sim.Driver.Finality.Steps.{
  subscribe_one, dial_one, unsubscribe_one, disconnect_one, Event, prejoin, drop_timer, slot_ends,
  subscribes, dials, unsubscribes, disconnects, run_event, run_events, is_clear, registers_apart,
  are_apart,
}
use eth_slot_sim.Driver.Finality.Sparing.{
  IsSafe, AllRely, IsHeld, AllRely-delete, Spares, AllRely-Spares, subscribe_one-Spares,
  dial_one-Spares, unsubscribe_one-Spares, disconnect_one-Spares,
}
use eth_slot_sim.Driver.Finality.Dropping.{drop_finality-IsHeld, reap_finality-IsHeld}

untaken :
    (x : ℕ) (leaving xs : List ℕ)
    → any (contains leaving) xs ≡ false
    → contains xs x ≡ true
    → contains leaving x ≡ false
untaken x leaving [] h m = cc
untaken x leaving (y ∷ ys) h m = elim (Bool-cases (y == x)) [
  | inl same ↦ let e : y ≡ x = (==_iff y x).0 same in ground (arith, h, ap (contains leaving) e)
  | inr other ↦ untaken x leaving ys (ground (arith, h)) (ground (arith, other, m))
]

-- A list whose operations are to run, none of which is undone.
new-IsSafe :
    (xs now joining leaving : List ℕ)
    → any (contains leaving) xs ≡ false
    → IsSafe xs now (xs ++ joining) leaving
new-IsSafe xs now joining leaving clear y m =
    (ground (arith, contains-append xs joining y, m), untaken y leaving xs clear m)

more-IsSafe :
    (added xs now joining leaving : List ℕ)
    → IsSafe xs now joining leaving
    → IsSafe xs now (added ++ joining) leaving
more-IsSafe added xs now joining leaving h y m =
    let (there, stays) = h y m in (ground (arith, there, contains-append added joining y), stays)

joined-Spares : (n : ℕ) (fs : FinalityState) (c : Chain) → Spares c (joined n fs c)
joined-Spares n fs c = (λ xs h. more-IsSafe _ xs _ _ _ h, λ xs h. more-IsSafe _ xs _ _ _ h)

joined-IsHeld :
    (n : ℕ) (fs : FinalityState) (c : Chain)
    → is_clear (some fs) c ≡ true
    → IsHeld c
    → IsHeld (joined n fs c)
joined-IsHeld n fs c clear h = (
  λ live. (
    new-IsSafe fs.aggregate_subscribed c.subscribed c.joining_topics c.leaving_topics
        (ground (arith, clear)),
    new-IsSafe (fs.vote_dialed ++ fs.aggregate_dialed) c.connected c.joining_peers c.leaving_peers
        (ground (arith, clear)),
  ),
  AllRely-Spares c (joined n fs c) (delete n c.finals) (joined-Spares n fs c)
      (AllRely-delete n c c.finals h),
)

-- Unless a table panics, the chain is as before or has the round's new state.
joins-cases :
    (n : ℕ) (c c' : Chain) (state : List AttestDuty → List ℕ → FinalityState) (outside : Bool)
    (duties_at : Option (List AttestDuty)) (aggs_at : Option (List ℕ))
    → (if outside
        then some c
        else (do duties ← duties_at; aggs ← aggs_at; some (joined n (state duties aggs) c)))
      ≡ some c'
    → (c' ≡ c) ⊎ ((fs : FinalityState) × (c' ≡ joined n fs c))
joins-cases n c c' state true _ _ e = inl (sym (some-injective _ _ e))
joins-cases n c c' state false none _ e = cc
joins-cases n c c' state false (some duties) none e = cc
joins-cases n c c' state false (some duties) (some aggs) e =
    inr (state duties aggs, sym (some-injective _ _ e))

find-joined : (n : ℕ) (fs : FinalityState) (c : Chain) → find n (joined n fs c).finals ≡ some fs
find-joined n fs c = rw (==_refl n) refl

prejoin_finality-IsHeld :
    (shuffled : ℕ → ℕ → List ℕ) (n : ℕ) (c c' : Chain)
    → is_clear (find n c'.finals) c ≡ true
    → IsHeld c
    → prejoin_finality shuffled n c ≡ some c'
    → IsHeld c'
unfolding prejoin_finality
prejoin_finality-IsHeld shuffled n c c' clear h e =
    elim (joins-cases n c c' (prejoin_state (shuffled n) c)
      (not c.view.finality_member || leb (length c.view.finality_vote_duties) n)
      (get_elem? c.view.finality_vote_duties n) (get_elem? c.view.finality_aggregations n) e) [
        | inl same ↦ subst IsHeld (sym same) h
        | inr (fs, new) ↦
            let clear0 = subst (λ (d : Chain). is_clear (find n d.finals) c ≡ true) new clear in
            let clear1 = subst (λ o. is_clear o c ≡ true) (find-joined n fs c) clear0 in
            subst IsHeld (sym new) (joined-IsHeld n fs c clear1 h)
      ]

-- The test of the registration, at the state that it gives.
clear_after :
    (o : Option Chain) (n : ℕ) (c c' : Chain)
    → o ≡ some c'
    → elim o [ none ↦ true | some d ↦ is_clear (find n d.finals) c ] ≡ true
    → is_clear (find n c'.finals) c ≡ true
clear_after none n c c' e h = absurd (cc)
clear_after (some d) n c c' e h =
    subst (λ (x : Chain). is_clear (find n x.finals) c ≡ true) (some-injective _ _ e) h

dropped-IsHeld :
    (n : ℕ) (o : Option FinalityState) (c c' : Chain)
    → IsHeld c
    → elim o [ none ↦ some c | some fs ↦ some (drop_finality n fs c) ] ≡ some c'
    → IsHeld c'
dropped-IsHeld n none c c' h e = subst IsHeld (some-injective _ _ e) h
dropped-IsHeld n (some fs) c c' h e =
    subst IsHeld (some-injective _ _ e) (drop_finality-IsHeld n fs c h)

subscribe_one-finals : (t : ℕ) (c : Chain) → (subscribe_one t c).finals ≡ c.finals
unfolding subscribe_one
subscribe_one-finals t c = ground arith

dial_one-finals : (p : ℕ) (c : Chain) → (dial_one p c).finals ≡ c.finals
unfolding dial_one
dial_one-finals p c = ground arith

unsubscribe_one-finals : (t : ℕ) (c : Chain) → (unsubscribe_one t c).finals ≡ c.finals
unfolding unsubscribe_one
unsubscribe_one-finals t c = ground arith

disconnect_one-finals : (p : ℕ) (c : Chain) → (disconnect_one p c).finals ≡ c.finals
unfolding disconnect_one
disconnect_one-finals p c = ground arith

-- An operation leaves the rounds as they are, and spares what is safe.
operation-IsHeld :
    (c d c' : Chain) → d.finals ≡ c.finals → Spares c d → IsHeld c → some d ≡ some c' → IsHeld c'
operation-IsHeld c d c' same s h e =
    subst IsHeld (some-injective _ _ e)
      (subst (AllRely d) (sym same) (AllRely-Spares c d c.finals s h))

run_event-IsHeld :
    (shuffled : ℕ → ℕ → List ℕ) (e : Event) (c c' : Chain)
    → registers_apart shuffled e c ≡ true
    → IsHeld c
    → run_event shuffled e c ≡ some c'
    → IsHeld c'
unfolding run_event
run_event-IsHeld shuffled (prejoin n) c c' apart h e =
    prejoin_finality-IsHeld shuffled n c c' (clear_after _ n c c' e apart) h e
run_event-IsHeld shuffled (slot_ends slot) c c' apart h e =
    subst IsHeld (some-injective _ _ e) (reap_finality-IsHeld slot c h)
run_event-IsHeld shuffled (drop_timer n) c c' apart h e =
    dropped-IsHeld n (find n c.finals) c c' h e
run_event-IsHeld shuffled (subscribes t) c c' apart h e =
    operation-IsHeld c (subscribe_one t c) c' (subscribe_one-finals t c) (subscribe_one-Spares t c)
      h e
run_event-IsHeld shuffled (dials p) c c' apart h e =
    operation-IsHeld c (dial_one p c) c' (dial_one-finals p c) (dial_one-Spares p c) h e
run_event-IsHeld shuffled (unsubscribes t) c c' apart h e =
    operation-IsHeld c (unsubscribe_one t c) c' (unsubscribe_one-finals t c)
      (unsubscribe_one-Spares t c) h e
run_event-IsHeld shuffled (disconnects p) c c' apart h e =
    operation-IsHeld c (disconnect_one p c) c' (disconnect_one-finals p c)
      (disconnect_one-Spares p c) h e

-- A step that may panic, and what follows it.
after-IsHeld {ℓ} :
    {P : Chain → Type ℓ} (o : Option Chain) (k : Chain → Option Chain) (c' : Chain)
    → ((mid : Chain) → o ≡ some mid → P mid)
    → ((mid : Chain) → P mid → k mid ≡ some c' → IsHeld c')
    → (o >>= k) ≡ some c'
    → IsHeld c'
after-IsHeld none k c' step rest r = absurd (cc)
after-IsHeld (some mid) k c' step rest r = rest mid (step mid refl) r

-- The first event of a run that is apart, and the rest.
apart_rest :
    (a : Bool) (o : Option Chain) (more : Chain → Bool)
    → a && elim o [ none ↦ true | some c' ↦ more c' ] ≡ true
    → (a ≡ true) × ((mid : Chain) → o ≡ some mid → more mid ≡ true)
apart_rest true none more h = (refl, λ mid e. absurd (cc))
apart_rest true (some c) more h =
    (refl, λ mid e. subst (λ d. more d ≡ true) (some-injective _ _ e) h)
apart_rest false o more h = absurd (cc)

-- Whatever the order in which rounds are registered, their drop timers fire, slots end, and each
-- subscribe, dial, unsubscribe and disconnect of a pre-join or a teardown runs, if no round is
-- registered that lists a mesh or a peer which a teardown then under way takes: where it is so at the
-- start, each live round that was not torn down has the foreign meshes that it lists and the peers
-- that it dialed, or the operation of its pre-join is still to run, and no teardown under way takes
-- any of them.
pub run_events-IsHeld :
    (shuffled : ℕ → ℕ → List ℕ) (es : List Event) (c c' : Chain)
    → IsHeld c
    → are_apart shuffled es c ≡ true
    → run_events shuffled es c ≡ some c'
    → IsHeld c'
unfolding run_events are_apart
run_events-IsHeld shuffled [] c c' h a r = subst IsHeld (some-injective _ _ r) h
run_events-IsHeld shuffled (e ∷ es) c c' h a r =
    let (first, later) =
      apart_rest (registers_apart shuffled e c) (run_event shuffled e c)
        (λ mid. are_apart shuffled es mid) a in
    after-IsHeld {P = λ mid. IsHeld mid × (are_apart shuffled es mid ≡ true)}
      (run_event shuffled e c) (λ mid. run_events shuffled es mid) c'
      (λ mid ran. (run_event-IsHeld shuffled e c mid first h ran, later mid ran))
      (λ mid held rest. run_events-IsHeld shuffled es mid c' held.0 held.1 rest) r
