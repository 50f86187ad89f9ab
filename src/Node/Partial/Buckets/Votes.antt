-- ===== src/Node/Partial/Buckets/Votes.antt =====
-- node/partial.go: the life of a vote in a bucket, over any order of what happens to the bucket.
use eth_slot_sim.Base.{
  bit, occurrences, occurrences-append, ℕ, ◌+◌, ◌≤◌, ◌<◌, ◌≡◌, refl, ap, true, false, not, ◌&&◌,
  ◌||◌, List, [], ◌∷◌, ◌++◌, none, some, arith, ◌==◌, contains, keep, lookup, store, lookup-store,
  inl, inr, Bool-cases, ==_iff,
}
use eth_slot_sim.Node.Partial.Buckets.{
  PartialBucket, is_held, park, add_received, insert, publish_vote, promote_one, promote,
}

-- What happens to a bucket: a batch is received, a vote of the node's own is stored, and a verified
-- batch is promoted.
pub data BucketEvent : Type 0 where
  receives : List (ℕ × ℕ) → BucketEvent
  publishes : ℕ → ℕ → BucketEvent
  verifies : List ℕ → BucketEvent

-- The bucket after an event, and the positions whose arrival it reports.
unfoldable pub run_event : BucketEvent → PartialBucket → PartialBucket × List ℕ
unfolding add_received publish_vote promote
run_event (receives batch) b = ((add_received batch b).0, [])
run_event (publishes pos signature) b = (publish_vote pos signature b, [])
run_event (verifies positions) b = promote positions b

unfoldable pub run_events : List BucketEvent → PartialBucket → PartialBucket × List ℕ
unfolding run_event
run_events [] b = (b, [])
run_events (e ∷ es) b =
    let (b1, now) = run_event e b in let (b2, later) = run_events es b1 in (b2, now ++ later)

-- A position is held exactly when it is validating or validated, and it is never both.
pub record IsTracked (b : PartialBucket) : Type 0 where
  pub held : (p : ℕ) → is_held b p ≡ contains b.validating p || contains b.validated p
  pub apart : (p : ℕ) → contains b.validating p && contains b.validated p ≡ false

contains-insert : (x : ℕ) (xs : List ℕ) (p : ℕ) → contains (insert x xs) p ≡ x == p || contains xs p
contains-insert x [] p = refl
contains-insert x (y ∷ ys) p = ground (arith, contains-insert x ys p)

contains-remove :
    (x : ℕ) (xs : List ℕ) (p : ℕ)
    → contains (keep (λ q. not (q == x)) xs) p ≡ contains xs p && not (x == p)
contains-remove x [] p = refl
contains-remove x (y ∷ ys) p = ground (arith, contains-remove x ys p)

is_held-store :
    (x signature : ℕ) (b : PartialBucket) (p : ℕ)
    → elim (lookup p (store x signature b.attestations)) [ none ↦ false | some s ↦ true ]
      ≡ x == p || is_held b p
is_held-store x signature b p = ground (arith, lookup-store x p signature b.attestations)

-- What a step does to a bucket that is tracked: it stays so, and a reported position was not
-- validated before and is validated after, once.
record Advances (b b' : PartialBucket) (reported : List ℕ) : Type 0 where
  tracked : IsTracked b'
  once :
      (p : ℕ)
      → occurrences p reported + bit (contains b.validated p) ≤ bit (contains b'.validated p)

-- Two equal positions are alike in each set of the bucket.
same_place :
    (b : PartialBucket) (pos p : ℕ)
    → (pos == p) ≡ true
    → (is_held b pos ≡ is_held b p)
      × (contains b.validating pos ≡ contains b.validating p)
      × (contains b.validated pos ≡ contains b.validated p)
same_place b pos p h =
    let e : pos ≡ p = (==_iff pos p).0 h in
    (ap (is_held b) e, ap (contains b.validating) e, ap (contains b.validated) e)

park-IsTracked :
    (pos signature : ℕ) (b : PartialBucket)
    → is_held b pos ≡ false
    → IsTracked b
    → IsTracked (park pos signature b)
park-IsTracked pos signature b h t = record {
  held = λ p. ground (arith, t.held p, is_held-store pos signature b p);
  apart = λ p. ground (arith, t.held p, t.apart p, same_place b pos p, h);
}

publish_vote-Advances :
    (pos signature : ℕ) (b : PartialBucket)
    → IsTracked b
    → Advances b (publish_vote pos signature b) []
unfolding publish_vote
publish_vote-Advances pos signature b t = elim (Bool-cases (is_held b pos)) [
  | inl old ↦ rw old (record { tracked = t; once = λ p. omega arith })
  | inr new ↦ rw new (record {
    tracked = record {
      held = λ p.
          ground
            (arith, t.held p, is_held-store pos signature b p, contains-insert pos b.validated p);
      apart = λ p.
          ground
            (arith, t.held p, t.apart p, same_place b pos p, contains-insert pos b.validated p);
    };
    once = λ p. ground (arith, contains-insert pos b.validated p);
  })
]

promote_one-Advances :
    (pos : ℕ) (b : PartialBucket)
    → contains b.validating pos ≡ true
    → IsTracked b
    → Advances b (promote_one pos b) (pos ∷ [])
promote_one-Advances pos b h t = record {
  tracked = record {
    held = λ p. ground (
      arith,
      t.held p,
      same_place b pos p,
      contains-insert pos b.validated p,
      contains-remove pos b.validating p,
    );
    apart = λ p.
        ground
          (arith, t.apart p, contains-insert pos b.validated p, contains-remove pos b.validating p);
  };
  once = λ p. ground (arith, t.apart p, same_place b pos p, contains-insert pos b.validated p);
}

add_received-Advances :
    (batch : List (ℕ × ℕ)) (b : PartialBucket)
    → IsTracked b
    → Advances b (add_received batch b).0 []
unfolding add_received
add_received-Advances [] b t = record { tracked = t; once = λ p. omega arith }
add_received-Advances ((pos, signature) ∷ rest) b t = elim (Bool-cases (is_held b pos)) [
  | inl old ↦ rw old (add_received-Advances rest b t)
  | inr new ↦
      let a =
        add_received-Advances rest (park pos signature b) (park-IsTracked pos signature b new t) in
      rw new (record { tracked = a.tracked; once = a.once })
]

Advances-trans :
    (b b1 b2 : PartialBucket) (now later : List ℕ)
    → Advances b b1 now
    → Advances b1 b2 later
    → Advances b b2 (now ++ later)
Advances-trans b b1 b2 now later x y = record {
  tracked = y.tracked;
  once = λ p. omega (arith, x.once p, y.once p, occurrences-append p now later);
}

promote-Advances :
    (positions : List ℕ) (b : PartialBucket)
    → IsTracked b
    → Advances b (promote positions b).0 (promote positions b).1
unfolding promote
promote-Advances [] b t = record { tracked = t; once = λ p. omega arith }
promote-Advances (pos ∷ rest) b t = elim (Bool-cases (contains b.validating pos)) [
  | inl waits ↦
      let x = promote_one-Advances pos b waits t in
      let y = promote-Advances rest (promote_one pos b) x.tracked in
      rw waits (
        Advances-trans b (promote_one pos b) (promote rest (promote_one pos b)).0 (pos ∷ [])
          (promote rest (promote_one pos b)).1 x y)
  | inr stale ↦ rw stale (promote-Advances rest b t)
]

run_event-Advances :
    (e : BucketEvent) (b : PartialBucket)
    → IsTracked b
    → Advances b (run_event e b).0 (run_event e b).1
unfolding run_event
run_event-Advances (receives batch) b t = add_received-Advances batch b t
run_event-Advances (publishes pos signature) b t = publish_vote-Advances pos signature b t
run_event-Advances (verifies positions) b t = promote-Advances positions b t

run_events-Advances :
    (es : List BucketEvent) (b : PartialBucket)
    → IsTracked b
    → Advances b (run_events es b).0 (run_events es b).1
unfolding run_events
run_events-Advances [] b t = record { tracked = t; once = λ p. omega arith }
run_events-Advances (e ∷ es) b t =
    let x = run_event-Advances e b t in
    Advances-trans b (run_event e b).0 (run_events es (run_event e b).0).0 (run_event e b).1
      (run_events es (run_event e b).0).1 x (run_events-Advances es (run_event e b).0 x.tracked)

-- In whatever order batches are received, own votes are stored and verified batches are promoted, with
-- any redeliveries, a bucket where each held position is either validating or validated stays so;
-- each position is reported as an arrival at most once, and not at all if it was validated before;
-- and what is reported is validated.
pub run_events_once :
    (es : List BucketEvent) (b : PartialBucket)
    → IsTracked b
    → let (b', reported) = run_events es b in
      IsTracked b'
      × ((p : ℕ)
          → (occurrences p reported ≤ 1)
            × (contains b.validated p ≡ true → occurrences p reported ≡ 0)
            × (0 < occurrences p reported → contains b'.validated p ≡ true))
run_events_once es b t =
    let a = run_events-Advances es b t in (a.tracked, λ p. ground (arith, a.once p))
