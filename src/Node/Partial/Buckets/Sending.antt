-- ===== src/Node/Partial/Buckets/Sending.antt =====
-- node/partial.go: the caps on what is forwarded and on what is requested, over all peers.
use eth_slot_sim.Base.{
  occurrences, occurrences-append, ℕ, zero, suc, ◌+◌, ◌≤◌, ◌<◌, ◌≡◌, refl, sym, ap, subst, Bool,
  true, false, ◌&&◌, List, [], ◌∷◌, ◌++◌, arith, ltb, ◌==◌, if◌then◌else◌, keep, store,
  lookup-store, inl, inr, Bool-cases, ==_iff, range_from,
}
use eth_slot_sim.Node.Partial.Buckets.{
  BitmapOps, BucketPeerState, PartialBucket, is_held, count_of, count_up, is_claimed, claim_to_send,
  is_wanted, want_from, select_iwant_targets, peer,
}

same_count :
    (x p : ℕ) (counts : List (ℕ × ℕ)) → (x == p) ≡ true → count_of x counts ≡ count_of p counts
same_count x p counts h = ap (λ y. count_of y counts) {x = x} {y = p} ((==_iff x p).0 h)

count_of-count_up :
    (p : ℕ) (claimed : List ℕ) (counts : List (ℕ × ℕ))
    → count_of p (count_up claimed counts) ≡ occurrences p claimed + count_of p counts
unfolding count_up
count_of-count_up p [] counts = omega arith
count_of-count_up p (x ∷ rest) counts = ground (
  arith,
  count_of-count_up p rest (store x (count_of x counts + 1) counts),
  lookup-store x p (count_of x counts + 1) counts,
  same_count x p counts,
)

occurrences-keep :
    (f : ℕ → Bool) (xs : List ℕ) (p : ℕ)
    → occurrences p (keep f xs) ≡ (if f p then occurrences p xs else 0)
occurrences-keep f [] p = ground arith
occurrences-keep f (x ∷ xs) p = elim (Bool-cases (x == p)) [
  | inl same ↦
      let e : f x ≡ f p = ap f {x = x} {y = p} ((==_iff x p).0 same) in
      ground (arith, e, occurrences-keep f xs p)
  | inr other ↦ ground (arith, occurrences-keep f xs p)
]

-- A list of positions names each at most once.
abbrev pub EachOnce : List ℕ → Type 0
EachOnce xs = (p : ℕ) → occurrences p xs ≤ 1

-- No position was counted beyond a cap.
abbrev pub IsCapped : ℕ → List (ℕ × ℕ) → Type 0
IsCapped most counts = (p : ℕ) → count_of p counts ≤ most

occurrences-range_from :
    (p start n : ℕ)
    → (occurrences p (range_from start n) ≤ 1)
      × (p < start → occurrences p (range_from start n) ≡ 0)
occurrences-range_from p start zero = ground arith
occurrences-range_from p start (suc n) = ground (arith, occurrences-range_from p (suc start) n)

-- One peer after another is served a bucket; what each is sent.
unfoldable pub serve_all :
    BitmapOps → ℕ → List (BucketPeerState × Bool) → PartialBucket → PartialBucket × List ℕ
unfolding claim_to_send
serve_all bits max_peers [] b = (b, [])
serve_all bits max_peers ((bps, gossip_peer) ∷ rest) b =
    let (claimed, b1, _) = claim_to_send bits max_peers b bps gossip_peer in
    let (b2, later) = serve_all bits max_peers rest b1 in (b2, claimed ++ later)

-- What is counted is what was sent, and the cap holds.
pub record Counted (most : ℕ) (counts counts' : List (ℕ × ℕ)) (sent : List ℕ) : Type 0 where
  pub sums : (p : ℕ) → count_of p counts' ≡ occurrences p sent + count_of p counts
  pub capped : IsCapped most counts → IsCapped most counts'

Counted-trans :
    (most : ℕ) (c c1 c2 : List (ℕ × ℕ)) (now later : List ℕ)
    → Counted most c c1 now
    → Counted most c1 c2 later
    → Counted most c c2 (now ++ later)
Counted-trans most c c1 c2 now later x y = record {
  sums = λ p. omega (arith, x.sums p, y.sums p, occurrences-append p now later);
  capped = λ h. y.capped (x.capped h);
}

-- Positions chosen, each at most once, by a test that implies room under the cap.
chosen-Counted :
    (most : ℕ) (test : ℕ → Bool) (xs : List ℕ) (counts : List (ℕ × ℕ))
    → EachOnce xs
    → ((p : ℕ) → test p ≡ true → ltb (count_of p counts) most ≡ true)
    → Counted most counts (count_up (keep test xs) counts) (keep test xs)
chosen-Counted most test xs counts each room = record {
  sums = λ p. count_of-count_up p (keep test xs) counts;
  capped = λ h p. ground (
    arith,
    count_of-count_up p (keep test xs) counts,
    occurrences-keep test xs p,
    each p,
    room p,
    h p,
  );
}

nothing-Counted : (most : ℕ) (counts : List (ℕ × ℕ)) → Counted most counts counts []
nothing-Counted most counts = record { sums = λ p. omega arith; capped = λ h. h }

pub claim_to_send-Counted :
    (bits : BitmapOps) (max_peers : ℕ) (b : PartialBucket) (bps : BucketPeerState)
    (gossip_peer : Bool)
    → EachOnce b.validated
    → let (claimed, b', _) = claim_to_send bits max_peers b bps gossip_peer in
      Counted max_peers b.send_count b'.send_count claimed × (b'.validated ≡ b.validated)
unfolding claim_to_send
claim_to_send-Counted bits max_peers b bps gossip_peer each =
    elim (Bool-cases (gossip_peer && bits.ones_count bps.pending_want == 0)) [
      | inl quiet ↦ rw quiet (nothing-Counted max_peers b.send_count, refl)
      | inr served ↦ rw served (
        chosen-Counted max_peers (is_claimed bits max_peers b bps gossip_peer) b.validated
            b.send_count each (λ p h. ground arith),
        refl,
      )
    ]

serve_all-Counted :
    (bits : BitmapOps) (max_peers : ℕ) (served : List (BucketPeerState × Bool)) (b : PartialBucket)
    → EachOnce b.validated
    → Counted max_peers b.send_count
        (serve_all bits max_peers served b).0.send_count
        (serve_all bits max_peers served b).1
unfolding serve_all
serve_all-Counted bits max_peers [] b each = nothing-Counted max_peers b.send_count
serve_all-Counted bits max_peers ((bps, gossip_peer) ∷ rest) b each =
    let (x, same) = claim_to_send-Counted bits max_peers b bps gossip_peer each in
    let b1 = (claim_to_send bits max_peers b bps gossip_peer).1 in
    Counted-trans max_peers b.send_count b1.send_count
      (serve_all bits max_peers rest b1).0.send_count
      (claim_to_send bits max_peers b bps gossip_peer).0 (serve_all bits max_peers rest b1).1 x
      (serve_all-Counted bits max_peers rest b1 (subst EachOnce (sym same) each))

-- However many peers are served a bucket, each with whatever it holds and wants: a position is sent as
-- often as its count rises, and where no count was beyond the cap, no position is sent so often
-- that its count would be beyond it.
pub serve_all-capped :
    (bits : BitmapOps) (max_peers : ℕ) (served : List (BucketPeerState × Bool)) (b : PartialBucket)
    → EachOnce b.validated
    → IsCapped max_peers b.send_count
    → let (b', sent) = serve_all bits max_peers served b in
      (p : ℕ)
      → (count_of p b'.send_count ≡ occurrences p sent + count_of p b.send_count)
        × (occurrences p sent + count_of p b.send_count ≤ max_peers)
serve_all-capped bits max_peers served b each h p =
    let c = serve_all-Counted bits max_peers served b each in
    (c.sums p, omega (arith, c.sums p, c.capped h p))

-- The positions requested, over all peers.
abbrev pub requested : List (ℕ × List ℕ) → List ℕ
requested [] = []
requested ((p, wants) ∷ rest) = wants ++ requested rest

select-Counted :
    (bits : BitmapOps) (max_iwant size : ℕ) (ps : List (ℕ × Bool)) (b : PartialBucket)
    → let (b', targets) = select_iwant_targets bits max_iwant size ps b in
      Counted max_iwant b.request_count b'.request_count (requested targets)
      × ((p : ℕ) → is_held b p ≡ true → occurrences p (requested targets) ≡ 0)
unfolding select_iwant_targets
select-Counted bits max_iwant size [] b = (nothing-Counted max_iwant b.request_count, λ p h. refl)
select-Counted bits max_iwant size ((p, false) ∷ rest) b = select-Counted bits max_iwant size rest b
select-Counted bits max_iwant size ((p, true) ∷ rest) b =
    let available = (peer b p size).available in
    let (b1, wants) = want_from bits max_iwant size p b in
    let (b2, targets) = select_iwant_targets bits max_iwant size rest b1 in
    let (y, held) = select-Counted bits max_iwant size rest b1 in
    (
      Counted-trans max_iwant b.request_count b1.request_count b2.request_count wants
          (requested targets)
          (chosen-Counted max_iwant (is_wanted bits max_iwant b available) (range_from 0 size)
            b.request_count (λ q. (occurrences-range_from q 0 size).0) (λ q h. ground arith))
          y,
      λ q h. ground (
        arith,
        occurrences-append q wants (requested targets),
        occurrences-keep (is_wanted bits max_iwant b available) (range_from 0 size) q,
        held q h,
        h,
      ),
    )

-- Whatever peers advertise, and in whatever order they are visited: a position is requested as often
-- as its count rises, no request takes a count beyond the cap, and a position that is held is not
-- requested.
pub select_iwant_targets-capped :
    (bits : BitmapOps) (max_iwant size : ℕ) (ps : List (ℕ × Bool)) (b : PartialBucket)
    → IsCapped max_iwant b.request_count
    → let (b', targets) = select_iwant_targets bits max_iwant size ps b in
      (p : ℕ)
      → (count_of p b'.request_count
          ≡ occurrences p (requested targets) + count_of p b.request_count)
        × (count_of p b'.request_count ≤ max_iwant)
        × (is_held b p ≡ true → occurrences p (requested targets) ≡ 0)
select_iwant_targets-capped bits max_iwant size ps b h p =
    let (c, held) = select-Counted bits max_iwant size ps b in (c.sums p, c.capped h p, held p)
