-- ===== src/Node/Partial/Publishing/Ticks.antt =====
-- node/partial.go: what a publish tick sends, over all peers and buckets.
use eth_slot_sim.Base.{
  ℕ, ◌≡◌, refl, subst, ◌⊎◌, inl, inr, Bool, true, false, ◌||◌, List, [], ◌∷◌, ◌++◌, map, some, ◌==◌,
  length, Bool-cases,
}
use eth_slot_sim.Node.Partial.Buckets.{PartialBucket}
use eth_slot_sim.Node.Partial.Publishing.{
  PartialPeerState, PeerStates, Batch, Action, Tick, Selected, wants_of, serve_buckets, is_idle,
  kept, serve_peers,
}
use eth_slot_sim.Node.Partial.Publishing.Served.{
  IsServable, View, view, IsOf, AllOf, serve_bucket-IsServed,
}

abbrev pub views : Selected → List View
views sel = map (λ x. view x.1) sel

-- A batch has validated positions of one of the buckets, with their signatures.
abbrev pub IsFrom : List View → Batch → Type 0
IsFrom [] batch = ⊥
IsFrom (v ∷ vs) batch = IsOf v batch ⊎ IsFrom vs batch

abbrev pub AllFrom : List View → List Batch → Type 0
AllFrom vs [] = Unit {0}
AllFrom vs (batch ∷ rest) = IsFrom vs batch × AllFrom vs rest

-- Each action has batches of the buckets, and none for a peer without the partial extension.
abbrev pub AreSent : Tick → List View → List (ℕ × Action) → Type 0
AreSent t vs [] = Unit {0}
AreSent t vs ((p, a) ∷ rest) =
    AllFrom vs a.batches
    × (t.requests_partial p || length a.batches == 0 ≡ true)
    × AreSent t vs rest

abbrev pub AreSelected : Tick → Selected → Type 0
AreSelected t [] = Unit {0}
AreSelected t ((d, b, targets) ∷ rest) = IsServable t b × AreSelected t rest

abbrev pub AreServable : Tick → List (ℕ × PartialBucket) → Type 0
AreServable t [] = Unit {0}
AreServable t ((d, b) ∷ rest) = IsServable t b × AreServable t rest

AllFrom-here :
    (v : View) (vs : List View) (batches : List Batch) → AllOf v batches → AllFrom (v ∷ vs) batches
AllFrom-here v vs [] h = tt
AllFrom-here v vs (batch ∷ rest) (h, hs) = (inl h, AllFrom-here v vs rest hs)

AllFrom-there :
    (v : View) (vs : List View) (batches : List Batch)
    → AllFrom vs batches
    → AllFrom (v ∷ vs) batches
AllFrom-there v vs [] h = tt
AllFrom-there v vs (batch ∷ rest) (h, hs) = (inr h, AllFrom-there v vs rest hs)

AllFrom-append :
    (vs : List View) (xs ys : List Batch) → AllFrom vs xs → AllFrom vs ys → AllFrom vs (xs ++ ys)
AllFrom-append vs [] ys h k = k
AllFrom-append vs (x ∷ xs) ys (h, hs) k = (h, AllFrom-append vs xs ys hs k)

record AreServed (t : Tick) (p : ℕ) (sel : Selected) (served : Selected × Action) : Type 0 where
  servable : AreSelected t served.0
  same : views served.0 ≡ views sel
  sent : AllFrom (views sel) served.1.batches
  classic : t.requests_partial p ≡ false → served.1.batches ≡ []

serve_buckets-AreServed :
    (t : Tick) (p : ℕ) (ps : PartialPeerState) (sel : Selected)
    → AreSelected t sel
    → (served : Selected × Action) × (serve_buckets t p ps sel ≡ some served)
      × AreServed t p sel served
unfolding serve_buckets
serve_buckets-AreServed t p ps [] h =
    (_, refl, record { servable = tt; same = refl; sent = tt; classic = λ h. refl })
serve_buckets-AreServed t p ps ((d, b, targets) ∷ rest) (h, hs) =
    let (x, e, x_served) = serve_bucket-IsServed t p ps (wants_of p targets) b h in
    let (y, f, y_served) = serve_buckets-AreServed t p ps rest hs in
    (
      (
        (d, x.0, targets) ∷ y.0,
        record { metadatas = x.2 ++ y.1.metadatas; batches = x.1 ++ y.1.batches },
      ),
      rw (e, f) refl,
      record {
        servable = (x_served.servable, y_served.servable);
        same = rw (x_served.same, y_served.same) refl;
        sent =
            AllFrom-append (view b ∷ views rest) x.1 y.1.batches
              (AllFrom-here (view b) (views rest) x.1 x_served.sent)
              (AllFrom-there (view b) (views rest) y.1.batches y_served.sent);
        classic = λ k. rw (x_served.classic k, y_served.classic k) refl;
      },
    )

pub record IsTick (t : Tick) (sel : Selected) (ticked : Selected × PeerStates × List (ℕ × Action))
    : Type 0 where
  pub servable : AreSelected t ticked.0
  pub sent : AreSent t (views sel) ticked.2

no_batches : (batches : List Batch) → batches ≡ [] → (length batches == 0) ≡ true
no_batches batches h = rw h refl

is_allowed :
    (t : Tick) (p : ℕ) (batches : List Batch)
    → (t.requests_partial p ≡ false → batches ≡ [])
    → t.requests_partial p || length batches == 0 ≡ true
is_allowed t p batches h = elim (Bool-cases (t.requests_partial p)) [
  | inl asked ↦ rw asked refl
  | inr classic ↦ rw classic (no_batches batches (h classic))
]

pub serve_peers-IsTick :
    (t : Tick) (takes : ℕ → Action → Bool) (states : PeerStates) (sel : Selected)
    → AreSelected t sel
    → (ticked : Selected × PeerStates × List (ℕ × Action)) × (serve_peers t takes states sel
        ≡ some ticked)
      × IsTick t sel ticked
unfolding serve_peers
serve_peers-IsTick t takes [] sel h = (_, refl, record { servable = h; sent = tt })
serve_peers-IsTick t takes (s ∷ states) sel h =
    let (x, e, now) = serve_buckets-AreServed t s.0 s.1 sel h in
    let (y, f, later) = serve_peers-IsTick t takes states x.0 now.servable in
    let sent_later : AreSent t (views sel) y.2 =
      subst (λ vs. AreSent t vs y.2) now.same later.sent in
    let allowed = is_allowed t s.0 x.1.batches now.classic in
    elim (Bool-cases (is_idle t x.1)) [
      | inl idle ↦ (
        (y.0, kept t s y.1, y.2),
        rw (e, idle, f) refl,
        record { servable = later.servable; sent = sent_later },
      )
      | inr busy ↦ elim (Bool-cases (takes s.0 x.1)) [
        | inl taken ↦ (
          (y.0, kept t s y.1, (s.0, x.1) ∷ y.2),
          rw (e, busy, taken, f) refl,
          record { servable = later.servable; sent = (now.sent, allowed, sent_later) },
        )
        | inr stopped ↦ (
          (x.0, kept t s states, (s.0, x.1) ∷ []),
          rw (e, busy, stopped) refl,
          record { servable = now.servable; sent = (now.sent, allowed, tt) },
        )
      ]
    ]
