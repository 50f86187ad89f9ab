-- ===== src/Driver/Finality/Sparing.antt =====
-- driver/runner.go: what a live finality round lists is safe from the network operations under way.
use eth_slot_sim.Base.{
  ℕ, ◌≡◌, refl, ap, Bool, true, false, not, ◌&&◌, ◌||◌, List, [], ◌∷◌, ◌++◌, arith, ◌==◌, contains,
  inl, inr, Bool-cases, ==_iff, keep,
}
use eth_slot_sim.Driver.Finality.{Chain, FinalityState, delete}
use eth_slot_sim.Driver.Finality.Steps.{
  take_away, all_but, subscribe_one, dial_one, unsubscribe_one, disconnect_one,
}

pub contains-keep :
    (p : ℕ → Bool) (xs : List ℕ) (x : ℕ) → contains (keep p xs) x ≡ contains xs x && p x
contains-keep p [] x = refl
contains-keep p (y ∷ xs) x = elim (Bool-cases (y == x)) [
  | inl same ↦
      let e : y ≡ x = (==_iff y x).0 same in ground (arith, contains-keep p xs x, ap p e, same)
  | inr other ↦ ground (arith, contains-keep p xs x, other)
]

contains-take_away :
    (x y : ℕ) (xs : List ℕ) → contains xs y ≡ true → (x == y) || contains (take_away x xs) y ≡ true
contains-take_away x y [] h = cc
contains-take_away x y (z ∷ xs) h = elim (Bool-cases (z == x)) [
  | inl same ↦ let e : z ≡ x = (==_iff z x).0 same in ground (arith, h, same, ap (λ v. v == y) e)
  | inr other ↦ ground (arith, h, other, contains-take_away x y xs)
]

take_away-contains :
    (x y : ℕ) (xs : List ℕ) → contains xs y ≡ false → contains (take_away x xs) y ≡ false
take_away-contains x y [] h = refl
take_away-contains x y (z ∷ xs) h = ground (arith, h, take_away-contains x y xs)

either_left : (a b : Bool) → a ≡ true → a || b ≡ true
either_left a b h = ground arith

pub either_right : (a b : Bool) → b ≡ true → a || b ≡ true
either_right a b h = ground arith

-- What is listed is there, or its operation is still to run; and no teardown under way takes it.
abbrev pub IsSafe : List ℕ → List ℕ → List ℕ → List ℕ → Type 0
IsSafe listed now joining leaving =
    (x : ℕ)
    → contains listed x ≡ true
    → (contains now x || contains joining x ≡ true) × (contains leaving x ≡ false)

abbrev Relies : FinalityState → Chain → Type 0
Relies fs c =
    fs.dropped ≡ false
    → IsSafe fs.aggregate_subscribed c.subscribed c.joining_topics c.leaving_topics
      × IsSafe (fs.vote_dialed ++ fs.aggregate_dialed) c.connected c.joining_peers c.leaving_peers

abbrev pub AllRely : Chain → List (ℕ × FinalityState) → Type 0
AllRely c [] = Unit {0}
AllRely c ((k, fs) ∷ rest) = Relies fs c × AllRely c rest

-- So it is for the foreign meshes and the peers of every live round that was not torn down.
abbrev pub IsHeld : Chain → Type 0
IsHeld c = AllRely c c.finals

pub AllRely-delete :
    (n : ℕ) (c : Chain) (es : List (ℕ × FinalityState)) → AllRely c es → AllRely c (delete n es)
AllRely-delete n c [] h = tt
AllRely-delete n c ((k, fs) ∷ es) h = elim (Bool-cases (k == n)) [
  | inl gone ↦ rw gone (AllRely-delete n c es h.1)
  | inr stays ↦ rw stays (h.0, AllRely-delete n c es h.1)
]

-- A step that leaves safe whatever is safe.
abbrev pub Spares : Chain → Chain → Type 0
Spares c c' =
    ((xs : List ℕ)
      → IsSafe xs c.subscribed c.joining_topics c.leaving_topics
      → IsSafe xs c'.subscribed c'.joining_topics c'.leaving_topics)
    × ((xs : List ℕ)
        → IsSafe xs c.connected c.joining_peers c.leaving_peers
        → IsSafe xs c'.connected c'.joining_peers c'.leaving_peers)

pub AllRely-Spares :
    (c c' : Chain) (es : List (ℕ × FinalityState)) → Spares c c' → AllRely c es → AllRely c' es
AllRely-Spares c c' [] s h = tt
AllRely-Spares c c' ((k, fs) ∷ es) s h = (
  λ live. let (a, b) = h.0 live in (s.0 fs.aggregate_subscribed a, s.1 _ b),
  AllRely-Spares c c' es s h.1,
)

done-IsSafe :
    (x : ℕ) (xs now joining leaving : List ℕ)
    → IsSafe xs now joining leaving
    → IsSafe xs (x ∷ now) (take_away x joining) leaving
done-IsSafe x xs now joining leaving h y m =
    let (there, stays) = h y m in (ground (arith, there, contains-take_away x y joining), stays)

gone-IsSafe :
    (x : ℕ) (xs now joining leaving : List ℕ)
    → contains leaving x ≡ true
    → IsSafe xs now joining leaving
    → IsSafe xs (all_but x now) joining (take_away x leaving)
gone-IsSafe x xs now joining leaving under_way h y m =
    let (there, stays) = h y m in
    let apart : (y == x) ≡ false = elim (Bool-cases (y == x)) [
      | inl same ↦ absurd (cc (under_way, stays, (==_iff y x).0 same))
      | inr other ↦ other
    ] in
    (
      ground (arith, there, contains-keep (λ z. not (z == x)) now y, apart),
      take_away-contains x y leaving stays,
    )

pub subscribe_one-Spares : (t : ℕ) (c : Chain) → Spares c (subscribe_one t c)
unfolding subscribe_one
subscribe_one-Spares t c = elim (Bool-cases (contains c.joining_topics t)) [
  | inl due ↦ rw due (λ xs h. done-IsSafe t xs _ _ _ h, λ xs h. h)
  | inr not_due ↦ rw not_due (λ xs h. h, λ xs h. h)
]

pub dial_one-Spares : (p : ℕ) (c : Chain) → Spares c (dial_one p c)
unfolding dial_one
dial_one-Spares p c = elim (Bool-cases (contains c.joining_peers p)) [
  | inl due ↦ rw due (λ xs h. h, λ xs h. done-IsSafe p xs _ _ _ h)
  | inr not_due ↦ rw not_due (λ xs h. h, λ xs h. h)
]

pub unsubscribe_one-Spares : (t : ℕ) (c : Chain) → Spares c (unsubscribe_one t c)
unfolding unsubscribe_one
unsubscribe_one-Spares t c = elim (Bool-cases (contains c.leaving_topics t)) [
  | inl due ↦ rw due (λ xs h. gone-IsSafe t xs _ _ _ due h, λ xs h. h)
  | inr not_due ↦ rw not_due (λ xs h. h, λ xs h. h)
]

pub disconnect_one-Spares : (p : ℕ) (c : Chain) → Spares c (disconnect_one p c)
unfolding disconnect_one
disconnect_one-Spares p c = elim (Bool-cases (contains c.leaving_peers p)) [
  | inl due ↦ rw due (λ xs h. h, λ xs h. gone-IsSafe p xs _ _ _ due h)
  | inr not_due ↦ rw not_due (λ xs h. h, λ xs h. h)
]
