-- ===== src/Schedule/Views/Seats.antt =====
-- schedule: the seats of a slot are the duties of the nodes, each of exactly one.
use eth_slot_sim.Base.{
  ℕ, zero, suc, ◌+◌, ◌<◌, ◌≡◌, refl, Bool, List, [], ◌∷◌, arith, ◌==◌, if◌then◌else◌, length,
  length-append,
}
use eth_slot_sim.Schedule.{AttesterRef}
use eth_slot_sim.Schedule.Views.{committee_duties, slot_duties}

-- The sum of `f` over the nodes below `n`.
pub total_over : ℕ → (ℕ → ℕ) → ℕ
total_over zero f = 0
total_over (suc n) f = total_over n f + f n

total_over-add :
    (n : ℕ) (f g : ℕ → ℕ) → total_over n (λ i. f i + g i) ≡ total_over n f + total_over n g
unfolding total_over
total_over-add zero f g = omega arith
total_over-add (suc n) f g = omega (arith, total_over-add n f g)

one_if : Bool → ℕ
one_if b = if b then 1 else 0

total_over-above : (n a : ℕ) → n < suc a → total_over n (λ i. one_if (a == i)) ≡ 0
unfolding total_over one_if
total_over-above zero a h = refl
total_over-above (suc n) a h = ground (arith, total_over-above n a)

total_over-one : (n a : ℕ) → a < n → total_over n (λ i. one_if (a == i)) ≡ 1
unfolding total_over one_if
total_over-one zero a h = elim h [ ]
total_over-one (suc n) a h = ground (arith, total_over-one n a, total_over-above n a)

-- Every node of the seats is below `n`.
abbrev pub AreBelow : ℕ → List AttesterRef → Type 0
AreBelow n [] = Unit {0}
AreBelow n (r ∷ rs) = (r.node < n) × AreBelow n rs

abbrev pub AllBelow : ℕ → List (List AttesterRef) → Type 0
AllBelow n [] = Unit {0}
AllBelow n (c ∷ cs) = AreBelow n c × AllBelow n cs

abbrev pub seats_in : List (List AttesterRef) → ℕ
seats_in [] = 0
seats_in (c ∷ cs) = length c + seats_in cs

total_over-ext : (n : ℕ) (f g : ℕ → ℕ) → ((i : ℕ) → f i ≡ g i) → total_over n f ≡ total_over n g
unfolding total_over
total_over-ext zero f g h = refl
total_over-ext (suc n) f g h = omega (arith, total_over-ext n f g h, h n)

total_over-zero : (n : ℕ) → total_over n (λ i. 0) ≡ 0
unfolding total_over
total_over-zero zero = refl
total_over-zero (suc n) = omega (arith, total_over-zero n)

length-committee_duties :
    (node : ℕ) (r : AttesterRef) (c : List AttesterRef)
    → length (committee_duties node (r ∷ c))
      ≡ one_if (r.node == node) + length (committee_duties node c)
unfolding committee_duties one_if
length-committee_duties node r c = ground arith

total-committee_duties :
    (n : ℕ) (c : List AttesterRef)
    → AreBelow n c
    → total_over n (λ node. length (committee_duties node c)) ≡ length c
unfolding committee_duties
total-committee_duties n [] h = total_over-zero n
total-committee_duties n (r ∷ c) h =
    let f = λ (i : ℕ). one_if (r.node == i) in
    let g = λ (i : ℕ). length (committee_duties i c) in
    omega (
      arith,
      total_over-ext n (λ i. length (committee_duties i (r ∷ c))) (λ i. f i + g i)
          (λ i. length-committee_duties i r c),
      total_over-add n f g,
      total_over-one n r.node h.0,
      total-committee_duties n c h.1,
    )

-- Where every seat's node is below the number `n` of nodes, the attestation duties of a slot, over
-- all the nodes, are as many as its seats: no seat is lost and none is owed twice.
pub total-slot_duties :
    (n : ℕ) (committees : List (List AttesterRef))
    → AllBelow n committees
    → total_over n (λ node. length (slot_duties node committees)) ≡ seats_in committees
unfolding slot_duties
total-slot_duties n [] h = total_over-zero n
total-slot_duties n (c ∷ cs) h =
    let f = λ (i : ℕ). length (committee_duties i c) in
    let g = λ (i : ℕ). length (slot_duties i cs) in
    omega (
      arith,
      total_over-ext n (λ i. length (slot_duties i (c ∷ cs))) (λ i. f i + g i)
          (λ i. length-append (committee_duties i c) (slot_duties i cs)),
      total_over-add n f g,
      total-committee_duties n c h.0,
      total-slot_duties n cs h.1,
    )
