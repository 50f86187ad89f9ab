-- ===== src/Netsim/Topology/Counts.antt =====
-- netsim/netsim.go: the marks of the placed numbers, counted.
use eth_slot_sim.Base.{
  ℕ, zero, suc, ◌+◌, ◌≤◌, ◌<◌, ◌≡◌, refl, Bool, true, false, ◌||◌, List, [], ◌∷◌, arith, ◌==◌,
  length, set, replicate, bit,
}
use eth_slot_sim.Netsim.Topology.{is_placed}

unfoldable pub count_placed : List Bool → ℕ
count_placed [] = 0
count_placed (b ∷ bs) = bit b + count_placed bs

pub is_placed-set :
    (bs : List Bool) (i j : ℕ)
    → i < length bs
    → is_placed (set bs i true) j ≡ (i == j || is_placed bs j)
unfolding is_placed
is_placed-set [] i j h = elim h [ ]
is_placed-set (b ∷ bs) zero zero h = refl
is_placed-set (b ∷ bs) zero (suc j) h = ground arith
is_placed-set (b ∷ bs) (suc i) zero h = ground arith
is_placed-set (b ∷ bs) (suc i) (suc j) h = ground (arith, is_placed-set bs i j)

pub count_placed-set :
    (bs : List Bool) (i : ℕ)
    → i < length bs
    → is_placed bs i ≡ false
    → count_placed (set bs i true) ≡ suc (count_placed bs)
unfolding is_placed count_placed
count_placed-set [] i h e = elim h [ ]
count_placed-set (b ∷ bs) zero h e = ground (arith, e)
count_placed-set (b ∷ bs) (suc i) h e = ground (arith, e, count_placed-set bs i)

count_placed-length : (bs : List Bool) → count_placed bs ≤ length bs
unfolding count_placed
count_placed-length [] = omega arith
count_placed-length (b ∷ bs) = ground (arith, count_placed-length bs)

pub count_placed-full :
    (bs : List Bool) (i : ℕ) → count_placed bs ≡ length bs → i < length bs → is_placed bs i ≡ true
unfolding is_placed count_placed
count_placed-full [] i e h = elim h [ ]
count_placed-full (b ∷ bs) zero e h = ground (arith, e, count_placed-length bs)
count_placed-full (b ∷ bs) (suc i) e h =
    ground (arith, e, h, count_placed-length bs, count_placed-full bs i)

pub count_placed-replicate : (n : ℕ) → count_placed (replicate n false) ≡ 0
unfolding count_placed
count_placed-replicate zero = refl
count_placed-replicate (suc n) = omega (arith, count_placed-replicate n)

pub is_placed-replicate : (n i : ℕ) → is_placed (replicate n false) i ≡ false
unfolding is_placed
is_placed-replicate zero i = refl
is_placed-replicate (suc n) zero = refl
is_placed-replicate (suc n) (suc i) = is_placed-replicate n i
