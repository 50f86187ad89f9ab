-- ===== src/Metrics/Summary/Ranks.antt =====
-- metrics/tracer.go: a percentile is the delay of its nearest rank.
use eth_slot_sim.Base.{
  ℕ, zero, suc, ◌+◌, ◌≤◌, ◌<◌, ◌≡◌, refl, sym, ap, ◌∙◌, subst, Bool, true, false, not, List, [],
  ◌∷◌, some, some-injective, arith, length, any, ◌&&◌, ◌||◌, get_elem?, ℤ, pos, negsuc, bit,
  Bool-cases, inl, inr,
}
use eth_slot_sim.Metrics.Summary.{leb_int, insert_sorted, sort}

-- How many of the delays pass a test.
abbrev pub how_many : (ℤ → Bool) → List ℤ → ℕ
how_many p [] = 0
how_many p (d ∷ ds) = bit (p d) + how_many p ds

-- Whether the first is strictly below the second.
abbrev pub is_under : ℤ → ℤ → Bool
is_under a b = not (leb_int b a)

leb_int-total : (a b : ℤ) → leb_int a b ≡ false → leb_int b a ≡ true
leb_int-total (pos a) (pos b) h = ground arith
leb_int-total (pos a) (negsuc b) h = refl
leb_int-total (negsuc a) (pos b) h = cc
leb_int-total (negsuc a) (negsuc b) h = ground arith

leb_int_trans : (a b c : ℤ) → leb_int a b ≡ true → leb_int b c ≡ true → leb_int a c ≡ true
leb_int_trans (pos a) (pos b) (pos c) h k = ground arith
leb_int_trans (pos a) (pos b) (negsuc c) h k = cc
leb_int_trans (pos a) (negsuc b) c h k = cc
leb_int_trans (negsuc a) (pos b) (pos c) h k = refl
leb_int_trans (negsuc a) (pos b) (negsuc c) h k = cc
leb_int_trans (negsuc a) (negsuc b) (pos c) h k = refl
leb_int_trans (negsuc a) (negsuc b) (negsuc c) h k = ground arith

leb_int_refl : (a : ℤ) → leb_int a a ≡ true
leb_int_refl (pos a) = ground arith
leb_int_refl (negsuc a) = ground arith

how_many-insert_sorted :
    (p : ℤ → Bool) (d : ℤ) (xs : List ℤ)
    → how_many p (insert_sorted d xs) ≡ bit (p d) + how_many p xs
unfolding insert_sorted
how_many-insert_sorted p d [] = refl
how_many-insert_sorted p d (x ∷ xs) = elim (Bool-cases (leb_int d x)) [
  | inl e ↦ rw e refl
  | inr e ↦ rw e (omega (arith, how_many-insert_sorted p d xs))
]

pub how_many-sort : (p : ℤ → Bool) (ds : List ℤ) → how_many p (sort ds) ≡ how_many p ds
unfolding sort
how_many-sort p [] = refl
how_many-sort p (d ∷ ds) = omega (arith, how_many-insert_sorted p d (sort ds), how_many-sort p ds)

-- Each element is at most those after it.
unfoldable pub is_sorted : List ℤ → Bool
is_sorted [] = true
is_sorted (d ∷ ds) = not (any (λ x. not (leb_int d x)) ds) && is_sorted ds

any-insert_sorted :
    (p : ℤ → Bool) (d : ℤ) (xs : List ℤ) → any p (insert_sorted d xs) ≡ (p d || any p xs)
unfolding insert_sorted
any-insert_sorted p d [] = refl
any-insert_sorted p d (x ∷ xs) = elim (Bool-cases (leb_int d x)) [
  | inl e ↦ rw e refl
  | inr e ↦ rw e (ground (arith, any-insert_sorted p d xs))
]

lower_bound :
    (d x : ℤ) (ds : List ℤ)
    → leb_int d x ≡ true
    → any (λ y. not (leb_int x y)) ds ≡ false
    → any (λ y. not (leb_int d y)) ds ≡ false
lower_bound d x [] h e = refl
lower_bound d x (y ∷ ds) h e = ground (arith, h, e, leb_int_trans d x y h, lower_bound d x ds h)

insert_sorted-is_sorted :
    (d : ℤ) (xs : List ℤ) → is_sorted xs ≡ true → is_sorted (insert_sorted d xs) ≡ true
unfolding insert_sorted is_sorted
insert_sorted-is_sorted d [] h = refl
insert_sorted-is_sorted d (x ∷ xs) h = elim (Bool-cases (leb_int d x)) [
  | inl e ↦ rw e (ground (arith, h, e, lower_bound d x xs e))
  | inr e ↦ rw e (
      ground (
        arith,
        h,
        leb_int-total d x e,
        any-insert_sorted (λ y. not (leb_int x y)) d xs,
        insert_sorted-is_sorted d xs,
      ))
]

pub sort-is_sorted : (ds : List ℤ) → is_sorted (sort ds) ≡ true
unfolding sort is_sorted
sort-is_sorted [] = refl
sort-is_sorted (d ∷ ds) = insert_sorted-is_sorted d (sort ds) (sort-is_sorted ds)

length-insert_sorted : (d : ℤ) (xs : List ℤ) → length (insert_sorted d xs) ≡ suc (length xs)
unfolding insert_sorted
length-insert_sorted d [] = refl
length-insert_sorted d (x ∷ xs) = elim (Bool-cases (leb_int d x)) [
  | inl e ↦ rw e refl
  | inr e ↦ rw e (ap suc (length-insert_sorted d xs))
]

pub length-sort : (ds : List ℤ) → length (sort ds) ≡ length ds
unfolding sort
length-sort [] = refl
length-sort (d ∷ ds) = length-insert_sorted d (sort ds) ∙ ap suc (length-sort ds)

how_many-any : (p : ℤ → Bool) (ds : List ℤ) → any p ds ≡ false → how_many p ds ≡ 0
how_many-any p [] h = refl
how_many-any p (d ∷ ds) h = ground (arith, h, how_many-any p ds)

get_elem?-any :
    (p : ℤ → Bool) (ds : List ℤ) (k : ℕ) {x : ℤ}
    → any p ds ≡ false
    → get_elem? ds k ≡ some x
    → p x ≡ false
get_elem?-any p [] k h e = cc
get_elem?-any p (d ∷ ds) zero {x = x} h e =
    subst (λ y. p y ≡ false) (some-injective d x e) (ground (arith, h))
get_elem?-any p (d ∷ ds) (suc k) h e = get_elem?-any p ds k (ground (arith, h)) e

pub rank_counts :
    (ds : List ℤ) (k : ℕ) (v : ℤ)
    → is_sorted ds ≡ true
    → get_elem? ds k ≡ some v
    → (k < how_many (λ d. leb_int d v) ds) × (how_many (λ d. is_under d v) ds ≤ k)
unfolding is_sorted
rank_counts [] k v s e = cc
rank_counts (d ∷ ds) zero v s e =
    let none_under : how_many (λ x. is_under x d) ds ≡ 0 =
      how_many-any (λ y. not (leb_int d y)) ds (ground (arith, s)) in
    subst
      (λ w.
        (0 < how_many (λ x. leb_int x w) (d ∷ ds)) × (how_many (λ x. is_under x w) (d ∷ ds) ≤ 0))
      (some-injective d v e)
      (ground (arith, leb_int_refl d), ground (arith, leb_int_refl d, none_under))
rank_counts (d ∷ ds) (suc k) v s e =
    let (le, lt) = rank_counts ds k v (ground (arith, s)) e in
    let below : not (leb_int d v) ≡ false =
      get_elem?-any (λ y. not (leb_int d y)) ds k (ground (arith, s)) e in
    (ground (arith, le, below), ground (arith, lt))

pub sorted_le :
    (ds : List ℤ) (i j : ℕ) (u v : ℤ)
    → is_sorted ds ≡ true
    → i ≤ j
    → get_elem? ds i ≡ some u
    → get_elem? ds j ≡ some v
    → leb_int u v ≡ true
unfolding is_sorted
sorted_le [] i j u v s h eu ev = cc
sorted_le (d ∷ ds) zero zero u v s h eu ev =
    subst (λ x. leb_int u x ≡ true) (some-injective u v (sym eu ∙ ev)) (leb_int_refl u)
sorted_le (d ∷ ds) zero (suc j) u v s h eu ev =
    let below : not (leb_int d v) ≡ false =
      get_elem?-any (λ y. not (leb_int d y)) ds j (ground (arith, s)) ev in
    subst (λ x. leb_int x v ≡ true) (some-injective d u eu) (ground (arith, below))
sorted_le (d ∷ ds) (suc i) zero u v s h eu ev = elim h [ ]
sorted_le (d ∷ ds) (suc i) (suc j) u v s h eu ev =
    sorted_le ds i j u v (ground (arith, s)) (omega arith) eu ev
