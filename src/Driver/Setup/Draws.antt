-- ===== src/Driver/Setup/Draws.antt =====
-- schedule/schedule.go: the view of a node with a duty says that the plan draws such duties.
use eth_slot_sim.Base.{
  ℕ, zero, suc, ◌*◌, ◌≡◌, refl, sym, ap, ◌∙◌, subst, Bool, true, List, [], ◌∷◌, map, some,
  some-injective, arith, ltb, ◌==◌, if◌then◌else◌, length, get_elem?, contains, any, indices,
  Bool-cases, Option-cases, inl, inr,
}
use eth_slot_sim.Schedule.{Assignment, AttesterRef, SlotPlan, segregated}
use eth_slot_sim.Schedule.Duties.{finality_aggregations, hosts_one}
use eth_slot_sim.Schedule.Views.{all_aggregated, aggregated, draws}

module _ {ℓ} {A : Type ℓ} (p : A → Bool) where
  pub get_elem?-any :
      (xs : List A) (k : ℕ) {x : A} → get_elem? xs k ≡ some x → p x ≡ true → any p xs ≡ true
  get_elem?-any [] k e h = cc
  get_elem?-any (y ∷ xs) zero {x = x} e h = rw (ap p (some-injective y x e) ∙ h) refl
  get_elem?-any (y ∷ xs) (suc k) e h = ground (arith, get_elem?-any xs k e h)

  indices-any :
      (i : ℕ) (xs : List A) {y : ℕ} {ys : List ℕ} → indices p i xs ≡ y ∷ ys → any p xs ≡ true
  indices-any i [] e = cc
  indices-any i (x ∷ xs) e = elim (Bool-cases (p x)) [
    | inl h ↦ ground (arith, h)
    | inr h ↦ ground (arith, h, indices-any (suc i) xs (rw h at e))
  ]

  any_weaken :
      (q : A → Bool) (xs : List A)
      → ((x : A) → p x ≡ true → q x ≡ true)
      → any p xs ≡ true
      → any q xs ≡ true
  any_weaken q [] h e = e
  any_weaken q (x ∷ xs) h e = ground (arith, e, h x, any_weaken q xs h)

pub get_elem?-map :
    {A B : Type 0} (f : A → B) (xs : List A) (k : ℕ) {b : B}
    → get_elem? (map f xs) k ≡ some b
    → (x : A) × (get_elem? xs k ≡ some x) × (f x ≡ b)
get_elem?-map f [] k e = cc
get_elem?-map f (x ∷ xs) zero {b = b} e = (x, refl, some-injective (f x) b e)
get_elem?-map f (x ∷ xs) (suc k) e = get_elem?-map f xs k e

contains-length : (n : ℕ) (xs : List ℕ) → contains xs n ≡ true → ltb 0 (length xs) ≡ true
contains-length n [] e = cc
contains-length n (x ∷ xs) e = ground arith

hosts_one-length :
    (n : ℕ) (xs : List AttesterRef) → hosts_one n xs ≡ true → ltb 0 (length xs) ≡ true
hosts_one-length n [] e = cc
hosts_one-length n (x ∷ xs) e = ground arith

abbrev pub is_drawn {ℓ} : {A : Type ℓ} → List A → Bool
is_drawn xs = ltb 0 (length xs)

aggregated-draws :
    (node : ℕ) (subnet_of : List ℕ) (ci : ℕ) (aggs : List (List ℕ)) (x : ℕ) (xs : List ℕ)
    → aggregated node subnet_of ci aggs ≡ some (x ∷ xs)
    → any is_drawn aggs ≡ true
unfolding aggregated
aggregated-draws node subnet_of ci [] x xs e = cc
aggregated-draws node subnet_of ci (aggs ∷ rest) x xs e =
    elim (Option-cases (aggregated node subnet_of (suc ci) rest)) [
      | inl stuck ↦ ground arith
      | inr (more, em) ↦ elim (Bool-cases (contains aggs node)) [
        | inl h ↦ ground (arith, contains-length node aggs h)
        | inr h ↦
            let same : more ≡ x ∷ xs = some-injective more (x ∷ xs) (rw (em, h) at e) in
            ground (
              arith,
              aggregated-draws node subnet_of (suc ci) rest x xs (em ∙ ap (λ m. some m) same),
            )
      ]
    ]

row-draws :
    (s : ℕ) (here : List ℕ) (more : List (List ℕ)) (row : List ℕ) (sp : SlotPlan)
    (sps : List SlotPlan)
    → get_elem? (here ∷ more) s ≡ some row
    → (here ≡ row → any is_drawn sp.aggregators ≡ true)
    → ((j : ℕ) → get_elem? more j ≡ some row → draws (λ sp. sp.aggregators) sps ≡ true)
    → draws (λ sp. sp.aggregators) (sp ∷ sps) ≡ true
row-draws zero here more row sp sps e now later = ground (arith, now (some-injective here row e))
row-draws (suc s) here more row sp sps e now later = ground (arith, later s e)

pub all_aggregated-draws :
    (node : ℕ) (sps : List SlotPlan) (rows : List (List ℕ)) (s x : ℕ) (xs : List ℕ)
    → all_aggregated node sps ≡ some rows
    → get_elem? rows s ≡ some (x ∷ xs)
    → draws (λ sp. sp.aggregators) sps ≡ true
unfolding all_aggregated
all_aggregated-draws node [] rows s x xs e g =
    let none_at : get_elem? [] s ≡ some (x ∷ xs) =
      subst (λ rs. get_elem? rs s ≡ some (x ∷ xs)) (sym (some-injective [] rows e)) g in
    cc
all_aggregated-draws node (sp ∷ sps) rows s x xs e g =
    elim (Option-cases (aggregated node sp.subnet_of 0 sp.aggregators)) [
      | inl stuck ↦ ground arith
      | inr (here, eh) ↦ elim (Option-cases (all_aggregated node sps)) [
        | inl stuck ↦ ground arith
        | inr (more, em) ↦
            let same : here ∷ more ≡ rows = ground arith in
            row-draws s here more (x ∷ xs) sp sps
              (subst (λ rs. get_elem? rs s ≡ some (x ∷ xs)) (sym same) g)
              (λ h.
                aggregated-draws node sp.subnet_of 0 sp.aggregators x xs (eh ∙ ap (λ m. some m) h))
              (λ j h. all_aggregated-draws node sps more j x xs em h)
      ]
    ]

pub sync-draws :
    (node : ℕ) (sps : List SlotPlan) (s x : ℕ) (xs : List ℕ)
    → get_elem? (map (λ sp. indices (λ aggs. contains aggs node) 0 sp.sync_aggregators) sps) s
      ≡ some (x ∷ xs)
    → draws (λ sp. sp.sync_aggregators) sps ≡ true
sync-draws node sps s x xs e =
    let (sp, at, row) = get_elem?-map _ sps s e in
    get_elem?-any (λ sp. any is_drawn sp.sync_aggregators) sps s at
      (any_weaken (λ aggs. contains aggs node) is_drawn sp.sync_aggregators (contains-length node)
        (indices-any (λ aggs. contains aggs node) 0 sp.sync_aggregators row))

nil_not_cons : {P : Type 0} {x : ℕ} {xs : List ℕ} → [] ≡ x ∷ xs → P
nil_not_cons e = absurd (cc)

pub finality_aggregations-draws :
    (a : Assignment) (node n x : ℕ) (xs : List ℕ)
    → finality_aggregations a node n ≡ x ∷ xs
    → draws (λ sp. sp.finality_aggregators) a.slots ≡ true
unfolding finality_aggregations
finality_aggregations-draws a node n x xs e =
    let k = a.params.ac_slots_per_finality_slot in
    let slot = if segregated a then n else n * k in
    elim (Bool-cases (k == 0)) [
      | inl h ↦ nil_not_cons (rw h at e)
      | inr h ↦ elim (Option-cases (get_elem? a.slots slot)) [
        | inl no_row ↦ nil_not_cons (rw (h, no_row) at e)
        | inr (sp, at) ↦
            get_elem?-any (λ sp. any is_drawn sp.finality_aggregators) a.slots slot at
              (any_weaken (hosts_one node) is_drawn sp.finality_aggregators (hosts_one-length node)
                (indices-any (hosts_one node) 0 sp.finality_aggregators (rw (h, at) at e)))
      ]
    ]
