-- ===== src/Node/Verifier/Batches.antt =====
-- node/verifier.go: what `batchEnd` takes.
use eth_slot_sim.Base.{
  ℕ, zero, suc, ◌+◌, ◌≤◌, ◌<◌, ◌≡◌, refl, subst, inl, inr, false, ◌&&◌, List, [], ◌∷◌, arith, ltb,
  length, take, Bool-cases,
}
use eth_slot_sim.Node.Verifier.{Item, batch_end_from, batch_end, attestations_in}

-- The result counts on from `n`, by `m` items of the rest: the first is taken if `n` is 0, more only
-- while the total stays within the cap, and the next one would pass it.
record Takes (most n atts : ℕ) (qs : List Item) (m : ℕ) : Type 0 where
  counted : batch_end_from most n atts qs ≡ n + m
  within : m ≤ length qs
  capped : 1 < n + m → 0 < m → atts + attestations_in (take m qs) ≤ most
  started : n ≡ 0 → 0 < length qs → 0 < m
  greedy : m < length qs → most < atts + attestations_in (take (suc m) qs)

capped_step :
    (most n atts m : ℕ) (q : Item) (qs : List Item)
    → (ltb 0 n && ltb most (atts + q.attestations)) ≡ false
    → Takes most (suc n) (atts + q.attestations) qs m
    → 1 < n + suc m
    → atts + (q.attestations + attestations_in (take m qs)) ≤ most
capped_step most n atts zero q qs room t h = ground arith
capped_step most n atts (suc m) q qs room t h = omega (arith, t.capped (omega arith) (omega arith))

batch_end_from-Takes : (most n atts : ℕ) (qs : List Item) → (m : ℕ) × Takes most n atts qs m
unfolding batch_end_from
batch_end_from-Takes most n atts [] = (0, ground arith)
batch_end_from-Takes most n atts (q ∷ qs) =
    elim (Bool-cases (ltb 0 n && ltb most (atts + q.attestations))) [
      | inl full ↦ (0, ground arith)
      | inr room ↦
          let (m, t) = batch_end_from-Takes most (suc n) (atts + q.attestations) qs in
          (
            suc m,
            record {
              counted = ground (arith, t.counted);
              within = omega (arith, t.within);
              capped = λ h _. capped_step most n atts m q qs room t h;
              started = λ _ _. omega arith;
              greedy = λ h. omega (arith, t.greedy (omega arith));
            },
          )
    ]

-- `n` is the length of the next batch of a queue under a cap.
abbrev pub IsBatch : List Item → ℕ → ℕ → Type 0
IsBatch queue most n =
    (n ≤ length queue)
    × (0 < length queue → 0 < n)
    × (0 < most → 1 < n → attestations_in (take n queue) ≤ most)
    × (0 < most → n < length queue → most < attestations_in (take (suc n) queue))
    × (most ≡ 0 → n ≡ length queue)

-- With a cap that is not 0, a batch of a queue that is not empty takes at least one item and at most
-- the queue; a batch of more than one item carries no more attestations than the cap; and a
-- batch that leaves items would pass the cap with the next one. Without a cap it takes all.
pub batch_end-IsBatch : (queue : List Item) (most : ℕ) → IsBatch queue most (batch_end queue most)
unfolding batch_end
batch_end-IsBatch queue zero = (omega arith, λ h. h, λ h. elim h [ ], λ h. elim h [ ], λ e. refl)
batch_end-IsBatch queue (suc most) =
    let (m, t) = batch_end_from-Takes (suc most) 0 0 queue in
    let e : m ≡ batch_end queue (suc most) = ground (arith, t.counted) in
    subst (IsBatch queue (suc most)) e (
      t.within,
      λ h. t.started refl h,
      λ h k. omega (arith, t.capped (omega arith) (omega arith)),
      λ h k. omega (arith, t.greedy k),
      λ z. absurd (omega arith),
    )
