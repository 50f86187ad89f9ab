-- ===== src/Node/Partial/Groups/Floors.antt =====
-- node/partial.go: the floor of pruned groups, and the groups that are not below it.
use eth_slot_sim.Base.{
  ℕ, ◌≡◌, refl, ap, subst, Bool, true, false, not, ◌&&◌, ◌||◌, List, [], ◌∷◌, ◌++◌, some, arith,
  leb, ◌==◌, any, keep, lookup, lookup-store, inl, inr, ==_iff, Bool-cases, some-injective,
}
use eth_slot_sim.Node.Kinds.{Kind, kind_value, kind_eq}
use eth_slot_sim.Node.Partial.Groups.{
  Topic, PartialGroup, PartialManager, find_group, put_group, is_group, is_below_floor, is_up_to,
  seal_up_to, prune,
}

abbrev pub is_stale : List (ℕ × ℕ) → PartialGroup → Bool
is_stale floor g = is_below_floor floor g.kind g.key

-- No group is at or below the floor of its kind.
abbrev pub IsClean : PartialManager → Type 0
IsClean m = any (is_stale m.floor) m.groups ≡ false

module _ (test : PartialGroup → Bool) where
  pub any-put_group :
      (g : PartialGroup) (gs : List PartialGroup)
      → any test gs ≡ false
      → test g ≡ false
      → any test (put_group g gs) ≡ false
  any-put_group g [] h k = refl
  any-put_group g (x ∷ gs) h k = ground (arith, any-put_group g gs)

  pub any-append_one :
      (gs : List PartialGroup) (g : PartialGroup)
      → any test gs ≡ false
      → test g ≡ false
      → any test (gs ++ g ∷ []) ≡ false
  any-append_one [] g h k = ground arith
  any-append_one (x ∷ gs) g h k = ground (arith, any-append_one gs g)

  pub any-find_group :
      (topic : Topic) (key : ℕ) (gs : List PartialGroup) (g : PartialGroup)
      → any test gs ≡ false
      → find_group topic key gs ≡ some g
      → test g ≡ false
  any-find_group topic key [] g h e = cc
  any-find_group topic key (x ∷ gs) g h e = elim (Bool-cases (is_group topic key x)) [
    | inl this ↦
        let same : x ≡ g = some-injective x g (ground arith) in
        subst (λ y. test y ≡ false) same (ground arith)
    | inr other ↦ any-find_group topic key gs g (ground arith) (ground arith)
  ]

any-keep :
    (p p' q : PartialGroup → Bool) (gs : List PartialGroup)
    → ((g : PartialGroup) → q g ≡ true → p g ≡ false → p' g ≡ false)
    → any p gs ≡ false
    → any p' (keep q gs) ≡ false
any-keep p p' q [] step h = refl
any-keep p p' q (g ∷ gs) step h = ground (arith, any-keep p p' q gs step, step g)

pub any-seal_up_to :
    (floor : List (ℕ × ℕ)) (kind : Kind) (key : ℕ) (gs : List PartialGroup)
    → any (is_stale floor) (seal_up_to kind key gs) ≡ any (is_stale floor) gs
any-seal_up_to floor kind key [] = refl
any-seal_up_to floor kind key (g ∷ gs) = elim (Bool-cases (is_up_to kind key g)) [
  | inl sealing ↦ rw (sealing, any-seal_up_to floor kind key gs) refl
  | inr unsealed ↦ rw (unsealed, any-seal_up_to floor kind key gs) refl
]

same_lookup : (j k : ℕ) (floor : List (ℕ × ℕ)) → (j == k) ≡ true → lookup j floor ≡ lookup k floor
same_lookup j k floor h = ap (λ x. lookup x floor) {x = j} {y = k} ((==_iff j k).0 h)

pub prune-floor :
    (kind : Kind) (key : ℕ) (m : PartialManager) (k : Kind) (x : ℕ)
    → is_below_floor (prune kind key m).floor k x
      ≡ is_below_floor m.floor k x || (kind_eq k kind && leb x key)
unfolding prune
prune-floor kind key m k x =
    let stored = lookup-store (kind_value kind) (kind_value k) key m.floor in
    let same = same_lookup (kind_value kind) (kind_value k) m.floor in ground (arith, stored, same)

pub prune-IsClean :
    (kind : Kind) (key : ℕ) (m : PartialManager) → IsClean m → IsClean (prune kind key m)
unfolding prune
prune-IsClean kind key m h =
    any-keep (is_stale m.floor) (is_stale (prune kind key m).floor) (λ g. not (is_up_to kind key g))
      m.groups (λ g stays fresh. ground (arith, prune-floor kind key m g.kind g.key)) h
