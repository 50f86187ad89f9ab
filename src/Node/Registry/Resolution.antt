-- ===== src/Node/Registry/Resolution.antt =====
-- node/registry.go: in a table that is accepted, each entry is found by its topics.
use eth_slot_sim.Base.{
  ℕ, zero, suc, ◌≡◌, refl, subst, true, false, List, [], ◌∷◌, none, some, some-injective, get_elem?,
}
use eth_slot_sim.Node.Registry.Entries.{Resolves, IsAdded, Adds, add_entry-Adds}
use eth_slot_sim.Node.Registry.{
  Descriptor, Lookups, Building, accepted, rejected, has_prefix, is_empty, add_entry, after_entry,
  build_from, build_lookups, find_topic, exact_or, descriptor_for,
}

-- What the lookups of an accepted table find.
abbrev Finds : Lookups → List Descriptor → Building → Type 0
Finds lk ds (accepted lk') =
    ((e : Descriptor) → Resolves lk e → Resolves lk' e)
    × ((k : ℕ) (d : Descriptor) → get_elem? ds k ≡ some d → Resolves lk' d)
Finds lk ds (rejected e) = e ≡ e

first_or_later :
    (d : Descriptor) (ds : List Descriptor) (next lk' : Lookups)
    → Resolves next d
    → ((e : Descriptor) → Resolves next e → Resolves lk' e)
    → ((k : ℕ) (e : Descriptor) → get_elem? ds k ≡ some e → Resolves lk' e)
    → (k : ℕ) (e : Descriptor) → get_elem? (d ∷ ds) k ≡ some e
    → Resolves lk' e
first_or_later d ds next lk' now old new zero e at =
    old e (subst (Resolves next) (some-injective d e at) now)
first_or_later d ds next lk' now old new (suc k) e at = new k e at

through :
    (d : Descriptor) (ds : List Descriptor) (lk next : Lookups) (b : Building)
    → IsAdded d lk next
    → Finds next ds b
    → Finds lk (d ∷ ds) b
through d ds lk next (rejected e) h f = refl
through d ds lk next (accepted lk') h (old, new) =
    (λ e s. old e (h.old e s), first_or_later d ds next lk' h.new old new)

after_entry-Finds :
    (d : Descriptor) (ds : List Descriptor) (lk : Lookups) (b : Building)
    → Adds d lk b
    → ((next : Lookups) → Finds next ds (build_from next ds))
    → Finds lk (d ∷ ds) (after_entry b (λ next. build_from next ds))
unfolding after_entry
after_entry-Finds d ds lk (rejected e) h rest = refl
after_entry-Finds d ds lk (accepted next) h rest =
    through d ds lk next (build_from next ds) h (rest next)

build_from-Finds : (lk : Lookups) (ds : List Descriptor) → Finds lk ds (build_from lk ds)
unfolding build_from
build_from-Finds lk [] = (λ e s. s, λ k d at. cc)
build_from-Finds lk (d ∷ ds) =
    after_entry-Finds d ds lk (add_entry d lk) (add_entry-Adds d lk)
      (λ next. build_from-Finds next ds)

-- In a table that is accepted, an entry with an exact topic is what the lookup of that topic finds; and
-- an entry with a prefix is what the lookup finds of each topic that the prefix starts and that
-- no entry has as its exact topic, whatever the order of the entries.
pub build_lookups-descriptor_for :
    (regs : List Descriptor) (lk : Lookups)
    → build_lookups regs ≡ accepted lk
    → (k : ℕ) (d : Descriptor) → get_elem? regs k ≡ some d
    → (is_empty d.topic ≡ false → descriptor_for lk d.topic ≡ some d)
      × ((t : List ℕ)
          → is_empty d.prefix ≡ false
          → has_prefix t d.prefix ≡ true
          → find_topic t lk.exact ≡ none
          → descriptor_for lk t ≡ some d)
unfolding build_lookups descriptor_for exact_or
build_lookups-descriptor_for regs lk e k d at =
    let start : Lookups = record { exact = []; prefixes = []; kinds = [] } in
    let (_, found) = subst (Finds start regs) e (build_from-Finds start regs) in
    let s = found k d at in
    (λ h. rw (s.by_topic h) refl, λ t h starts none_exact. rw none_exact (s.by_prefix t h starts))
