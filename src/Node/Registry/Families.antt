-- ===== src/Node/Registry/Families.antt =====
-- node/registry.go: the kind and the subnet are read back from the topic of a subnet.
use eth_slot_sim.Base.{
  ℕ, ◌^◌, ◌<◌, ◌≡◌, refl, true, false, List, ◌++◌, none, some, if◌then◌else◌, get_elem?,
}
use eth_slot_sim.Node.Registry.{
  Descriptor, Lookups, accepted, is_empty, has_prefix, build_lookups, find_topic,
}
use eth_slot_sim.Node.Registry.Numbers.{decimal, suffix, subnet_topic, subnet_of, partial_kind_for}
use eth_slot_sim.Node.Registry.Decimals.{starts, trim_prefix_lem, cut_suffix_lem, atoi-decimal}
use eth_slot_sim.Node.Registry.Resolution.{build_lookups-descriptor_for}

subnet_of_lem :
    (d : Descriptor) (s : ℕ) → s < 2 ^ 63 → subnet_of (subnet_topic d.prefix s) d ≡ some (d.kind, s)
unfolding subnet_of subnet_topic
subnet_of_lem d s h =
    rw
      (
        trim_prefix_lem d.prefix (decimal s ++ suffix),
        cut_suffix_lem (decimal s) suffix,
        atoi-decimal s h,
      )
      refl

subnet_topic-starts : (p : List ℕ) (s : ℕ) → has_prefix (subnet_topic p s) p ≡ true
unfolding subnet_topic
subnet_topic-starts p s = starts p (decimal s ++ suffix)

-- In a table that is accepted, the topic of a subnet below 2 ^ 63 of an entry with a prefix, where
-- no entry has that topic as its exact one, resolves to the entry's kind and that subnet if the
-- entry is of a partial family, and to nothing otherwise.
pub partial_kind_for-subnet_topic :
    (regs : List Descriptor) (lk : Lookups)
    → build_lookups regs ≡ accepted lk
    → (k : ℕ) (d : Descriptor) → get_elem? regs k ≡ some d
    → is_empty d.prefix ≡ false
    → (s : ℕ) → s < 2 ^ 63
    → find_topic (subnet_topic d.prefix s) lk.exact ≡ none
    → partial_kind_for lk (subnet_topic d.prefix s) ≡ (if d.partial then some (d.kind, s) else none)
unfolding partial_kind_for
partial_kind_for-subnet_topic regs lk e k d at family s small other =
    let (_, by_prefix) = build_lookups-descriptor_for regs lk e k d at in
    rw
      (
        by_prefix (subnet_topic d.prefix s) family (subnet_topic-starts d.prefix s) other,
        subnet_of_lem d s small,
      )
      refl
