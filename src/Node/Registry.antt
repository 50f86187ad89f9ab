-- ===== src/Node/Registry.antt =====
-- node/registry.go: the table of the message kinds and the lookup of a topic. A text is the list of its
-- codes, and an entry is without its decode function, which reads protobuf messages.
pub mod Numbers
pub mod Decimals
pub mod Entries
pub mod Resolution
pub mod Families
pub mod Table
pub mod Decoding
pub mod Wire
use Prim.Native.Char.{code}
use Prim.Native.String.{String}
use eth_slot_sim.Base.{
  ℕ, Bool, true, false, not, ◌&&◌, ◌||◌, List, [], ◌∷◌, ◌++◌, Option, none, some, ◌==◌,
  if◌then◌else◌, length, any, contains,
}
use eth_slot_sim.Node.Kinds.{Kind, kind_value}

abbrev pub codes : String → List ℕ
codes String.[] = []
codes (String.◌∷◌ c s) = code c ∷ codes s

-- `unset` is the empty name.
pub data VerifyClass : Type 0 where
  unset fixed column_class consensus ac fcvote fcagg ptc : VerifyClass

pub record Descriptor : Type 0 where
  pub kind : Kind
  pub topic : List ℕ
  pub prefix : List ℕ
  pub class : VerifyClass
  pub partial : Bool

pub record Lookups : Type 0 where
  pub exact : List Descriptor
  pub prefixes : List Descriptor
  pub kinds : List ℕ

-- The panics of `buildLookups`.
pub data TableError : Type 0 where
  duplicate_kind no_verify_class not_exactly_one duplicate_topic ambiguous_prefixes : TableError

pub data Building : Type 0 where
  accepted : Lookups → Building
  rejected : TableError → Building

unfoldable pub text_eq : List ℕ → List ℕ → Bool
text_eq [] [] = true
text_eq [] (b ∷ bs) = false
text_eq (a ∷ xs) [] = false
text_eq (a ∷ xs) (b ∷ bs) = a == b && text_eq xs bs

-- `strings.HasPrefix`
unfoldable pub has_prefix : List ℕ → List ℕ → Bool
has_prefix t [] = true
has_prefix [] (p ∷ ps) = false
has_prefix (a ∷ t) (p ∷ ps) = a == p && has_prefix t ps

abbrev pub is_empty : List ℕ → Bool
is_empty t = length t == 0

abbrev pub is_unset : VerifyClass → Bool
is_unset unset = true
is_unset fixed = false
is_unset column_class = false
is_unset consensus = false
is_unset ac = false
is_unset fcvote = false
is_unset fcagg = false
is_unset ptc = false

abbrev pub overlaps : Descriptor → Descriptor → Bool
overlaps d p = has_prefix d.prefix p.prefix || has_prefix p.prefix d.prefix

unfoldable pub add_exact : Descriptor → Lookups → Building
add_exact d lk =
    if any (λ e. text_eq e.topic d.topic) lk.exact
    then rejected duplicate_topic
    else accepted (record lk { exact = lk.exact ++ d ∷ [] })

unfoldable pub add_prefix : Descriptor → Lookups → Building
add_prefix d lk =
    if any (overlaps d) lk.prefixes
    then rejected ambiguous_prefixes
    else accepted (record lk { prefixes = lk.prefixes ++ d ∷ [] })

unfoldable pub add_entry : Descriptor → Lookups → Building
add_entry d lk =
    let known = record lk { kinds = kind_value d.kind ∷ lk.kinds } in
    if contains lk.kinds (kind_value d.kind)
    then rejected duplicate_kind
    else (if is_unset d.class
        then rejected no_verify_class
        else (if is_empty d.topic && is_empty d.prefix
              || (not (is_empty d.topic) && not (is_empty d.prefix))
            then rejected not_exactly_one
            else (if is_empty d.topic then add_prefix d known else add_exact d known)))

unfoldable pub after_entry : Building → (Lookups → Building) → Building
after_entry (accepted lk) f = f lk
after_entry (rejected e) f = rejected e

unfoldable pub build_from : Lookups → List Descriptor → Building
build_from lk [] = accepted lk
build_from lk (d ∷ ds) = after_entry (add_entry d lk) (λ next. build_from next ds)

unfoldable pub build_lookups : List Descriptor → Building
build_lookups regs = build_from (record { exact = []; prefixes = []; kinds = [] }) regs

unfoldable pub find_topic : List ℕ → List Descriptor → Option Descriptor
find_topic t [] = none
find_topic t (d ∷ ds) = let rest = find_topic t ds in if text_eq d.topic t then some d else rest

unfoldable pub find_prefix : List ℕ → List Descriptor → Option Descriptor
find_prefix t [] = none
find_prefix t (d ∷ ds) =
    let rest = find_prefix t ds in if has_prefix t d.prefix then some d else rest

unfoldable pub exact_or : Option Descriptor → Option Descriptor → Option Descriptor
exact_or none b = b
exact_or (some d) b = some d

unfoldable pub descriptor_for : Lookups → List ℕ → Option Descriptor
descriptor_for lk t = exact_or (find_topic t lk.exact) (find_prefix t lk.prefixes)

unfoldable pub class_of : Option Descriptor → VerifyClass
class_of none = fixed
class_of (some d) = d.class

unfoldable pub verify_class_for : Lookups → List ℕ → VerifyClass
verify_class_for lk t = class_of (descriptor_for lk t)
