-- ===== src/Node/Registry/Entries.antt =====
-- node/registry.go: an entry that is added is found, and those before it still are.
use eth_slot_sim.Base.{
  ℕ, ◌≡◌, refl, ◌∙◌, true, false, ◌||◌, List, [], ◌∷◌, ◌++◌, Option, none, some, arith, any,
  contains, Bool-cases, inl, inr,
}
use eth_slot_sim.Node.Kinds.{kind_value}
use eth_slot_sim.Node.Registry.{
  Descriptor, Lookups, Building, accepted, rejected, text_eq, has_prefix, is_empty, is_unset,
  overlaps, add_exact, add_prefix, add_entry, find_topic, find_prefix, exact_or,
}

pub text_eq_refl : (t : List ℕ) → text_eq t t ≡ true
unfolding text_eq
text_eq_refl [] = refl
text_eq_refl (a ∷ t) = ground (arith, text_eq_refl t)

prefixes_overlap :
    (t p q : List ℕ)
    → has_prefix t p ≡ true
    → has_prefix t q ≡ true
    → has_prefix p q || has_prefix q p ≡ true
unfolding has_prefix
prefixes_overlap t [] [] h k = refl
prefixes_overlap t [] (b ∷ q) h k = refl
prefixes_overlap t (a ∷ p) [] h k = refl
prefixes_overlap [] (a ∷ p) (b ∷ q) h k = cc
prefixes_overlap (c ∷ t) (a ∷ p) (b ∷ q) h k = ground (arith, h, k, prefixes_overlap t p q)

-- The entry is found by its exact topic, and by each topic that its prefix starts.
pub record Resolves (lk : Lookups) (d : Descriptor) : Type 0 where
  pub by_topic : is_empty d.topic ≡ false → find_topic d.topic lk.exact ≡ some d
  pub by_prefix :
      (t : List ℕ)
      → is_empty d.prefix ≡ false
      → has_prefix t d.prefix ≡ true
      → find_prefix t lk.prefixes ≡ some d

find_topic-append :
    (t : List ℕ) (xs ys : List Descriptor)
    → find_topic t (xs ++ ys) ≡ exact_or (find_topic t xs) (find_topic t ys)
unfolding find_topic exact_or
find_topic-append t [] ys = refl
find_topic-append t (d ∷ ds) ys = elim (Bool-cases (text_eq d.topic t)) [
  | inl e ↦ rw e refl
  | inr e ↦ rw e (find_topic-append t ds ys)
]

find_prefix-append :
    (t : List ℕ) (xs ys : List Descriptor)
    → find_prefix t (xs ++ ys) ≡ exact_or (find_prefix t xs) (find_prefix t ys)
unfolding find_prefix exact_or
find_prefix-append t [] ys = refl
find_prefix-append t (d ∷ ds) ys = elim (Bool-cases (has_prefix t d.prefix)) [
  | inl e ↦ rw e refl
  | inr e ↦ rw e (find_prefix-append t ds ys)
]

find_topic-none :
    (t : List ℕ) (ds : List Descriptor)
    → any (λ e. text_eq e.topic t) ds ≡ false
    → find_topic t ds ≡ none
unfolding find_topic
find_topic-none t [] h = refl
find_topic-none t (d ∷ ds) h = ground (arith, h, find_topic-none t ds)

find_prefix-none :
    (t : List ℕ) (d : Descriptor) (ds : List Descriptor)
    → has_prefix t d.prefix ≡ true
    → any (overlaps d) ds ≡ false
    → find_prefix t ds ≡ none
unfolding find_prefix
find_prefix-none t d [] k h = refl
find_prefix-none t d (p ∷ ds) k h =
    ground (arith, h, k, prefixes_overlap t d.prefix p.prefix k, find_prefix-none t d ds k)

-- What an entry that is accepted does to the lookups.
pub record IsAdded (d : Descriptor) (lk lk' : Lookups) : Type 0 where
  pub new : Resolves lk' d
  pub old : (e : Descriptor) → Resolves lk e → Resolves lk' e

abbrev pub Adds : Descriptor → Lookups → Building → Type 0
Adds d lk (accepted lk') = IsAdded d lk lk'
Adds d lk (rejected e) = e ≡ e

exact_or-some : (a b : Option Descriptor) {d : Descriptor} → a ≡ some d → exact_or a b ≡ some d
unfolding exact_or
exact_or-some none b e = cc
exact_or-some (some x) b e = e

topic_last : (d : Descriptor) → exact_or none (find_topic d.topic (d ∷ [])) ≡ some d
unfolding exact_or find_topic
topic_last d = rw (text_eq_refl d.topic) refl

prefix_last :
    (t : List ℕ) (d : Descriptor)
    → has_prefix t d.prefix ≡ true
    → exact_or none (find_prefix t (d ∷ [])) ≡ some d
unfolding exact_or find_prefix
prefix_last t d k = rw k refl

add_exact-Adds :
    (d : Descriptor) (lk : Lookups) → is_empty d.prefix ≡ true → Adds d lk (add_exact d lk)
unfolding add_exact
add_exact-Adds d lk no_prefix = elim (Bool-cases (any (λ e. text_eq e.topic d.topic) lk.exact)) [
  | inl dup ↦ rw dup refl
  | inr fresh ↦ rw fresh (record {
    new = record {
      by_topic = λ h.
          find_topic-append d.topic lk.exact (d ∷ [])
          ∙ rw (find_topic-none d.topic lk.exact fresh) (topic_last d);
      by_prefix = λ t h k. cc;
    };
    old = λ e s. record {
      by_topic =
          λ h. find_topic-append e.topic lk.exact (d ∷ []) ∙ exact_or-some _ _ (s.by_topic h);
      by_prefix = λ t h k. s.by_prefix t h k;
    };
  })
]

add_prefix-Adds :
    (d : Descriptor) (lk : Lookups) → is_empty d.topic ≡ true → Adds d lk (add_prefix d lk)
unfolding add_prefix
add_prefix-Adds d lk no_topic = elim (Bool-cases (any (overlaps d) lk.prefixes)) [
  | inl clash ↦ rw clash refl
  | inr apart ↦ rw apart (record {
    new = record {
      by_topic = λ h. cc;
      by_prefix = λ t h k.
          find_prefix-append t lk.prefixes (d ∷ [])
          ∙ rw (find_prefix-none t d lk.prefixes k apart) (prefix_last t d k);
    };
    old = λ e s. record {
      by_topic = λ h. s.by_topic h;
      by_prefix = λ t h k.
          find_prefix-append t lk.prefixes (d ∷ []) ∙ exact_or-some _ _ (s.by_prefix t h k);
    };
  })
]

-- The kinds that are seen do not matter to a lookup.
with_kinds :
    (d : Descriptor) (lk : Lookups) (ks : List ℕ) (b : Building)
    → Adds d (record lk { kinds = ks }) b
    → Adds d lk b
with_kinds d lk ks (accepted lk') h = record {
  new = h.new;
  old = λ e s. h.old e (record { by_topic = s.by_topic; by_prefix = s.by_prefix });
}
with_kinds d lk ks (rejected e) h = refl

pub add_entry-Adds : (d : Descriptor) (lk : Lookups) → Adds d lk (add_entry d lk)
unfolding add_entry
add_entry-Adds d lk =
    let ks = kind_value d.kind ∷ lk.kinds in
    let known = record lk { kinds = ks } in
    elim (Bool-cases (contains lk.kinds (kind_value d.kind))) [
      | inl e ↦ rw e refl
      | inr e ↦ elim (Bool-cases (is_unset d.class)) [
        | inl f ↦ rw (e, f) refl
        | inr f ↦ elim (Bool-cases (is_empty d.topic)) [
          | inl no_topic ↦ elim (Bool-cases (is_empty d.prefix)) [
            | inl p ↦ rw (e, f, no_topic, p) refl
            | inr p ↦
                rw (e, f, no_topic, p)
                  (with_kinds d lk ks (add_prefix d known) (add_prefix-Adds d known no_topic))
          ]
          | inr topic ↦ elim (Bool-cases (is_empty d.prefix)) [
            | inr p ↦ rw (e, f, topic, p) refl
            | inl p ↦
                rw (e, f, topic, p)
                  (with_kinds d lk ks (add_exact d known) (add_exact-Adds d known p))
          ]
        ]
      ]
    ]
