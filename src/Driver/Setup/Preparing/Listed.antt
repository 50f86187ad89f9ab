-- ===== src/Driver/Setup/Preparing/Listed.antt =====
-- driver/runner.go: the topics of a list that `Prepare` puts together.
use eth_slot_sim.Base.{
  ℕ, ◌≡◌, ◌==◌, refl, sym, ap, subst, ◌∙◌, ◌⊎◌, inl, inr, Bool, true, false, ◌||◌, List, [], ◌∷◌,
  ◌++◌, map, contains, Bool-cases, ==_iff, arith,
}
use eth_slot_sim.Node.Registry.{text_eq}
use eth_slot_sim.Node.Registry.Entries.{text_eq_refl}
use eth_slot_sim.Node.Topics.{has_text}
use eth_slot_sim.Node.Topics.Maps.{text_eq_sound}
use eth_slot_sim.Driver.Setup.Preparing.{when_topics}

has_text-append :
    (u : List ℕ) (xs ys : List (List ℕ)) → has_text u (xs ++ ys) ≡ has_text u xs || has_text u ys
has_text-append u [] ys = refl
has_text-append u (x ∷ xs) ys = ground (arith, has_text-append u xs ys)

-- A topic of a list joined from two, of one that is kept under a test, of one topic, of a map.
pub in_either :
    (u : List ℕ) (xs ys : List (List ℕ))
    → has_text u (xs ++ ys) ≡ true
    → (has_text u xs ≡ true) ⊎ (has_text u ys ≡ true)
in_either u xs ys h = elim (Bool-cases (has_text u xs)) [
  | inl here ↦ inl here
  | inr there ↦ inr (ground (arith, has_text-append u xs ys, there, h))
]

pub in_left :
    (u : List ℕ) (xs ys : List (List ℕ)) → has_text u xs ≡ true → has_text u (xs ++ ys) ≡ true
in_left u xs ys h = ground (arith, has_text-append u xs ys, h)

pub in_right :
    (u : List ℕ) (xs ys : List (List ℕ)) → has_text u ys ≡ true → has_text u (xs ++ ys) ≡ true
in_right u xs ys h = ground (arith, has_text-append u xs ys, h)

pub in_when :
    (u : List ℕ) (b : Bool) (ts : List (List ℕ))
    → has_text u (when_topics b ts) ≡ true
    → (b ≡ true) × (has_text u ts ≡ true)
in_when u true ts h = (refl, h)
in_when u false ts h = cc

pub to_when :
    (u : List ℕ) (b : Bool) (ts : List (List ℕ))
    → b ≡ true
    → has_text u ts ≡ true
    → has_text u (when_topics b ts) ≡ true
to_when u true ts on h = h
to_when u false ts on h = cc

pub in_cons :
    (u t : List ℕ) (ts : List (List ℕ))
    → has_text u (t ∷ ts) ≡ true
    → (u ≡ t) ⊎ (has_text u ts ≡ true)
in_cons u t ts h = elim (Bool-cases (text_eq t u)) [
  | inl same ↦ inl (sym (text_eq_sound t u same))
  | inr other ↦ inr (subst (λ b. b || has_text u ts ≡ true) other h)
]

pub in_one : (u t : List ℕ) → has_text u (t ∷ []) ≡ true → u ≡ t
in_one u t h = elim (in_cons u t [] h) [ inl e ↦ e | inr later ↦ cc ]

pub to_head : (u t : List ℕ) (ts : List (List ℕ)) → u ≡ t → has_text u (t ∷ ts) ≡ true
to_head u t ts e = subst (λ v. has_text v (t ∷ ts) ≡ true) (sym e) (ground (arith, text_eq_refl t))

pub to_tail :
    (u t : List ℕ) (ts : List (List ℕ)) → has_text u ts ≡ true → has_text u (t ∷ ts) ≡ true
to_tail u t ts h = ground (arith, h)

pub in_map :
    (f : ℕ → List ℕ) (u : List ℕ) (xs : List ℕ)
    → has_text u (map f xs) ≡ true
    → (x : ℕ) × (contains xs x ≡ true) × (u ≡ f x)
in_map f u [] h = cc
in_map f u (x ∷ xs) h = elim (in_cons u (f x) (map f xs) h) [
  | inl e ↦ (x, ground (arith, (==_iff x x).1 refl), e)
  | inr later ↦ let (y, m, e) = in_map f u xs later in (y, ground (arith, m), e)
]

pub to_map :
    (f : ℕ → List ℕ) (u : List ℕ) (x : ℕ) (xs : List ℕ)
    → contains xs x ≡ true
    → u ≡ f x
    → has_text u (map f xs) ≡ true
to_map f u x [] m e = cc
to_map f u x (y ∷ xs) m e = elim (Bool-cases (y == x)) [
  | inl same ↦ to_head u (f y) (map f xs) (e ∙ ap f (sym ((==_iff y x).0 same)))
  | inr other ↦
      to_tail u (f y) (map f xs)
        (to_map f u x xs (subst (λ b. b || contains xs x ≡ true) other m) e)
]
