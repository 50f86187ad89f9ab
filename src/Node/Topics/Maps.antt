-- ===== src/Node/Topics/Maps.antt =====
-- node/node.go: the sets and the map of topics that a node keeps.
use eth_slot_sim.Base.{
  ℕ, ◌≡◌, refl, sym, ap, ◌∙◌, true, false, List, [], ◌∷◌, none, arith, if◌then◌else◌, Bool-cases,
  inl, inr,
}
use eth_slot_sim.Node.Registry.{text_eq}
use eth_slot_sim.Node.Topics.{has_text, find_sub, remove_text, drop_sub}

pub text_eq_sound : (a b : List ℕ) → text_eq a b ≡ true → a ≡ b
unfolding text_eq
text_eq_sound [] [] h = refl
text_eq_sound [] (b ∷ bs) h = cc
text_eq_sound (a ∷ xs) [] h = cc
text_eq_sound (a ∷ xs) (b ∷ bs) h = ground (arith, text_eq_sound xs bs)

text_eq_comm : (a b : List ℕ) → text_eq a b ≡ text_eq b a
unfolding text_eq
text_eq_comm [] [] = refl
text_eq_comm [] (b ∷ bs) = refl
text_eq_comm (a ∷ xs) [] = refl
text_eq_comm (a ∷ xs) (b ∷ bs) = ground (arith, text_eq_comm xs bs)

pub has_text-remove_text :
    (u t : List ℕ) (ts : List (List ℕ))
    → has_text u (remove_text t ts) ≡ true
    → has_text u ts ≡ true
has_text-remove_text u t [] h = h
has_text-remove_text u t (x ∷ ts) h = ground (arith, has_text-remove_text u t ts)

pub find_sub-drop_sub :
    (u t : List ℕ) (subs : List (List ℕ × ℕ))
    → find_sub u (drop_sub t subs) ≡ (if text_eq t u then none else find_sub u subs)
find_sub-drop_sub u t [] = ground arith
find_sub-drop_sub u t ((x, k) ∷ subs) = elim (Bool-cases (text_eq x t)) [
  | inl same ↦
      let e : text_eq x u ≡ text_eq t u = ap (λ v. text_eq v u) (text_eq_sound x t same) in
      rw same (ground (arith, e, find_sub-drop_sub u t subs))
  | inr other ↦ elim (Bool-cases (text_eq x u)) [
    | inl hit ↦
        let e : text_eq t u ≡ false =
          ap (text_eq t) (sym (text_eq_sound x u hit)) ∙ text_eq_comm t x ∙ other in
        rw (other, hit, e) refl
    | inr miss ↦ rw (other, miss) (find_sub-drop_sub u t subs)
  ]
]
