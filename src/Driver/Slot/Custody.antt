-- ===== src/Driver/Slot/Custody.antt =====
-- driver/runner.go: the count of custody columns is complete exactly when every column is in.
use eth_slot_sim.Base.{
  Bool, false, ◌||◌, map, sym, ℕ, suc, ◌≤◌, ◌≡◌, refl, ap, subst, ◌∙◌, ◌↔◌, true, false, List, [],
  ◌∷◌, arith, ◌==◌, leb, if◌then◌else◌, length, contains, Within, inl, inr, Bool-cases, ==_iff,
  ==_refl,
}
use eth_slot_sim.Driver.Slot.{SlotState, see_column, add_key}

-- No number occurs twice.
abbrev pub Distinct : List ℕ → Type 0
Distinct [] = Unit {0}
Distinct (x ∷ xs) = (contains xs x ≡ false) × Distinct xs

remove : ℕ → List ℕ → List ℕ
remove c [] = []
remove c (x ∷ xs) = let rest = remove c xs in if x == c then xs else x ∷ rest

length-remove :
    (c : ℕ) (xs : List ℕ) → contains xs c ≡ true → suc (length (remove c xs)) ≡ length xs
unfolding remove
length-remove c [] h = absurd (cc)
length-remove c (x ∷ xs) h = ground (arith, length-remove c xs)

contains-remove :
    (c d : ℕ) (xs : List ℕ) → (c == d) ≡ false → contains (remove c xs) d ≡ contains xs d
unfolding remove
contains-remove c d [] h = refl
contains-remove c d (x ∷ xs) h = ground (arith, contains-remove c d xs h)

differs : (h c : ℕ) (xs : List ℕ) → contains xs h ≡ false → contains xs c ≡ true → (h == c) ≡ false
differs h c xs n e = elim (Bool-cases (h == c)) [
  | inl same ↦ absurd (ground (arith, ap (contains xs) ((==_iff h c).0 same)))
  | inr other ↦ other
]

Within-remove :
    (h : ℕ) (xs ys : List ℕ) → contains xs h ≡ false → Within (h ∷ xs) ys → Within xs (remove h ys)
Within-remove h xs ys n w c e = ground (arith, contains-remove h c ys (differs h c xs n e), w c)

-- Distinct numbers of a list are at most as many as the list is long.
pub length-Within : (xs ys : List ℕ) → Distinct xs → Within xs ys → length xs ≤ length ys
length-Within [] ys d w = omega arith
length-Within (h ∷ xs) ys (n, d) w = omega (
  arith,
  length-remove h ys (w h (ground (arith, ==_refl h))),
  length-Within xs (remove h ys) d (Within-remove h xs ys n w),
)

-- Where they are as many, they are all of the list.
pub Within-full :
    (xs ys : List ℕ) → Distinct xs → Within xs ys → length xs ≡ length ys → Within ys xs
Within-full [] [] d w e c m = m
Within-full [] (y ∷ ys) d w e c m = absurd (omega arith)
Within-full (h ∷ xs) ys (n, d) w e c m = elim (Bool-cases (h == c)) [
  | inl same ↦ rw same refl
  | inr other ↦
      let ih =
        Within-full xs (remove h ys) d (Within-remove h xs ys n w)
          (omega (arith, length-remove h ys (w h (ground (arith, ==_refl h))))) c in
      ground (arith, contains-remove h c ys other, ih)
]

-- The columns counted are distinct custody columns, and the flag says that they are all.
pub record IsCounting (ss : SlotState) : Type 0 where
  pub apart : Distinct ss.have_column
  pub custodied : Within ss.have_column ss.custody
  pub flag : ss.columns_complete ≡ leb (length ss.custody) (length ss.have_column)

add_key-Distinct : (c : ℕ) (xs : List ℕ) → Distinct xs → Distinct (add_key c xs)
add_key-Distinct c xs d = ground arith

add_key-Within :
    (c : ℕ) (xs ys : List ℕ) → contains ys c ≡ true → Within xs ys → Within (add_key c xs) ys
add_key-Within c xs ys h w d m = elim (Bool-cases (c == d)) [
  | inl same ↦ subst (λ x. contains ys x ≡ true) ((==_iff c d).0 same) h
  | inr other ↦ w d (ground arith)
]

see_column-keys :
    (col at : ℕ) (ss : SlotState)
    → ((see_column col at ss).0.have_column ≡ add_key col ss.have_column)
      × ((see_column col at ss).0.custody ≡ ss.custody)
unfolding see_column
see_column-keys col at ss = ground arith

see_column-flag :
    (col at : ℕ) (ss : SlotState)
    → IsCounting ss
    → length (add_key col ss.have_column) ≤ length ss.custody
    → (see_column col at ss).0.columns_complete
      ≡ leb (length ss.custody) (length (add_key col ss.have_column))
unfolding see_column
see_column-flag col at ss k le = ground arith

-- A column that the node custodies, seen in a state that counts so, keeps the count.
see_column-IsCounting :
    (col at : ℕ) (ss : SlotState)
    → contains ss.custody col ≡ true
    → IsCounting ss
    → IsCounting (see_column col at ss).0
see_column-IsCounting col at ss h k =
    let (keys, cust) = see_column-keys col at ss in
    let d = add_key-Distinct col ss.have_column k.apart in
    let w = add_key-Within col ss.have_column ss.custody h k.custodied in
    record {
      apart = rw keys d;
      custodied = rw (keys, cust) w;
      flag =
          rw (keys, cust)
            (see_column-flag col at ss k
              (length-Within (add_key col ss.have_column) ss.custody d w));
    }

or_false : (a : Bool) → a || false ≡ a
or_false a = ground arith

add_key-contains :
    (col c : ℕ) (before : Bool) (xs : List ℕ)
    → before || contains (add_key col xs) c ≡ (col == c || before) || contains xs c
add_key-contains col c before xs = elim (Bool-cases (col == c)) [
  | inl same ↦ let e : col ≡ c = (==_iff col c).0 same in ground (arith, ap (contains xs) e, same)
  | inr other ↦ ground (arith, other)
]

-- The columns of a burst, each with the instant of its arrival.
unfoldable pub see_columns : List (ℕ × ℕ) → SlotState → SlotState
unfolding see_column
see_columns [] ss = ss
see_columns ((col, at) ∷ rest) ss = see_columns rest (see_column col at ss).0

abbrev pub Custodied : List ℕ → List (ℕ × ℕ) → Type 0
Custodied custody [] = Unit {0}
Custodied custody ((col, at) ∷ rest) = (contains custody col ≡ true) × Custodied custody rest

see_columns-IsCounting :
    (burst : List (ℕ × ℕ)) (ss : SlotState)
    → Custodied ss.custody burst
    → IsCounting ss
    → IsCounting (see_columns burst ss) × ((see_columns burst ss).custody ≡ ss.custody)
unfolding see_columns
see_columns-IsCounting [] ss h k = (k, refl)
see_columns-IsCounting ((col, at) ∷ rest) ss h k =
    let (keys, cust) = see_column-keys col at ss in
    let (k', c') =
      see_columns-IsCounting rest (see_column col at ss).0 (rw cust h.1)
        (see_column-IsCounting col at ss h.0 k) in
    (k', c' ∙ cust)

abbrev pub arrived : List (ℕ × ℕ) → List ℕ
arrived burst = map (λ c. c.0) burst

-- The columns that are in are those that arrived, and those that were in before.
see_columns-have_column :
    (burst : List (ℕ × ℕ)) (ss : SlotState) (c : ℕ)
    → contains (see_columns burst ss).have_column c
      ≡ contains (arrived burst) c || contains ss.have_column c
unfolding see_columns
see_columns-have_column [] ss c = refl
see_columns-have_column ((col, at) ∷ rest) ss c =
    see_columns-have_column rest (see_column col at ss).0 c
    ∙ ap (λ xs. contains (arrived rest) c || contains xs c) (see_column-keys col at ss).0
    ∙ add_key-contains col c (contains (arrived rest) c) ss.have_column

-- In whatever order, and however often, custody columns of a slot arrive that starts with none of
-- its distinct custody columns in and with its gate closed unless there are none: the gate is open
-- exactly when every custody column is among those that arrived.
pub see_columns_complete :
    (burst : List (ℕ × ℕ)) (ss : SlotState)
    → Distinct ss.custody
    → ss.have_column ≡ []
    → ss.columns_complete ≡ leb (length ss.custody) 0
    → Custodied ss.custody burst
    → ((see_columns burst ss).columns_complete ≡ true) ↔ Within ss.custody (arrived burst)
see_columns_complete burst ss d none_yet closed h =
    let k0 : IsCounting ss = record {
      apart = rw none_yet tt;
      custodied = rw none_yet (λ c e. absurd (cc));
      flag = rw none_yet closed;
    } in
    let (k, c) = see_columns-IsCounting burst ss h k0 in
    let ss' = see_columns burst ss in
    let le = length-Within ss'.have_column ss'.custody k.apart k.custodied in
    let seen : (x : ℕ) → contains ss'.have_column x ≡ contains (arrived burst) x = λ x.
      see_columns-have_column burst ss x
      ∙ ap (λ xs. contains (arrived burst) x || contains xs x) none_yet
      ∙ or_false (contains (arrived burst) x) in
    (
      λ open_gate x m.
          sym (seen x)
          ∙ subst (λ cs. Within cs ss'.have_column) c
              (Within-full ss'.have_column ss'.custody k.apart k.custodied (ground (arith, k.flag)))
              x m,
      λ all_in.
          let in_it : Within ss.custody ss'.have_column = λ x m. seen x ∙ all_in x m in
          ground (arith, k.flag, c, length-Within ss.custody ss'.have_column d in_it),
    )
