-- ===== src/Node/Registry/Decimals.antt =====
-- A numeral is read back as its number, and the prefix and the suffix of a text are cut off.
use native.Mathlib.Numerals.{unary_clauses}
use eth_slot_sim.Base.{
  ℕ, zero, suc, ◌+◌, ◌-◌, ◌*◌, ◌/◌, ◌%◌, ◌^◌, ◌<◌, ◌≡◌, refl, sym, ap, ◌∙◌, true, false, ◌&&◌, List,
  [], ◌∷◌, ◌++◌, append_assoc, append-nil, some, arith, ltb, leb, ◌==◌, if◌then◌else◌, length,
  length-append, take, drop, Bool-cases, inl, inr,
}
use eth_slot_sim.Node.Registry.{has_prefix}
use eth_slot_sim.Node.Registry.Entries.{text_eq_refl}
use eth_slot_sim.Node.Registry.Numbers.{
  digits, decimal, read_digits, read_bounded, atoi_natural, trim_prefix, cut_suffix,
}

read_digit :
    (acc d n : ℕ) (cs : List ℕ)
    → d < 10
    → acc * 10 + d ≡ n
    → read_digits acc ((48 + d) ∷ cs) ≡ read_digits n cs
unfolding read_digits
read_digit acc d n cs h e =
    let digit : leb 48 (48 + d) && leb (48 + d) 57 ≡ true = grind arith in
    let value : acc * 10 + (48 + d - 48) ≡ n = omega arith in rw (digit, value) refl

fewer_digits : (f n : ℕ) → n < 10 ^ suc f → n / 10 < 10 ^ f
fewer_digits f n h = let k = simp unary_clauses at h in omega arith

read_digits-digits :
    (f n : ℕ) (cs : List ℕ) → n < 10 ^ f → read_digits 0 (digits f n ++ cs) ≡ read_digits n cs
unfolding digits
read_digits-digits zero n cs h = ap (λ k. read_digits k cs) (omega arith)
read_digits-digits (suc f) n cs h = elim (Bool-cases (ltb n 10)) [
  | inl e ↦ rw e (read_digit 0 n n cs (grind arith) (omega arith))
  | inr e ↦ rw e (
      ap (read_digits 0) (append_assoc (digits f (n / 10)) ((48 + n % 10) ∷ []) cs)
      ∙ read_digits-digits f (n / 10) ((48 + n % 10) ∷ cs) (fewer_digits f n h)
      ∙ read_digit (n / 10) (n % 10) n cs (omega arith) (omega arith))
]

take_all : (x y : List ℕ) → take (length x) (x ++ y) ≡ x
take_all [] y = refl
take_all (a ∷ x) y = ap (λ r. a ∷ r) (take_all x y)

drop_all : (x y : List ℕ) → drop (length x) (x ++ y) ≡ y
drop_all [] y = refl
drop_all (a ∷ x) y = drop_all x y

pub starts : (p x : List ℕ) → has_prefix (p ++ x) p ≡ true
unfolding has_prefix
starts [] x = refl
starts (a ∷ p) x = ground (arith, starts p x)

pub trim_prefix_lem : (p x : List ℕ) → trim_prefix (p ++ x) p ≡ x
unfolding trim_prefix
trim_prefix_lem p x = rw (starts p x) (drop_all p x)

pub cut_suffix_lem : (x s : List ℕ) → cut_suffix (x ++ s) s ≡ some x
unfolding cut_suffix
cut_suffix_lem x s =
    let at : length (x ++ s) - length s ≡ length x = rw (length-append x s) (omega arith) in
    let fits : leb (length s) (length (x ++ s)) ≡ true = rw (length-append x s) (ground arith) in
    rw (at, fits, drop_all x s, text_eq_refl s, take_all x s) refl

-- The first digit of a numeral.
pub record StartsWithDigit (t : List ℕ) : Type 0 where
  pub digit : ℕ
  pub rest : List ℕ
  pub below : digit < 10
  pub shape : t ≡ (48 + digit) ∷ rest

grown :
    (t : List ℕ) (n : ℕ)
    → StartsWithDigit t
    → StartsWithDigit (if◌then◌else◌ (ltb n 10) ((48 + n) ∷ []) (t ++ (48 + n % 10) ∷ []))
grown t n front = elim (Bool-cases (ltb n 10)) [
  | inl e ↦ rw e (record { digit = n; rest = []; below = grind arith; shape = refl })
  | inr e ↦ rw e (record {
    digit = front.digit;
    rest = front.rest ++ (48 + n % 10) ∷ [];
    below = front.below;
    shape = ap (λ u. u ++ (48 + n % 10) ∷ []) front.shape;
  })
]

digits-StartsWithDigit : (f n : ℕ) → StartsWithDigit (digits (suc f) n)
unfolding digits
digits-StartsWithDigit zero n = elim (Bool-cases (ltb n 10)) [
  | inl e ↦ rw e (record { digit = n; rest = []; below = grind arith; shape = refl })
  | inr e ↦ rw e (record { digit = n % 10; rest = []; below = omega arith; shape = refl })
]
digits-StartsWithDigit (suc f) n = grown _ n (digits-StartsWithDigit f (n / 10))

pub decimal-StartsWithDigit : (n : ℕ) → StartsWithDigit (decimal n)
unfolding decimal
decimal-StartsWithDigit n = digits-StartsWithDigit 19 n

read_all : (n : ℕ) → n < 2 ^ 63 → read_digits 0 (decimal n) ≡ some n
unfolding decimal read_digits
read_all n h =
    ap (read_digits 0) (sym (append-nil (digits 20 n))) ∙ read_digits-digits 20 n [] (omega arith)

read_bounded_lem :
    (c : ℕ) (cs : List ℕ) (n : ℕ)
    → read_digits 0 (c ∷ cs) ≡ some n
    → n < 2 ^ 63
    → read_bounded (2 ^ 63 - 1) (c ∷ cs) ≡ some n
unfolding read_bounded
read_bounded_lem c cs n e h =
    let low : leb n (2 ^ 63 - 1) ≡ true = ground (arith, h) in rw (e, low) refl

atoi_start :
    (d : ℕ) (rest : List ℕ)
    → d < 10
    → atoi_natural ((48 + d) ∷ rest) ≡ read_bounded (2 ^ 63 - 1) ((48 + d) ∷ rest)
unfolding atoi_natural
atoi_start d rest h =
    let minus : (48 + d == 45) ≡ false = grind arith in
    let plus : (48 + d == 43) ≡ false = grind arith in rw (minus, plus) refl

-- A number below 2 ^ 63 is read back from its numeral.
pub atoi-decimal : (n : ℕ) → n < 2 ^ 63 → atoi_natural (decimal n) ≡ some n
atoi-decimal n h =
    let s = decimal-StartsWithDigit n in
    ap atoi_natural s.shape
    ∙ atoi_start s.digit s.rest s.below
    ∙ read_bounded_lem _ s.rest n (ap (read_digits 0) (sym s.shape) ∙ read_all n h) h
