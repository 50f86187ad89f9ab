-- ===== src/Schedule/Duties/Votes.antt =====
-- schedule/schedule.go: what `finalityVoteDuties` returns.
use mathlib.Core.Option.{some-injective}
use eth_slot_sim.Base.{
  ℕ, zero, suc, ◌≡◌, refl, ap, subst, Bool, true, false, List, [], ◌∷◌, map, none, some, inl, inr,
  arith, ℤ, pos, get_elem?, keep, contains, Option-cases, Bool-cases, ==_refl,
}
use eth_slot_sim.Schedule.{Assignment, AttestDuty}
use eth_slot_sim.Schedule.Position.{finality_position, round}
use eth_slot_sim.Schedule.Duties.{hosted, includes, duty_for, duties_of, finality_vote_duties}

-- Whether a validator votes in round `k`.
abbrev pub is_in_round : Assignment → ℕ → ℕ → Bool
is_in_round a k val = elim (includes a k val) [ none ↦ false | some b ↦ b ]

-- A duty in full: its validator is one of the list and votes in round `k`, on its drawn subnet, at
-- its rank.
pub record IsDutyOf (a : Assignment) (k : ℕ) (vals : List ℕ) (d : AttestDuty) : Type 0 where
  pub owner : contains vals d.val ≡ true
  pub during : is_in_round a k d.val ≡ true
  pub drawn : get_elem? a.finality_subnet_of d.val ≡ some d.subnet
  pub ranked : finality_position a (pos d.val) ≡ some d.position

duty_for-cons :
    (a : Assignment) (val : ℕ) (rest ds : List AttestDuty)
    → duty_for a val rest ≡ some ds
    → (s : ℕ) × (p : ℤ) × (ds ≡ record { subnet = s; val = val; position = p } ∷ rest)
      × (get_elem? a.finality_subnet_of val ≡ some s)
      × (finality_position a (pos val) ≡ some p)
unfolding duty_for
duty_for-cons a val rest ds e = elim (Option-cases (get_elem? a.finality_subnet_of val)) [
  | inl stuck ↦ ground arith
  | inr (s, es) ↦ elim (Option-cases (finality_position a (pos val))) [
    | inl stuck ↦ ground arith
    | inr (p, ep) ↦ (s, p, ground arith, es, ep)
  ]
]

-- The duties of `val ∷ vals` extend those of `vals`, and by one exactly when `val` is in the round.
data Extends (a : Assignment) (k val : ℕ) (rest ds : List AttestDuty) : Type 0 where
  skip : is_in_round a k val ≡ false → ds ≡ rest → Extends a k val rest ds
  add :
      (d : AttestDuty)
      → is_in_round a k val ≡ true
      → ds ≡ d ∷ rest
      → d.val ≡ val
      → get_elem? a.finality_subnet_of val ≡ some d.subnet
      → finality_position a (pos val) ≡ some d.position
      → Extends a k val rest ds

duties_of-Extends :
    (a : Assignment) (k val : ℕ) (vals : List ℕ) (ds : List AttestDuty)
    → duties_of a k (val ∷ vals) ≡ some ds
    → (rest : List AttestDuty) × (duties_of a k vals ≡ some rest) × Extends a k val rest ds
unfolding duties_of
duties_of-Extends a k val vals ds e = elim (Option-cases (duties_of a k vals)) [
  | inl stuck ↦ ground arith
  | inr (rest, er) ↦ elim (Option-cases (includes a k val)) [
    | inl stuck ↦ ground arith
    | inr (b, eb) ↦ elim (Bool-cases b) [
      | inl in_round ↦
          let (s, p, ed, es, ep) = duty_for-cons a val rest ds (ground arith) in
          (
            rest,
            er,
            add (record { subnet = s; val = val; position = p }) (ground arith) ed refl es ep,
          )
      | inr out ↦ (rest, er, skip (ground arith) (ground arith))
    ]
  ]
]

Extends-vals :
    {a : Assignment} {k val : ℕ} (vals : List ℕ) {rest ds : List AttestDuty}
    → map (λ d. d.val) rest ≡ keep (is_in_round a k) vals
    → Extends a k val rest ds
    → map (λ d. d.val) ds ≡ keep (is_in_round a k) (val ∷ vals)
Extends-vals vals ih (skip out e) = rw (out, e) ih
Extends-vals {val = val} vals ih (add d in_round e ev es ep) =
    rw (in_round, e, ev) (ap (λ l. val ∷ l) ih)

duties_of-vals :
    (a : Assignment) (k : ℕ) (vals : List ℕ) (ds : List AttestDuty)
    → duties_of a k vals ≡ some ds
    → map (λ d. d.val) ds ≡ keep (is_in_round a k) vals
unfolding duties_of
duties_of-vals a k [] ds e = rw (← some-injective _ _ e) refl
duties_of-vals a k (val ∷ vals) ds e =
    let (rest, er, x) = duties_of-Extends a k val vals ds e in
    Extends-vals vals (duties_of-vals a k vals rest er) x

Extends-IsDutyOf :
    {a : Assignment} {k val : ℕ} (vals : List ℕ) {rest ds : List AttestDuty} (i : ℕ)
    (d : AttestDuty)
    → ((j : ℕ) → get_elem? rest j ≡ some d → IsDutyOf a k vals d)
    → Extends a k val rest ds
    → get_elem? ds i ≡ some d
    → IsDutyOf a k (val ∷ vals) d
Extends-IsDutyOf vals i d ih (skip out e) g =
    let h = ih i (rw (← e) g) in
    record {
      owner = ground (arith, h.owner);
      during = h.during;
      drawn = h.drawn;
      ranked = h.ranked;
    }
Extends-IsDutyOf {a} {k} {val} vals zero d ih (add d' in_round e ev es ep) g =
    subst (IsDutyOf a k (val ∷ vals)) (some-injective d' d (rw e at g)) (record {
      owner = ground (arith, ==_refl val);
      during = rw ev in_round;
      drawn = rw ev es;
      ranked = rw ev ep;
    })
Extends-IsDutyOf vals (suc i) d ih (add d' in_round e ev es ep) g =
    let h = ih i (rw e at g) in
    record {
      owner = ground (arith, h.owner);
      during = h.during;
      drawn = h.drawn;
      ranked = h.ranked;
    }

duties_of-IsDutyOf :
    (a : Assignment) (k : ℕ) (vals : List ℕ) (ds : List AttestDuty) (i : ℕ) (d : AttestDuty)
    → duties_of a k vals ≡ some ds
    → get_elem? ds i ≡ some d
    → IsDutyOf a k vals d
unfolding duties_of
duties_of-IsDutyOf a k [] ds i d e g =
    let none_there : none ≡ some d = rw (← some-injective [] ds e) at g in absurd (cc)
duties_of-IsDutyOf a k (val ∷ vals) ds i d e g =
    let (rest, er, x) = duties_of-Extends a k val vals ds e in
    Extends-IsDutyOf vals i d (λ j. duties_of-IsDutyOf a k vals rest j d er) x g

-- For a node and a round key, the duties that are returned are those of the validators that
-- the node hosts and that vote in the round, in the order of hosting, one for each; and each duty
-- carries its validator's drawn subnet and its rank.
pub finality_vote_duties_lem :
    (a : Assignment) (node slot : ℕ) (ds : List AttestDuty)
    → finality_vote_duties a node slot ≡ some ds
    → (k : ℕ) × (vals : List ℕ) × (round a slot ≡ some k)
      × (hosted a node ≡ some vals)
      × (map (λ d. d.val) ds ≡ keep (is_in_round a k) vals)
      × ((i : ℕ) (d : AttestDuty) → get_elem? ds i ≡ some d → IsDutyOf a k vals d)
unfolding finality_vote_duties
finality_vote_duties_lem a node slot ds e = elim (Option-cases (round a slot)) [
  | inl stuck ↦ ground arith
  | inr (k, ek) ↦ elim (Option-cases (hosted a node)) [
    | inl stuck ↦ ground arith
    | inr (vals, ev) ↦
        let all : duties_of a k vals ≡ some ds = ground arith in
        (
          k,
          vals,
          ek,
          ev,
          duties_of-vals a k vals ds all,
          λ i d. duties_of-IsDutyOf a k vals ds i d all,
        )
  ]
]
