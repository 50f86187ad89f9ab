-- ===== src/Metrics/Recorder/Reports/Custody.antt =====
-- metrics/tracer.go: `CustodyCompleteRate` counts the custodiers that had each of their columns in time.
use eth_slot_sim.Base.{
  ℕ, ◌≡◌, refl, ap, ap₂, Bool, not, ◌&&◌, ◌||◌, List, [], ◌∷◌, arith, ◌==◌, length, any, keep, pos,
  inl, inr, Bool-cases,
}
use eth_slot_sim.Node.Kinds.{column}
use eth_slot_sim.Metrics.Recorder.{Arrival, Recorder, int_eq}
use eth_slot_sim.Metrics.Recorder.Reports.{
  is_of, is_by, proposer_of, arrived_columns, has_column, is_complete, count_complete,
  custody_complete_rate,
}

-- Whether an arrival is that of a column at a node by the deadline.
abbrev pub brings : ℕ → ℕ → ℕ → ℕ → Arrival → Bool
brings slot due nd c a =
    (is_of column slot a.id && is_by due a.delay)
    && (a.node == nd && int_eq a.id.identity.subnet (pos c))

-- Whether the node published the block of the slot, or each column of a list arrived at it in time.
abbrev pub had_all : ℕ → ℕ → Recorder → ℕ × List ℕ → Bool
had_all slot due r entry =
    int_eq (pos entry.0) (proposer_of slot r.published)
    || not (any (λ c. not (any (brings slot due entry.0 c) r.arrivals)) entry.1)

-- Whether a node has custody columns.
abbrev pub is_custodier : ℕ × List ℕ → Bool
is_custodier entry = not (length entry.1 == 0)

has_column-arrived_columns :
    (slot due nd c : ℕ) (rs : List Arrival)
    → has_column (arrived_columns slot due rs) nd c ≡ any (brings slot due nd c) rs
unfolding has_column arrived_columns
has_column-arrived_columns slot due nd c [] = refl
has_column-arrived_columns slot due nd c (a ∷ rs) =
    elim (Bool-cases (is_of column slot a.id && is_by due a.delay)) [
      | inl e ↦ rw e (rw (has_column-arrived_columns slot due nd c rs) refl)
      | inr e ↦ rw e (has_column-arrived_columns slot due nd c rs)
    ]

any_ext : (p q : ℕ → Bool) (cs : List ℕ) → ((c : ℕ) → p c ≡ q c) → any p cs ≡ any q cs
any_ext p q [] h = refl
any_ext p q (c ∷ cs) h = ap₂ (λ a b. a || b) (h c) (any_ext p q cs h)

is_complete-had_all :
    (slot due nd : ℕ) (cols : List ℕ) (r : Recorder)
    → is_complete (proposer_of slot r.published) (arrived_columns slot due r.arrivals) nd cols
      ≡ had_all slot due r (nd, cols)
unfolding is_complete
is_complete-had_all slot due nd cols r =
    ap (λ b. int_eq (pos nd) (proposer_of slot r.published) || not b)
      (any_ext _ _ cols (λ c. ap not (has_column-arrived_columns slot due nd c r.arrivals)))

-- The reported share is, of the nodes with custody columns, those that published the block of the
-- slot or had each of their columns arrive with a delay up to the deadline.
pub custody_complete_rate_lem :
    (slot due : ℕ) (custody : List (ℕ × List ℕ)) (r : Recorder)
    → custody_complete_rate slot custody due r ≡ (
      length (keep (had_all slot due r) (keep is_custodier custody)),
      length (keep is_custodier custody),
    )
unfolding custody_complete_rate count_complete
custody_complete_rate_lem slot due [] r = refl
custody_complete_rate_lem slot due ((nd, cols) ∷ rest) r =
    let ih = custody_complete_rate_lem slot due rest r in
    let first = ap (λ (p : ℕ × ℕ). p.0) ih in
    let second = ap (λ (p : ℕ × ℕ). p.1) ih in
    elim (Bool-cases (length cols == 0)) [
      | inl e ↦ rw e ih
      | inr e ↦ elim (Bool-cases (had_all slot due r (nd, cols))) [
        | inl full ↦
            rw (e, is_complete-had_all slot due nd cols r, full)
              (ap₂ (λ (a b : ℕ). (a, b)) (omega (arith, first)) (omega (arith, second)))
        | inr lacks ↦
            rw (e, is_complete-had_all slot due nd cols r, lacks)
              (ap₂ (λ (a b : ℕ). (a, b)) (omega (arith, first)) (omega (arith, second)))
      ]
    ]
