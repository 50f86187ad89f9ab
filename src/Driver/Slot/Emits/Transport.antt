-- ===== src/Driver/Slot/Emits/Transport.antt =====
-- driver/runner.go: the partial transport carries the votes of the classic one.
use eth_slot_sim.Base.{
  refl, subst, false, not, ◌&&◌, ◌||◌, ◌==◌, if◌then◌else◌, map, keep, contains, Bool-cases, inl,
  inr, ==_iff, ℕ, suc, ◌+◌, ◌≡◌, sym, ◌∙◌, ap, true, List, [], ◌∷◌, ◌++◌, arith, ℤ, length,
  length-append, append_assoc, append-nil,
}
use eth_slot_sim.Schedule.{AttestDuty}
use eth_slot_sim.Driver.Slot.{Phases, SlotState}
use eth_slot_sim.Driver.Slot.Custody.{Distinct}
use eth_slot_sim.Driver.Slot.Emits.{
  PartialEmit, attestation_for, add_position, carry, emit_duties, emit, emit_partial_from,
  emit_partial,
}

-- The positions that are sent, over all subnets.
abbrev pub sent_count : List (ℕ × List ℤ) → ℕ
sent_count [] = 0
sent_count ((s, ps) ∷ rest) = length ps + sent_count rest

pub sent_count-add_position :
    (s : ℕ) (p : ℤ) (f : List (ℕ × List ℤ)) → sent_count (add_position s p f) ≡ suc (sent_count f)
unfolding add_position
sent_count-add_position s p [] = omega arith
sent_count-add_position s p ((t, ps) ∷ rest) =
    ground (arith, sent_count-add_position s p rest, length-append ps (p ∷ []))

-- The positions that are sent on a subnet.
abbrev pub sent_on : ℕ → List (ℕ × List ℤ) → List ℤ
sent_on s [] = []
sent_on s ((t, ps) ∷ rest) = let more = sent_on s rest in if t == s then ps ++ more else more

-- The duties of a node in a subnet of which it is no member, and those in its own subnets.
abbrev pub own_positions : SlotState → List AttestDuty → List (ℕ × ℤ)
own_positions ss ds =
    map (λ d. (d.subnet, d.position))
      (keep (λ d. contains ss.attestation_subnets_subscribed d.subnet) ds)

abbrev pub foreign_positions : SlotState → ℕ → List AttestDuty → List ℤ
foreign_positions ss s ds =
    map (λ d. d.position)
      (keep (λ d. d.subnet == s && not (contains ss.attestation_subnets_subscribed d.subnet)) ds)

abbrev pub subnets_of : List (ℕ × List ℤ) → List ℕ
subnets_of f = map (λ e. e.0) f

sent_on-absent :
    (s : ℕ) (f : List (ℕ × List ℤ)) → contains (subnets_of f) s ≡ false → sent_on s f ≡ []
sent_on-absent s [] h = refl
sent_on-absent s ((t, ps) ∷ rest) h = ground (arith, sent_on-absent s rest)

contains-add_position :
    (s u : ℕ) (p : ℤ) (f : List (ℕ × List ℤ))
    → contains (subnets_of (add_position s p f)) u ≡ s == u || contains (subnets_of f) u
unfolding add_position
contains-add_position s u p [] = ground arith
contains-add_position s u p ((t, ps) ∷ rest) = elim (Bool-cases (t == s)) [
  | inl same ↦ let e : t ≡ s = (==_iff t s).0 same in ground (arith, same, ap (λ x. x == u) e)
  | inr other ↦ ground (arith, other, contains-add_position s u p rest)
]

other_way : (a b : ℕ) → (a == b) ≡ false → (b == a) ≡ false
other_way a b h = ground (arith, h)

-- A subnet has one batch.
add_position-Distinct :
    (s : ℕ) (p : ℤ) (f : List (ℕ × List ℤ))
    → Distinct (subnets_of f)
    → Distinct (subnets_of (add_position s p f))
unfolding add_position
add_position-Distinct s p [] d = (refl, tt)
add_position-Distinct s p ((t, ps) ∷ rest) d = elim (Bool-cases (t == s)) [
  | inl same ↦ rw same d
  | inr other ↦ rw other (
    ground (arith, contains-add_position s t p rest, d.0, other_way t s other),
    add_position-Distinct s p rest d.1,
  )
]

sent_on-add_position :
    (s u : ℕ) (p : ℤ) (f : List (ℕ × List ℤ))
    → Distinct (subnets_of f)
    → sent_on u (add_position s p f) ≡ sent_on u f ++ (if s == u then p ∷ [] else [])
unfolding add_position
sent_on-add_position s u p [] d = ground arith
sent_on-add_position s u p ((t, ps) ∷ rest) d = elim (Bool-cases (t == s)) [
  | inl same ↦
      let e : t ≡ s = (==_iff t s).0 same in
      elim (Bool-cases (t == u)) [
        | inl hit ↦
            let f : t ≡ u = (==_iff t u).0 hit in
            let none_more =
              sent_on-absent u rest (subst (λ x. contains (subnets_of rest) x ≡ false) f d.0) in
            let hit' : (s == u) ≡ true = ap (λ x. x == u) (sym e) ∙ hit in
            rw (same, hit, hit', none_more)
              (append_assoc ps (p ∷ []) [] ∙ ap (λ x. x ++ p ∷ []) (sym (append-nil ps)))
        | inr miss ↦
            let miss' : (s == u) ≡ false = ap (λ x. x == u) (sym e) ∙ miss in
            rw (same, miss, miss') (sym (append-nil (sent_on u rest)))
      ]
  | inr other ↦ elim (Bool-cases (t == u)) [
    | inl hit ↦
        rw (other, hit)
          (ap (λ x. ps ++ x) (sent_on-add_position s u p rest d.1)
            ∙ sym (append_assoc ps (sent_on u rest) (if s == u then p ∷ [] else [])))
    | inr miss ↦ rw (other, miss) (sent_on-add_position s u p rest d.1)
  ]
]

record Carries (r : Phases) (slot : ℕ) (ss : SlotState) (ds : List AttestDuty)
    (out out' : PartialEmit) : Type 0 where
  same_trace : out'.traced ≡ out.traced ++ emit_duties r slot ss (λ s. true) ds
  kept_own : out'.stored ≡ out.stored ++ own_positions ss ds
  one_batch : Distinct (subnets_of out'.fanout)
  sent_others : (s : ℕ) → sent_on s out'.fanout ≡ sent_on s out.fanout ++ foreign_positions ss s ds

carry-Carries :
    (r : Phases) (slot : ℕ) (ss : SlotState) (out : PartialEmit) (d : AttestDuty)
    → Distinct (subnets_of out.fanout)
    → Carries r slot ss (d ∷ []) out (carry r slot ss out d)
unfolding carry emit_duties
carry-Carries r slot ss out d one =
    elim (Bool-cases (contains ss.attestation_subnets_subscribed d.subnet)) [
      | inl own ↦ rw own (record {
        same_trace = refl;
        kept_own = rw own refl;
        one_batch = one;
        sent_others = λ s. ground (arith, own, append-nil (sent_on s out.fanout));
      })
      | inr other ↦ rw other (record {
        same_trace = refl;
        kept_own = rw other (sym (append-nil out.stored));
        one_batch = add_position-Distinct d.subnet d.position out.fanout one;
        sent_others = λ s.
            sent_on-add_position d.subnet s d.position out.fanout one
            ∙ ap (λ x. sent_on s out.fanout ++ x) (ground (arith, other));
      })
    ]

own_positions-cons :
    (ss : SlotState) (d : AttestDuty) (ds : List AttestDuty)
    → own_positions ss (d ∷ ds) ≡ own_positions ss (d ∷ []) ++ own_positions ss ds
own_positions-cons ss d ds = ground arith

foreign_positions-cons :
    (ss : SlotState) (s : ℕ) (d : AttestDuty) (ds : List AttestDuty)
    → foreign_positions ss s (d ∷ ds) ≡ foreign_positions ss s (d ∷ []) ++ foreign_positions ss s ds
foreign_positions-cons ss s d ds = ground arith

emit_partial_from-Carries :
    (r : Phases) (slot : ℕ) (ss : SlotState) (out : PartialEmit) (ds : List AttestDuty)
    → Distinct (subnets_of out.fanout)
    → Carries r slot ss ds out (emit_partial_from r slot ss out ds)
unfolding emit_partial_from emit_duties
emit_partial_from-Carries r slot ss out [] one = record {
  same_trace = sym (append-nil out.traced);
  kept_own = sym (append-nil out.stored);
  one_batch = one;
  sent_others = λ s. sym (append-nil (sent_on s out.fanout));
}
emit_partial_from-Carries r slot ss out (d ∷ ds) one =
    let h = carry-Carries r slot ss out d one in
    let c = emit_partial_from-Carries r slot ss (carry r slot ss out d) ds h.one_batch in
    record {
      same_trace =
          c.same_trace
          ∙ ap (λ l. l ++ emit_duties r slot ss (λ s. true) ds) h.same_trace
          ∙ append_assoc out.traced (attestation_for r slot ss d ∷ [])
              (emit_duties r slot ss (λ s. true) ds);
      kept_own =
          c.kept_own
          ∙ ap (λ l. l ++ own_positions ss ds) h.kept_own
          ∙ append_assoc out.stored (own_positions ss (d ∷ [])) (own_positions ss ds)
          ∙ ap (λ l. out.stored ++ l) (sym (own_positions-cons ss d ds));
      one_batch = c.one_batch;
      sent_others = λ s.
          c.sent_others s
          ∙ ap (λ l. l ++ foreign_positions ss s ds) (h.sent_others s)
          ∙ append_assoc (sent_on s out.fanout) (foreign_positions ss s (d ∷ []))
              (foreign_positions ss s ds)
          ∙ ap (λ l. sent_on s out.fanout ++ l) (sym (foreign_positions-cons ss s d ds));
    }

-- The partial transport records the same publishes, with the same votes and in the same order, as
-- the classic one when it joins every subnet. Its node stores, in the order of the duties, the
-- subnet and the position of each duty in a subnet it subscribes; each other subnet has at most
-- one batch, of the positions of its duties in their order.
pub emit_partial-emit :
    (r : Phases) (slot : ℕ) (ss : SlotState)
    → let out = emit_partial r slot ss in
      (out.traced ≡ emit r slot ss (λ s. true))
      × (out.stored ≡ own_positions ss ss.attestation_duties)
      × Distinct (subnets_of out.fanout)
      × ((s : ℕ) → sent_on s out.fanout ≡ foreign_positions ss s ss.attestation_duties)
unfolding emit_partial emit
emit_partial-emit r slot ss =
    let none_yet : PartialEmit = record { traced = []; stored = []; fanout = [] } in
    let c = emit_partial_from-Carries r slot ss none_yet ss.attestation_duties tt in
    (c.same_trace, c.kept_own, c.one_batch, c.sent_others)
