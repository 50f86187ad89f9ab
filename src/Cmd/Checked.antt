-- ===== src/Cmd/Checked.antt =====
-- cmd/slot-sim-node/main.go: what the checks of the flags ensure of the runner.
use eth_slot_sim.Base.{
  ◌<◌, ◌∙◌, some-injective, subst, ◌≡◌, refl, ap, Bool, true, false, not, ◌&&◌, ◌||◌, Option, none,
  some, arith, ◌==◌, Bool-cases, inl, inr,
}
use eth_slot_sim.Schedule.{Assignment, segregated}
use eth_slot_sim.Driver.Setup.{DecoupledParams, PartialParams, RunnerConfig, is_on, refuse_partial}
use eth_slot_sim.Cmd.{
  Flags, Outcome, goes_on, stops, and_then, mesh_join_stagger, settle_window, load, bool_eq,
  decoupled_of, emits, partial_of, Modes, modes_of, config_of,
}

-- The modes of a node that the checks of the flags let through.
pub record AreChecked (f : Flags) (m : Modes) : Type 0 where
  pub settled : 0 < settle_window f.startup mesh_join_stagger
  pub planned :
      m.attest || m.sync || is_on m.decoupled || is_on m.partial ≡ true → is_on m.plan ≡ true
  pub exclusive : is_on m.decoupled && (m.attest || m.sync) ≡ false
  pub transport : refuse_partial (is_on m.partial) (config_of f m) m.partial ≡ none
  pub shape :
      (a : Assignment) (dc : DecoupledParams)
      → m.plan ≡ some a
      → m.decoupled ≡ some dc
      → dc.segregated ≡ segregated a

and_then_inv {ℓ κ} :
    {A : Type ℓ} {B : Type κ} (o : Outcome A) (f : A → Outcome B) {b : B}
    → and_then o f ≡ goes_on b
    → (a : A) × (o ≡ goes_on a) × (f a ≡ goes_on b)
and_then_inv (goes_on a) f h = (a, refl, h)
and_then_inv (stops e) f h = cc

bool_eq_sound : (a b : Bool) → bool_eq a b ≡ true → a ≡ b
bool_eq_sound true b h = ground arith
bool_eq_sound false b h = ground arith

same_shape :
    (f : Flags) (a : Assignment) (dc : DecoupledParams)
    → decoupled_of f (some a) ≡ goes_on (some dc)
    → dc.segregated ≡ segregated a
unfolding decoupled_of
same_shape f a dc h = elim (Bool-cases (f.dc.segregated && not f.decoupled)) [
  | inl stuck ↦ ground (arith, stuck, h)
  | inr fine ↦ elim (Bool-cases f.decoupled) [
    | inr off ↦ ground (arith, fine, off, h)
    | inl on ↦ elim (Bool-cases (bool_eq f.dc.segregated (segregated a))) [
      | inr apart ↦ ground (arith, fine, on, apart, h)
      | inl agree ↦ ground (arith, fine, on, agree, h, bool_eq_sound f.dc.segregated (segregated a))
    ]
  ]
]

decoupled_of_inv :
    (f : Flags) (sched : Option Assignment) (decoupled : Option DecoupledParams)
    → decoupled_of f sched ≡ goes_on decoupled
    → (is_on decoupled ≡ true → is_on sched ≡ true)
      × ((a : Assignment) (dc : DecoupledParams)
          → sched ≡ some a
          → decoupled ≡ some dc
          → dc.segregated ≡ segregated a)
unfolding decoupled_of
decoupled_of_inv f none decoupled h = (ground (arith, h), λ a dc e k. cc)
decoupled_of_inv f (some a) decoupled h = (
  λ on. refl,
  λ b dc e k.
      same_shape f a dc (h ∙ ap (λ d. goes_on d) k) ∙ ap (λ x. segregated x) (some-injective a b e),
)

partial_of_inv :
    (f : Flags) (sched : Option Assignment) (attest : Bool) (decoupled : Option DecoupledParams)
    (pp : Option PartialParams)
    → partial_of f sched attest decoupled ≡ goes_on pp
    → (is_on pp ≡ true → is_on sched && (attest || is_on decoupled) ≡ true)
unfolding partial_of
partial_of_inv f sched attest decoupled pp h on = ground (arith, h, on)

accepts :
    (pp : Option PartialParams) (cfg : RunnerConfig)
    → (is_on pp ≡ true → cfg.attest || is_on cfg.decoupled ≡ true)
    → refuse_partial (is_on pp) cfg pp ≡ none
unfolding refuse_partial
accepts none cfg h = refl
accepts (some pp) cfg h = ground (arith, h refl)

checked-AreChecked :
    (f : Flags) (sched : Option Assignment) (decoupled : Option DecoupledParams)
    (pp : Option PartialParams)
    → 0 < settle_window f.startup mesh_join_stagger
    → decoupled_of f sched ≡ goes_on decoupled
    → partial_of f sched (emits f.attestations sched decoupled) decoupled ≡ goes_on pp
    → AreChecked f (record {
      plan = sched;
      attest = emits f.attestations sched decoupled;
      sync = emits f.sync sched decoupled;
      decoupled = decoupled;
      partial = pp;
    })
unfolding emits refuse_partial config_of
checked-AreChecked f sched decoupled pp settled d p =
    let (has_plan, shape) = decoupled_of_inv f sched decoupled d in
    let needs = partial_of_inv f sched (emits f.attestations sched decoupled) decoupled pp p in
    let m : Modes = record {
      plan = sched;
      attest = emits f.attestations sched decoupled;
      sync = emits f.sync sched decoupled;
      decoupled = decoupled;
      partial = pp;
    } in
    record {
      settled = settled;
      planned = λ h. ground (arith, h, has_plan, needs);
      exclusive = ground arith;
      transport = accepts pp (config_of f m) (λ on. ground (arith, needs on));
      shape = shape;
    }

-- Where the flags pass the checks, the settle window is positive; a phase or the partial transport has a
-- plan; the decoupled phase excludes attestations and sync messages, and its shape is that of the
-- plan; and the runner does not refuse the transport.
pub modes_of-AreChecked : (f : Flags) (m : Modes) → modes_of f ≡ goes_on m → AreChecked f m
unfolding modes_of
modes_of-AreChecked f m h = elim (Bool-cases (settle_window f.startup mesh_join_stagger == 0)) [
  | inl short ↦ ground (arith, short, h)
  | inr long ↦
      let (sched, l, h1) = and_then_inv (load f.schedule) _ (rw long at h) in
      let (decoupled, d, h2) = and_then_inv (decoupled_of f sched) _ h1 in
      let (pp, p, h3) =
        and_then_inv (partial_of f sched (emits f.attestations sched decoupled) decoupled) _ h2 in
      subst (AreChecked f) (cc) (checked-AreChecked f sched decoupled pp (ground arith) d p)
]
