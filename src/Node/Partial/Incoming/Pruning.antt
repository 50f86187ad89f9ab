-- ===== src/Node/Partial/Incoming/Pruning.antt =====
-- node/partial.go: a pruned group stays pruned, whatever peers send and the verifier finishes later.
use eth_slot_sim.Base.{ℕ, ◌≡◌, refl, sym, ◌∙◌, subst, true, false, List, [], ◌∷◌, some, arith}
use eth_slot_sim.Node.Kinds.{Kind}
use eth_slot_sim.Node.Partial.Buckets.{BitmapOps}
use eth_slot_sim.Node.Partial.Groups.{
  Topic, PartialGroup, PartialManager, find_group, is_below_floor, is_up_to, seal, prune,
}
use eth_slot_sim.Node.Partial.Incoming.{
  PartsMetadata, BatchedAttestation, on_incoming_rpc, mark_validated,
}
use eth_slot_sim.Node.Partial.Groups.Floors.{
  is_stale, IsClean, any-find_group, any-seal_up_to, prune-floor, prune-IsClean,
}
use eth_slot_sim.Node.Partial.Incoming.Keeping.{Keeps, on_incoming_rpc-Keeps, mark_validated-Keeps}

-- What happens to a manager from outside its node: an RPC of a peer, a verified batch, and the
-- runner's seals and prunes.
pub data ManagerEvent : Type 0 where
  rpc : Topic → ℕ → ℕ → List PartsMetadata → List BatchedAttestation → ManagerEvent
  verified : Topic → ℕ → ℕ → List ℕ → ManagerEvent
  seals : Kind → ℕ → ManagerEvent
  prunes : Kind → ℕ → ManagerEvent

unfoldable pub run_manager :
    BitmapOps → (Kind → ℕ → ℕ → ℕ) → List ManagerEvent → PartialManager → PartialManager
unfolding on_incoming_rpc mark_validated seal prune
run_manager bits size_of [] m = m
run_manager bits size_of (rpc topic key from mds batches ∷ es) m =
    run_manager bits size_of es (on_incoming_rpc bits size_of topic key from mds batches m).manager
run_manager bits size_of (verified topic key d positions ∷ es) m =
    run_manager bits size_of es (mark_validated topic key d positions m).0
run_manager bits size_of (seals kind key ∷ es) m = run_manager bits size_of es (seal kind key m)
run_manager bits size_of (prunes kind key ∷ es) m = run_manager bits size_of es (prune kind key m)

-- The floor rises, and no group is below it.
record Rises (m m' : PartialManager) : Type 0 where
  kept :
      (kind : Kind) (key : ℕ)
      → is_below_floor m.floor kind key ≡ true
      → is_below_floor m'.floor kind key ≡ true
  clean : IsClean m'

Rises-after : (m m1 m2 : PartialManager) → Keeps m m1 → Rises m1 m2 → Rises m m2
Rises-after m m1 m2 x y = record {
  kept = λ kind key b.
      y.kept kind key (subst (λ fl. is_below_floor fl kind key ≡ true) (sym x.floor_kept) b);
  clean = y.clean;
}

run_manager-Rises :
    (bits : BitmapOps) (size_of : Kind → ℕ → ℕ → ℕ) (es : List ManagerEvent) (m : PartialManager)
    → IsClean m
    → Rises m (run_manager bits size_of es m)
unfolding run_manager
run_manager-Rises bits size_of [] m h = record { kept = λ kind key b. b; clean = h }
run_manager-Rises bits size_of (rpc topic key from mds batches ∷ es) m h =
    let k = on_incoming_rpc-Keeps size_of topic key bits from mds batches m h in
    let m1 = (on_incoming_rpc bits size_of topic key from mds batches m).manager in
    Rises-after m m1 _ k (run_manager-Rises bits size_of es m1 k.clean)
run_manager-Rises bits size_of (verified topic key d positions ∷ es) m h =
    let k = mark_validated-Keeps topic key d positions m h in
    let m1 = (mark_validated topic key d positions m).0 in
    Rises-after m m1 _ k (run_manager-Rises bits size_of es m1 k.clean)
run_manager-Rises bits size_of (seals kind key ∷ es) m h =
    let k : Keeps m (seal kind key m) = record {
      floor_kept = refl;
      clean = any-seal_up_to m.floor kind key m.groups ∙ h;
    } in
    Rises-after m (seal kind key m) _ k
      (run_manager-Rises bits size_of es (seal kind key m) k.clean)
run_manager-Rises bits size_of (prunes kind key ∷ es) m h =
    let m1 = prune kind key m in
    let r = run_manager-Rises bits size_of es m1 (prune-IsClean kind key m h) in
    record {
      kept = λ k x b. r.kept k x (ground (arith, prune-floor kind key m k x, b));
      clean = r.clean;
    }

-- No group of a kind is there with a key up to a given one.
abbrev pub IsPrunedUpTo : Kind → ℕ → PartialManager → Type 0
IsPrunedUpTo kind key m =
    (topic : Topic) (x : ℕ) (g : PartialGroup)
    → find_group topic x m.groups ≡ some g
    → is_up_to kind key g ≡ false

-- After a prune of a kind up to a key, on a manager none of whose groups is below a floor, whatever
-- peers send, whichever verified batches come in and whatever else is sealed or pruned, no
-- group of the kind with a key up to that one is found again. The node's own publishes are not
-- among these events.
pub prune-IsPrunedUpTo :
    (bits : BitmapOps) (size_of : Kind → ℕ → ℕ → ℕ) (kind : Kind) (key : ℕ) (es : List ManagerEvent)
    (m : PartialManager)
    → IsClean m
    → IsPrunedUpTo kind key (run_manager bits size_of es (prune kind key m))
prune-IsPrunedUpTo bits size_of kind key es m h topic x g found =
    let m1 = prune kind key m in
    let r = run_manager-Rises bits size_of es m1 (prune-IsClean kind key m h) in
    let m2 = run_manager bits size_of es m1 in
    let fresh = any-find_group (is_stale m2.floor) topic x m2.groups g r.clean found in
    ground (arith, fresh, r.kept g.kind g.key, prune-floor kind key m g.kind g.key)
