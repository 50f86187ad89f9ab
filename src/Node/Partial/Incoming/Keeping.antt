-- ===== src/Node/Partial/Incoming/Keeping.antt =====
-- node/partial.go: what the receive path and the verifier callback keep of the floor.
use eth_slot_sim.Base.{
  ℕ, ◌≡◌, refl, sym, ap, ◌∙◌, subst, Bool, true, false, List, [], ◌∷◌, ◌++◌, Option, none, some,
  ◌==◌, if◌then◌else◌, length, lookup, inl, inr, Bool-cases, Option-cases, some-injective,
}
use eth_slot_sim.Node.Kinds.{Kind}
use eth_slot_sim.Node.Partial.Buckets.{BitmapOps, promote}
use eth_slot_sim.Node.Partial.Groups.{
  Topic, partial_kind_for, PartialGroup, PartialManager, find_group, put_group, new_group,
  make_group, found_or_made, get_or_create_group, is_below_floor, with_bucket,
}
use eth_slot_sim.Node.Partial.Incoming.{
  PartsMetadata, BatchedAttestation, Reply, note_metadata, receive_metadatas, take_batch,
  is_malformed, receive_batches, on_incoming_rpc, mark_validated,
}
use eth_slot_sim.Node.Partial.Groups.Floors.{
  is_stale, IsClean, any-put_group, any-append_one, any-find_group,
}

-- What an operation on an RPC keeps: the floor, and that no group is below it.
pub record Keeps (m m' : PartialManager) : Type 0 where
  pub floor_kept : m'.floor ≡ m.floor
  pub clean : IsClean m'

-- The floor allows the group that a topic and a key name.
abbrev IsAllowed : Topic → ℕ → List (ℕ × ℕ) → Type 0
IsAllowed topic key floor =
    (kind : Kind) (subnet : ℕ)
    → partial_kind_for topic ≡ some (kind, subnet)
    → is_below_floor floor kind key ≡ false

-- The two ways to a group, by what is found, what the topic is, and whether the size is 0.
made-Keeps :
    (m m1 : PartialManager) (g new : PartialGroup) (empty : Bool)
    → IsClean m
    → is_stale m.floor new ≡ false
    → make_group empty new m ≡ some (m1, g)
    → Keeps m m1 × (is_stale m.floor g ≡ false)
made-Keeps m m1 g new true h k e = cc
made-Keeps m m1 g new false h k e =
    let same = some-injective _ _ e in
    let grown : PartialManager = record m { groups = m.groups ++ new ∷ [] } in
    let kept : Keeps m grown = record {
      floor_kept = refl;
      clean = any-append_one (is_stale m.floor) m.groups new h k;
    } in
    (
      subst (Keeps m) (ap (λ x. x.0) same) kept,
      subst (λ x. is_stale m.floor x ≡ false) (ap (λ x. x.1) same) k,
    )

module _ (size_of : Kind → ℕ → ℕ → ℕ) (topic : Topic) (key : ℕ) where
  found_or_made-Keeps :
      (m m1 : PartialManager) (g : PartialGroup) (found : Option PartialGroup)
      (kinds : Option (Kind × ℕ))
      → IsClean m
      → ((x : PartialGroup) → found ≡ some x → is_stale m.floor x ≡ false)
      → ((kind : Kind) (subnet : ℕ)
          → kinds ≡ some (kind, subnet)
          → is_below_floor m.floor kind key ≡ false)
      → found_or_made size_of topic key m found kinds ≡ some (m1, g)
      → Keeps m m1 × (is_stale m.floor g ≡ false)
  found_or_made-Keeps m m1 g (some x) kinds h old allowed e =
      let same = some-injective _ _ e in
      (
        subst (Keeps m) (ap (λ y. y.0) same) (record { floor_kept = refl; clean = h }),
        subst (λ y. is_stale m.floor y ≡ false) (ap (λ y. y.1) same) (old x refl),
      )
  found_or_made-Keeps m m1 g none none h old allowed e = cc
  found_or_made-Keeps m m1 g none (some (kind, subnet)) h old allowed e =
      made-Keeps m m1 g (new_group topic key kind subnet (size_of kind subnet key))
        (size_of kind subnet key == 0) h (allowed kind subnet refl) e

  -- The group that is found or made is not below the floor.
  get_or_create_group-Keeps :
      (m m1 : PartialManager) (g : PartialGroup)
      → IsAllowed topic key m.floor
      → IsClean m
      → get_or_create_group size_of topic key m ≡ some (m1, g)
      → Keeps m m1 × (is_stale m.floor g ≡ false)
  unfolding get_or_create_group
  get_or_create_group-Keeps m m1 g allowed h e =
      found_or_made-Keeps m m1 g (find_group topic key m.groups) (partial_kind_for topic) h
        (λ x found. any-find_group (is_stale m.floor) topic key m.groups x h found) allowed e

  -- A group written back, with its kind and key unchanged.
  put-Keeps :
      (m m1 : PartialManager) (g g' : PartialGroup)
      → Keeps m m1
      → is_stale m.floor g' ≡ false
      → Keeps m (record m1 { groups = put_group g' m1.groups })
  put-Keeps m m1 g g' k stale = record {
    floor_kept = k.floor_kept;
    clean =
        any-put_group (is_stale m1.floor) g' m1.groups k.clean
          (subst (λ fl. is_stale fl g' ≡ false) (sym k.floor_kept) stale);
  }

  Keeps-trans : (m m1 m2 : PartialManager) → Keeps m m1 → Keeps m1 m2 → Keeps m m2
  Keeps-trans m m1 m2 x y = record { floor_kept = y.floor_kept ∙ x.floor_kept; clean = y.clean }

  receive_metadatas-Keeps :
      (bits : BitmapOps) (from : ℕ) (mds : List PartsMetadata) (m : PartialManager) (marked : Bool)
      → IsAllowed topic key m.floor
      → IsClean m
      → Keeps m (receive_metadatas bits size_of topic key from mds m marked).manager
  unfolding receive_metadatas
  receive_metadatas-Keeps bits from [] m marked allowed h = record { floor_kept = refl; clean = h }
  receive_metadatas-Keeps bits from (md ∷ mds) m marked allowed h =
      elim (Option-cases (get_or_create_group size_of topic key m)) [
        | inl fails ↦ rw (fails, receive_metadatas) (record { floor_kept = refl; clean = h })
        | inr ((m1, g), made) ↦
            let (k, stale) = get_or_create_group-Keeps m m1 g allowed h made in
            let p = put-Keeps m m1 g (note_metadata bits size_of from md g) k stale in
            let m2 : PartialManager = record m1 {
              groups = put_group (note_metadata bits size_of from md g) m1.groups;
            } in
            rw (made, receive_metadatas)
              (Keeps-trans m m2 _ p (
                receive_metadatas-Keeps bits from mds m2 _
                  (subst (IsAllowed topic key) (sym p.floor_kept) allowed) p.clean))
      ]

  -- The outcomes of a batch, by whether it is malformed and whether it brings nothing fresh.
  batch-Keeps :
      (m m1 : PartialManager) (marked malformed nothing : Bool) (d : ℕ) (fresh : List ℕ)
      (reply : Reply)
      → Keeps m m1
      → Keeps m reply.manager
      → let out : Reply =
          if malformed
          then record { manager = m1; marked = marked; submitted = []; accepted = false }
          else (if nothing
              then reply
              else record reply { submitted = (d, fresh) ∷ reply.submitted }) in
        Keeps m out.manager
  batch-Keeps m m1 marked true nothing d fresh reply k l = k
  batch-Keeps m m1 marked false true d fresh reply k l = l
  batch-Keeps m m1 marked false false d fresh reply k l = l

  receive_batches-Keeps :
      (bits : BitmapOps) (from : ℕ) (batches : List BatchedAttestation) (m : PartialManager)
      (marked : Bool)
      → IsAllowed topic key m.floor
      → IsClean m
      → Keeps m (receive_batches bits size_of topic key from batches m marked).manager
  unfolding receive_batches
  receive_batches-Keeps bits from [] m marked allowed h = record { floor_kept = refl; clean = h }
  receive_batches-Keeps bits from (batch ∷ rest) m marked allowed h =
      elim (Option-cases (get_or_create_group size_of topic key m)) [
        | inl fails ↦ rw (fails, receive_batches) (record { floor_kept = refl; clean = h })
        | inr ((m1, g), made) ↦
            let (k, stale) = get_or_create_group-Keeps m m1 g allowed h made in
            let (g1, fresh) = take_batch bits size_of from batch g in
            let p = put-Keeps m m1 g g1 k stale in
            let m2 : PartialManager = record m1 { groups = put_group g1 m1.groups } in
            let ih =
              receive_batches-Keeps bits from rest m2 marked
                (subst (IsAllowed topic key) (sym p.floor_kept) allowed) p.clean in
            rw (made, receive_batches)
              (batch-Keeps m m1 marked (is_malformed bits size_of batch g) (length fresh == 0)
                batch.attestation_data fresh
                (receive_batches bits size_of topic key from rest m2 marked) k
                (Keeps-trans m m2 _ p ih))
      ]

  -- What follows the test of the floor.
  both_parts-Keeps :
      (bits : BitmapOps) (from : ℕ) (batches : List BatchedAttestation) (m : PartialManager)
      (noted : Reply) (below accepted : Bool)
      → IsAllowed topic key m.floor
      → IsClean m
      → Keeps m noted.manager
      → let dropped : Reply = record {
        manager = m;
        marked = false;
        submitted = [];
        accepted = true;
      } in
        Keeps m
          (if below
            then dropped
            else (if accepted
                then receive_batches bits size_of topic key from batches noted.manager noted.marked
                else noted)).manager
  both_parts-Keeps bits from batches m noted true accepted allowed h k = record {
    floor_kept = refl;
    clean = h;
  }
  both_parts-Keeps bits from batches m noted false false allowed h k = k
  both_parts-Keeps bits from batches m noted false true allowed h k =
      Keeps-trans m noted.manager _ k (
        receive_batches-Keeps bits from batches noted.manager noted.marked
          (subst (IsAllowed topic key) (sym k.floor_kept) allowed) k.clean)

  pub on_incoming_rpc-Keeps :
      (bits : BitmapOps) (from : ℕ) (mds : List PartsMetadata) (batches : List BatchedAttestation)
      (m : PartialManager)
      → IsClean m
      → Keeps m (on_incoming_rpc bits size_of topic key from mds batches m).manager
  unfolding on_incoming_rpc
  on_incoming_rpc-Keeps bits from mds batches m h = elim (Option-cases (partial_kind_for topic)) [
    | inl other ↦ rw (other, on_incoming_rpc) (record { floor_kept = refl; clean = h })
    | inr ((kind, subnet), known) ↦ elim (Bool-cases (is_below_floor m.floor kind key)) [
      | inl below ↦ rw (known, on_incoming_rpc) (rw below (record { floor_kept = refl; clean = h }))
      | inr above ↦
          let allowed : IsAllowed topic key m.floor = λ kind' subnet' at.
            subst (λ x. is_below_floor m.floor x key ≡ false)
              (ap (λ x. x.0) (some-injective _ _ (sym known ∙ at))) above in
          let noted = receive_metadatas bits size_of topic key from mds m false in
          rw (known, on_incoming_rpc)
            (both_parts-Keeps bits from batches m noted (is_below_floor m.floor kind key)
              noted.accepted allowed h (receive_metadatas-Keeps bits from mds m false allowed h))
    ]
  ]

pub mark_validated-Keeps :
    (topic : Topic) (key d : ℕ) (positions : List ℕ) (m : PartialManager)
    → IsClean m
    → Keeps m (mark_validated topic key d positions m).0
unfolding mark_validated
mark_validated-Keeps topic key d positions m h =
    elim (Option-cases (find_group topic key m.groups)) [
      | inl gone ↦ rw (gone, mark_validated) (record { floor_kept = refl; clean = h })
      | inr (g, found) ↦ elim (Option-cases (lookup d g.buckets)) [
        | inl missing ↦
            rw (found, mark_validated) (rw missing (record { floor_kept = refl; clean = h }))
        | inr (b, there) ↦
            let stale = any-find_group (is_stale m.floor) topic key m.groups g h found in
            rw (found, mark_validated)
              (rw there (record {
                floor_kept = refl;
                clean =
                    any-put_group (is_stale m.floor) (with_bucket d (promote positions b).0 g)
                      m.groups h stale;
              }))
      ]
    ]
