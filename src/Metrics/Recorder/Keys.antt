-- ===== src/Metrics/Recorder/Keys.antt =====
-- metrics/tracer.go: the map of publishes is keyed by the whole identity of a message.
use eth_slot_sim.Base.{
  ◌≡◌, refl, true, false, List, [], ◌∷◌, some, arith, if◌then◌else◌, ℤ, pos, negsuc, inl, inr,
  Bool-cases,
}
use eth_slot_sim.Metrics.Ids.{MsgId}
use eth_slot_sim.Metrics.Recorder.{int_eq, id_eq, PubRec, store_pub, find_pub}

pub int_eq-cong : (a b c : ℤ) → int_eq a b ≡ true → int_eq a c ≡ int_eq b c
int_eq-cong (pos a) (pos b) (pos c) h = ground arith
int_eq-cong (pos a) (pos b) (negsuc c) h = refl
int_eq-cong (negsuc a) (negsuc b) (pos c) h = refl
int_eq-cong (negsuc a) (negsuc b) (negsuc c) h = ground arith
int_eq-cong (pos a) (negsuc b) c h = cc
int_eq-cong (negsuc a) (pos b) c h = cc

pub id_eq-cong : (a b c : MsgId) → id_eq a b ≡ true → id_eq a c ≡ id_eq b c
unfolding id_eq
id_eq-cong a b c h = ground (
  arith,
  h,
  int_eq-cong a.identity.slot b.identity.slot c.identity.slot,
  int_eq-cong a.identity.subnet b.identity.subnet c.identity.subnet,
  int_eq-cong a.identity.attester b.identity.attester c.identity.attester,
  int_eq-cong a.identity.origin b.identity.origin c.identity.origin,
)

pub int_eq_comm : (a b : ℤ) → int_eq a b ≡ int_eq b a
int_eq_comm (pos a) (pos b) = ground arith
int_eq_comm (pos a) (negsuc b) = refl
int_eq_comm (negsuc a) (pos b) = refl
int_eq_comm (negsuc a) (negsuc b) = ground arith

pub id_eq_comm : (a b : MsgId) → id_eq a b ≡ id_eq b a
unfolding id_eq
id_eq_comm a b = ground (
  arith,
  int_eq_comm a.identity.slot b.identity.slot,
  int_eq_comm a.identity.subnet b.identity.subnet,
  int_eq_comm a.identity.attester b.identity.attester,
  int_eq_comm a.identity.origin b.identity.origin,
)

other_key :
    (key id other : MsgId) → id_eq key id ≡ false → id_eq key other ≡ true → id_eq id other ≡ false
other_key key id other apart it =
    ground (arith, apart, it, id_eq-cong key other id it, id_eq_comm other id)

pub find_pub-store_pub :
    (id other : MsgId) (p : PubRec) (m : List (MsgId × PubRec))
    → find_pub other (store_pub id p m) ≡ (if id_eq id other then some p else find_pub other m)
unfolding find_pub store_pub
find_pub-store_pub id other p [] = refl
find_pub-store_pub id other p ((key, q) ∷ rest) = elim (Bool-cases (id_eq key id)) [
  | inl same ↦ rw same (ground (arith, id_eq-cong key id other same))
  | inr apart ↦ rw apart (elim (Bool-cases (id_eq key other)) [
    | inl it ↦ rw it (ground (arith, other_key key id other apart it))
    | inr no_key ↦ rw no_key (find_pub-store_pub id other p rest)
  ])
]
