-- ===== src/Metrics/Recorder.antt =====
-- metrics/tracer.go: the recorder of publishes and receipts. The map of publishes is an association
-- list.
pub mod Reports
pub mod Keys
pub mod Joins
use eth_slot_sim.Base.{
  ℕ, zero, suc, ◌+◌, ◌-◌, Bool, true, false, not, ◌&&◌, ◌||◌, List, [], ◌∷◌, ◌++◌, Option, none,
  some, ltb, leb, ◌==◌, if◌then◌else◌, length, any, keep, contains, ℤ, pos, negsuc, minus_one, bit,
}
use eth_slot_sim.Node.Kinds.{kind_eq}
use eth_slot_sim.Metrics.Ids.{Identity, MsgId}

abbrev pub int_eq : ℤ → ℤ → Bool
int_eq (pos a) (pos b) = a == b
int_eq (negsuc a) (negsuc b) = a == b
int_eq (pos a) (negsuc b) = false
int_eq (negsuc a) (pos b) = false

-- `==` on the keys of the map.
unfoldable pub id_eq : MsgId → MsgId → Bool
id_eq a b =
    kind_eq a.kind b.kind
    && int_eq a.identity.slot b.identity.slot
    && int_eq a.identity.subnet b.identity.subnet
    && int_eq a.identity.attester b.identity.attester
    && int_eq a.identity.origin b.identity.origin

pub record Arrival : Type 0 where
  pub node : ℕ
  pub id : MsgId
  pub delay : ℤ
  pub voted_block : Bool

pub record PubRec : Type 0 where
  pub at : ℕ
  pub voted_block : Bool

pub record Recorder : Type 0 where
  pub published : List (MsgId × PubRec)
  pub arrivals : List Arrival
  pub orphans : ℕ

abbrev pub new_recorder : Recorder
new_recorder = record { published = []; arrivals = []; orphans = 0 }

unfoldable pub store_pub : MsgId → PubRec → List (MsgId × PubRec) → List (MsgId × PubRec)
store_pub id p [] = (id, p) ∷ []
store_pub id p ((other, q) ∷ rest) =
    let more = store_pub id p rest in
    if id_eq other id then (other, p) ∷ rest else (other, q) ∷ more

unfoldable pub find_pub : MsgId → List (MsgId × PubRec) → Option PubRec
find_pub id [] = none
find_pub id ((other, q) ∷ rest) =
    let more = find_pub id rest in if id_eq other id then some q else more

-- `at.Sub(p.at)`
unfoldable pub time_sub : ℕ → ℕ → ℤ
time_sub a b = if leb b a then pos (a - b) else negsuc (b - a - 1)

unfoldable pub on_publish : MsgId → Bool → ℕ → Recorder → Recorder
on_publish id voted_block at r = record {
  published = store_pub id (record { at = at; voted_block = voted_block }) r.published;
  arrivals = r.arrivals;
  orphans = r.orphans;
}

abbrev pub arrival : ℕ → MsgId → ℕ → PubRec → Arrival
arrival rcv id at p = record {
  node = rcv;
  id = id;
  delay = time_sub at p.at;
  voted_block = p.voted_block;
}

unfoldable pub receive_found : ℕ → MsgId → ℕ → Option PubRec → Recorder → Recorder
receive_found rcv id at none r = record {
  published = r.published;
  arrivals = r.arrivals;
  orphans = r.orphans + 1;
}
receive_found rcv id at (some p) r = record {
  published = r.published;
  arrivals = r.arrivals ++ arrival rcv id at p ∷ [];
  orphans = r.orphans;
}

unfoldable pub on_receive : ℕ → MsgId → ℕ → Recorder → Recorder
on_receive rcv id at r = receive_found rcv id at (find_pub id r.published) r
