-- ===== src/Examples/Wires.antt =====
-- A sync message and a finality vote on the wire.
use eth_slot_sim.Base.{ℕ, ◌+◌, ◌≤◌, ◌<◌, ◌≡◌, refl, Option, some, arith, ltb, if◌then◌else◌, pos}
use eth_slot_sim.Node.Kinds.{Kind}
use eth_slot_sim.Node.Registry.Table.{registry_lookups}
use eth_slot_sim.Node.Registry.Decoding.{Received, decode}
use eth_slot_sim.Node.Registry.Wire.{
  Publication, sync_message, published_id, publisher, made, decode-made,
}
use eth_slot_sim.Validator.{PbMessage, sized_filler}
use eth_slot_sim.Validator.Filler.{sized_filler_bounds}

abbrev sync_publication : Publication
sync_publication = sync_message 7 3 41 (pos 12)

-- Messages stand for their bytes.
abbrev same_message : PbMessage → PbMessage
same_message m = m

abbrev unmarshal_same : Kind → PbMessage → Option PbMessage
unmarshal_same kind m = some m

decode-made_example :
    let m = made (λ c. 20) sync_publication in
    (r : Received) × (decode unmarshal_same registry_lookups m.topic (same_message m.content) 900
      ≡ some r)
    × (r.object ≡ m.content)
    × (r.at ≡ 900)
    × (r.kind ≡ (published_id sync_publication).kind)
    × (r.id ≡ (published_id sync_publication).identity)
    × (r.origin ≡ publisher sync_publication)
decode-made_example =
    decode-made (λ c. 20) same_message unmarshal_same (λ m h. refl) sync_publication 900
      (omega arith)

abbrev short_or_long : ℕ → ℕ
short_or_long n = if ltb n 128 then 1 else 2

short_varint : (n : ℕ) → n < 128 → short_or_long n ≡ 1
short_varint n h = ground arith

long_varint : (n : ℕ) → 128 ≤ n → n < 16384 → short_or_long n ≡ 2
long_varint n h k = ground arith

sized_filler_bounds_example :
    let n = sized_filler 20 240 in
    let size = 20 + 1 + short_or_long n + n in (size ≤ 240) × (240 ≤ size + 1)
sized_filler_bounds_example =
    sized_filler_bounds short_or_long short_varint long_varint 20 240 (omega arith) (omega arith)
