-- ===== src/Node/Partial/Publishing/Keys.antt =====
-- node/partial.go: a group key on the wire.
use eth_slot_sim.Base.{
  ℕ, ◌+◌, ◌-◌, ◌*◌, ◌/◌, ◌%◌, ◌^◌, ◌≡◌, List, [], ◌∷◌, ◌++◌, arith, length, drop, replicate,
}
use eth_slot_sim.Node.Partial.Publishing.{wire_key}

-- `groupKeyBytes`: four bytes, the most significant first.
unfoldable pub group_key_bytes : ℕ → List ℕ
group_key_bytes group =
    let k = wire_key group in k / 2 ^ 24 ∷ k / 2 ^ 16 % 256 ∷ k / 2 ^ 8 % 256 ∷ k % 256 ∷ []

abbrev pub big_endian : ℕ → List ℕ → ℕ
big_endian acc [] = acc
big_endian acc (b ∷ bs) = big_endian (acc * 256 + b) bs

-- `groupKeyFromID`: the last four bytes, with zeros before a shorter input.
unfoldable pub group_key_from_id : List ℕ → ℕ
group_key_from_id id =
    let last = drop (length id - 4) id in big_endian 0 (replicate (4 - length last) 0 ++ last)

-- The key that is read back from the bytes of a group key is that key, modulo 2 ^ 32.
pub group_key_from_id-group_key_bytes :
    (group : ℕ) → group_key_from_id (group_key_bytes group) ≡ group % 2 ^ 32
unfolding group_key_from_id group_key_bytes
group_key_from_id-group_key_bytes group = omega arith
