-- ===== src/Validator/Filler.antt =====
-- validator/attestation.go: the size of a message with its filler.
use eth_slot_sim.Base.{ℕ, ◌+◌, ◌≤◌, ◌<◌, ◌≡◌, arith}
use eth_slot_sim.Validator.{sized_filler}

-- Where a length under 128 is written in one byte, and one under 16384 in two: a message of the
-- overhead, with the tag, the length and the bytes of its filler, has the target's size or is one
-- byte short of it, if the target leaves room for the tag, a length and a byte, and for no more
-- than 16386 bytes.
pub sized_filler_bounds :
    (varint_size : ℕ → ℕ)
    → ((n : ℕ) → n < 128 → varint_size n ≡ 1)
    → ((n : ℕ) → 128 ≤ n → n < 16384 → varint_size n ≡ 2)
    → (overhead target : ℕ) → overhead + 3 ≤ target
    → target ≤ overhead + 16386
    → let n = sized_filler overhead target in
      let size = overhead + 1 + varint_size n + n in (size ≤ target) × (target ≤ size + 1)
unfolding sized_filler
sized_filler_bounds varint_size short long overhead target room fits =
    let n = sized_filler overhead target in ground (arith, short n, long n)
