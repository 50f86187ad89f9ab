-- ===== src/Node/Registry/Numbers.antt =====
-- Decimal numerals in texts, as `fmt.Sprintf` writes and `strconv.Atoi` reads them, and
-- `strings.TrimPrefix` and `strings.CutSuffix`.
use eth_slot_sim.Base.{
  ℕ, zero, suc, ◌+◌, ◌-◌, ◌*◌, ◌/◌, ◌%◌, ◌^◌, ◌&&◌, List, [], ◌∷◌, ◌++◌, Option, none, some, ◌>>=◌,
  ltb, leb, ◌==◌, if◌then◌else◌, length, take, drop,
}
use eth_slot_sim.Node.Kinds.{Kind}
use eth_slot_sim.Node.Registry.{codes, Descriptor, Lookups, text_eq, has_prefix, descriptor_for}

-- The digits of a number below 10 ^ `fuel`.
unfoldable pub digits : ℕ → ℕ → List ℕ
digits zero n = []
digits (suc fuel) n =
    let front = digits fuel (n / 10) in
    if ltb n 10 then (48 + n) ∷ [] else front ++ (48 + n % 10) ∷ []

-- `%d` of a Go `int` that is not negative: 20 digits are enough for 64 bits.
unfoldable pub decimal : ℕ → List ℕ
decimal n = digits 20 n

-- The digits that follow those read so far.
unfoldable pub read_digits : ℕ → List ℕ → Option ℕ
read_digits acc [] = some acc
read_digits acc (c ∷ cs) =
    let rest = read_digits (acc * 10 + (c - 48)) cs in if leb 48 c && leb c 57 then rest else none

-- A magnitude up to the bound; a text without digits is none.
unfoldable pub read_bounded : ℕ → List ℕ → Option ℕ
read_bounded most [] = none
read_bounded most (c ∷ cs) = read_digits 0 (c ∷ cs) >>= λ n. if leb n most then some n else none

-- `strconv.Atoi`, then the test for a negative value: -0 is 0, and `none` stands for an error of
-- either.
unfoldable pub atoi_natural : List ℕ → Option ℕ
atoi_natural [] = none
atoi_natural (c ∷ cs) =
    if c == 45
    then (read_bounded (2 ^ 63) cs >>= λ n. if n == 0 then some 0 else none)
    else (if c == 43 then read_bounded (2 ^ 63 - 1) cs else read_bounded (2 ^ 63 - 1) (c ∷ cs))

unfoldable pub trim_prefix : List ℕ → List ℕ → List ℕ
trim_prefix t p = if has_prefix t p then drop (length p) t else t

unfoldable pub cut_suffix : List ℕ → List ℕ → Option (List ℕ)
cut_suffix t s =
    let at = length t - length s in
    if leb (length s) (length t) && text_eq (drop at t) s then some (take at t) else none

abbrev pub suffix : List ℕ
suffix = codes "/ssz_snappy"

-- The topic of a subnet of a family.
unfoldable pub subnet_topic : List ℕ → ℕ → List ℕ
subnet_topic prefix subnet = prefix ++ (decimal subnet ++ suffix)

abbrev pub attestation_topic : ℕ → List ℕ
attestation_topic subnet = subnet_topic (codes "/eth2/00000000/beacon_attestation_") subnet

abbrev pub finality_vote_topic : ℕ → List ℕ
finality_vote_topic i = subnet_topic (codes "/eth2/00000000/finality_vote_") i

unfoldable pub subnet_of : List ℕ → Descriptor → Option (Kind × ℕ)
subnet_of topic d = cut_suffix (trim_prefix topic d.prefix) suffix >>= λ s.
    atoi_natural s >>= λ subnet. some (d.kind, subnet)

-- `none` is the code's `ok` false.
unfoldable pub partial_kind_for : Lookups → List ℕ → Option (Kind × ℕ)
partial_kind_for lk topic =
    descriptor_for lk topic >>= λ d. if d.partial then subnet_of topic d else none
