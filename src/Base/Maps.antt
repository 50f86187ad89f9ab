-- ===== src/Base/Maps.antt =====
-- Maps from numbers, as association lists: a key is looked up at its first entry.
use Prim.Native.Nat.{ℕ}
use mathlib.Core.Path.{◌≡◌, refl}
use mathlib.Core.List.{List, [], ◌∷◌}
use mathlib.Core.Option.{Option, none, some}
use native.Mathlib.Omega.{arith}
use eth_slot_sim.Base.Tests.{◌==◌, if◌then◌else◌}

module _ {ℓ} {A : Type ℓ} where
  abbrev pub lookup : ℕ → List (ℕ × A) → Option A
  lookup k [] = none
  lookup k ((j, a) ∷ rest) = let more = lookup k rest in if j == k then some a else more

  -- The value of a key is replaced, or added at the end.
  abbrev pub store : ℕ → A → List (ℕ × A) → List (ℕ × A)
  store k a [] = (k, a) ∷ []
  store k a ((j, b) ∷ rest) =
      let more = store k a rest in if j == k then (k, a) ∷ rest else (j, b) ∷ more

  pub lookup-store :
      (k j : ℕ) (a : A) (m : List (ℕ × A))
      → lookup j (store k a m) ≡ (if k == j then some a else lookup j m)
  lookup-store k j a [] = refl
  lookup-store k j a ((i, b) ∷ rest) = ground (arith, lookup-store k j a rest)
