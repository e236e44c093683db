-- ===== src/Common/Maps.antt =====
-- A dictionary as the list of its entries: JavaScript's Map or a Redis hash.
use heimdall_backend.Common.{ℕ, ◌≡◌, List, [], ◌∷◌, Option, none, some, ◌==◌, if◌then◌else◌, arith}

module _ {ℓ} {V : Type ℓ} where
  -- `map.get(key)`
  unfoldable pub lookup : ℕ → List (ℕ × V) → Option V
  lookup key [] = none
  lookup key (entry ∷ rest) = if entry.0 == key then some entry.1 else lookup key rest

  -- `map.set(key, value)`
  unfoldable pub insert : ℕ → V → List (ℕ × V) → List (ℕ × V)
  insert key value [] = (key, value) ∷ []
  insert key value (entry ∷ rest) =
      let later = insert key value rest in
      if entry.0 == key then (key, value) ∷ rest else entry ∷ later

  -- What was set last under a key is found there.
  pub lookup-insert_self :
      (key : ℕ) (value : V) (entries : List (ℕ × V))
      → lookup key (insert key value entries) ≡ some value
  unfolding lookup insert
  lookup-insert_self key value [] = ground arith
  lookup-insert_self key value (entry ∷ rest) = ground (arith, lookup-insert_self key value rest)

  -- Setting a key changes no other.
  pub lookup-insert :
      (key other : ℕ) (value : V) (entries : List (ℕ × V))
      → lookup other (insert key value entries)
        ≡ (if key == other then some value else lookup other entries)
  unfolding lookup insert
  lookup-insert key other value [] = ground arith
  lookup-insert key other value (entry ∷ rest) = ground (arith, lookup-insert key other value rest)
