-- ===== src/Base/Dict.antt =====
-- Go's maps as association lists, a key at most once.
use eapol_operator.Base.Tests.{Eq, ◌==◌, if◌then◌else◌}
use eapol_operator.Base.Lists.{In}
use mathlib.Core.Path.{◌≡◌, refl}
use mathlib.Core.Logic.{◌≢◌}
use mathlib.Core.Option.{Option, none, some}
use mathlib.Core.List.{List, [], ◌∷◌}
use native.Mathlib.Omega.{arith}

abbrev pub Dict {ℓ κ} : Type ℓ → Type κ → Type (ℓ ⊔ κ)
Dict K V = List (K × V)

unfoldable pub keys {ℓ κ} : {K : Type ℓ} {V : Type κ} → Dict K V → List K
keys [] = []
keys ((k, _) ∷ m) = k ∷ keys m

module _ {ℓ κ} {K : Type ℓ} {V : Type κ} ⦃e : Eq K⦄ where
  -- `v, ok := m[k]`
  unfoldable pub lookup : K → Dict K V → Option V
  lookup k [] = none
  lookup k ((j, v) ∷ m) = if k == j then some v else lookup k m

  -- `m[k] = v`
  unfoldable pub insert : K → V → Dict K V → Dict K V
  insert k v [] = (k, v) ∷ []
  insert k v ((j, w) ∷ m) = if k == j then (k, v) ∷ m else (j, w) ∷ insert k v m

  -- `delete(m, k)`
  unfoldable pub erase : K → Dict K V → Dict K V
  erase k [] = []
  erase k ((j, w) ∷ m) = let rest = erase k m in if k == j then rest else (j, w) ∷ rest

  abbrev pub NodupKeys : Dict K V → Type κ
  NodupKeys [] = Unit
  NodupKeys ((k, _) ∷ m) = (lookup k m ≡ none) × NodupKeys m

  pub lookup-insert :
      (j k : K) (v : V) (m : Dict K V)
      → lookup j (insert k v m) ≡ (if j == k then some v else lookup j m)
  unfolding lookup insert
  lookup-insert j k v [] = ground arith
  lookup-insert j k v ((i, w) ∷ m) = ground (arith, lookup-insert j k v m)

  pub lookup-erase :
      (j k : K) (m : Dict K V) → lookup j (erase k m) ≡ (if j == k then none else lookup j m)
  unfolding lookup erase
  lookup-erase j k [] = ground arith
  lookup-erase j k ((i, w) ∷ m) = ground (arith, lookup-erase j k m)

  pub insert-NodupKeys : (k : K) (v : V) (m : Dict K V) → NodupKeys m → NodupKeys (insert k v m)
  unfolding insert lookup
  insert-NodupKeys k v [] _ = (refl, tt)
  insert-NodupKeys k v ((j, w) ∷ m) (fresh, u) =
      ground (arith, insert-NodupKeys k v m u, lookup-insert j k v m)

  pub erase-NodupKeys : (k : K) (m : Dict K V) → NodupKeys m → NodupKeys (erase k m)
  unfolding erase
  erase-NodupKeys k [] _ = tt
  erase-NodupKeys k ((j, w) ∷ m) (fresh, u) =
      ground (arith, erase-NodupKeys k m u, lookup-erase j k m)

module _ {K V : Type 0} ⦃e : Eq K⦄ where
  -- A key that is found stands in the list of entries.
  pub In-of_lookup : (k : K) (v : V) (m : Dict K V) → lookup k m ≡ some v → In (k, v) m
  unfolding lookup
  In-of_lookup k v [] h = cc
  In-of_lookup k v ((j, w) ∷ m) h = ground (arith, In-of_lookup k v m)

  pub lookup_of_In :
      (k : K) (v : V) (m : Dict K V) → NodupKeys m → In (k, v) m → lookup k m ≡ some v
  unfolding lookup
  lookup_of_In k v [] u h = absurd h
  lookup_of_In k v ((j, w) ∷ m) (fresh, u) h = ground (arith, lookup_of_In k v m u)

  pub In-keys : (k : K) (m : Dict K V) → lookup k m ≢ none → In k (keys m)
  unfolding lookup keys
  In-keys k [] h = h refl
  In-keys k ((j, w) ∷ m) h = ground (arith, In-keys k m)

  pub lookup_of_keys : (k : K) (m : Dict K V) → In k (keys m) → lookup k m ≢ none
  unfolding lookup keys
  lookup_of_keys k [] h = absurd h
  lookup_of_keys k ((j, w) ∷ m) h = ground (arith, lookup_of_keys k m)
