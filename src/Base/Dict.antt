-- ===== src/Base/Dict.antt =====
-- `std::map<std::string, V>`: the entries by increasing key.
use mathlib.Core.Path.{◌≡◌, refl}
use mathlib.Core.Bool.{Bool, true, false}
use mathlib.Core.List.{List, [], ◌∷◌}
use mathlib.Core.Option.{Option, none, some}
use native.Mathlib.Omega.{arith}
use yacl_r.Base.Tests.{Bytes, same, same_iff, ltb, ◌==◌, if◌then◌else◌}

-- `<` of two strings
pub less : Bytes → Bytes → Bool
less [] [] = false
less [] (y ∷ ys) = true
less (x ∷ xs) [] = false
less (x ∷ xs) (y ∷ ys) = if ltb x y then true else if x == y then less xs ys else false

module _ {ℓ} {V : Type ℓ} where
  unfoldable pub lookup : Bytes → List (Bytes × V) → Option V
  lookup k [] = none
  lookup k ((j, v) ∷ m) = if same j k then some v else lookup k m

  -- Serves for a key that is not there yet (`emplace`).
  unfoldable pub insert : Bytes → V → List (Bytes × V) → List (Bytes × V)
  unfolding less
  insert k v [] = (k, v) ∷ []
  insert k v ((j, w) ∷ m) = if less k j then (k, v) ∷ (j, w) ∷ m else (j, w) ∷ insert k v m

  -- The value of a key that is there (`itr->second = v`).
  unfoldable pub update : Bytes → V → List (Bytes × V) → List (Bytes × V)
  update k v [] = []
  update k v ((j, w) ∷ m) = if same j k then (j, v) ∷ m else (j, w) ∷ update k v m

  unfoldable pub erase : Bytes → List (Bytes × V) → List (Bytes × V)
  erase k [] = []
  erase k ((j, w) ∷ m) = if same j k then erase k m else (j, w) ∷ erase k m

  pub lookup-insert :
      (k j : Bytes) (v : V) (m : List (Bytes × V))
      → lookup k m ≡ none
      → lookup j (insert k v m) ≡ (if same k j then some v else lookup j m)
  unfolding lookup insert
  lookup-insert k j v [] h = refl
  lookup-insert k j v ((i, w) ∷ m) h =
      ground (arith, same_iff k j, same_iff i k, same_iff i j, lookup-insert k j v m)

  pub lookup-erase :
      (k j : Bytes) (m : List (Bytes × V))
      → lookup j (erase k m) ≡ (if same k j then none else lookup j m)
  unfolding lookup erase
  lookup-erase k j [] = ground arith
  lookup-erase k j ((i, w) ∷ m) =
      ground (arith, same_iff k j, same_iff i k, same_iff i j, lookup-erase k j m)

  pub lookup-update :
      (k j : Bytes) (v w : V) (m : List (Bytes × V))
      → lookup k m ≡ some w
      → lookup j (update k v m) ≡ (if same k j then some v else lookup j m)
  unfolding lookup update
  lookup-update k j v w [] h = cc
  lookup-update k j v w ((i, u) ∷ m) h =
      ground (arith, same_iff k j, same_iff i k, same_iff i j, lookup-update k j v w m)
