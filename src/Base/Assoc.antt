-- ===== src/Base/Assoc.antt =====
-- A JavaScript `Map` with string keys: an association list in insertion order. `set` writes a
-- present key in place and appends a new one.
use mathlib.Core.Path.{◌≡◌, refl}
use mathlib.Core.Bool.{Bool, true, false}
use mathlib.Core.Logic.{◌⊎◌}
use mathlib.Core.Option.{Option, none, some}
use mathlib.Core.Option
use mathlib.Core.List.{List, [], ◌∷◌, map}
use native.Mathlib.Omega.{arith}
use Prim.Native.String.{String}
use text.Mathlib.TextEquality.{eq_iff}
use text.Mathlib.Text.{◌==◌}
use cccollab.Base.Tests.{if◌then◌else◌}

abbrev pub Assoc {ℓ} : Type ℓ → Type ℓ
Assoc V = List (String × V)

module _ {ℓ} {V : Type ℓ} where
  unfoldable pub lookup : String → Assoc V → Option V
  lookup k [] = none
  lookup k ((j, v) ∷ m) = if j == k then some v else lookup k m

  unfoldable pub set : String → V → Assoc V → Assoc V
  set k v [] = (k, v) ∷ []
  set k v ((j, w) ∷ m) = if j == k then (j, v) ∷ m else (j, w) ∷ set k v m

  unfoldable pub delete : String → Assoc V → Assoc V
  delete k [] = []
  delete k ((j, v) ∷ m) = let rest = delete k m in if j == k then rest else (j, v) ∷ rest

  -- the methods that mutate each value of the map in place
  unfoldable pub map_values : (V → V) → Assoc V → Assoc V
  map_values f [] = []
  map_values f ((j, v) ∷ m) = (j, f v) ∷ map_values f m

  abbrev pub values : Assoc V → List V
  values m = map (λ e. e.1) m

  abbrev pub is_some : Option V → Bool
  is_some none = false
  is_some (some v) = true

  unfoldable pub contains : String → Assoc V → Bool
  unfolding lookup
  contains k m = is_some (lookup k m)

  pub lookup-set :
      (k : String) (v : V) (m : Assoc V) (j : String)
      → lookup j (set k v m) ≡ (if k == j then some v else lookup j m)
  unfolding lookup set
  lookup-set k v [] j = refl
  lookup-set k v ((i, w) ∷ m) j =
      ground (arith, eq_iff k j, eq_iff i k, eq_iff i j, lookup-set k v m j)

  pub lookup-delete :
      (k : String) (m : Assoc V) (j : String)
      → lookup j (delete k m) ≡ (if k == j then none else lookup j m)
  unfolding lookup delete
  lookup-delete k [] j = ground arith
  lookup-delete k ((i, w) ∷ m) j =
      ground (arith, eq_iff k j, eq_iff i k, eq_iff i j, lookup-delete k m j)

  pub lookup-map_values :
      (f : V → V) (m : Assoc V) (j : String) → lookup j (map_values f m) ≡ Option.map f (lookup j m)
  unfolding lookup map_values
  lookup-map_values f [] j = refl
  lookup-map_values f ((i, w) ∷ m) j = ground (arith, lookup-map_values f m j)

  -- What is found after a write is what was written, or was there.
  pub lookup-set_cases :
      (k : String) (v : V) (m : Assoc V) (j : String) (w : V)
      → lookup j (set k v m) ≡ some w
      → ((k ≡ j) × (v ≡ w)) ⊎ (lookup j m ≡ some w)
  lookup-set_cases k v m j w e = ground (arith, lookup-set k v m j, eq_iff k j, e)
