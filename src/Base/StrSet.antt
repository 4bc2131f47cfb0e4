-- ===== src/Base/StrSet.antt =====
-- A JavaScript `Set` of strings, in insertion order.
use mathlib.Core.Path.{◌≡◌, refl}
use mathlib.Core.Bool.{Bool, false, ◌&&◌, ◌||◌, not}
use mathlib.Core.List.{List, [], ◌∷◌, ◌++◌}
use native.Mathlib.Omega.{arith}
use Prim.Native.String.{String}
use text.Mathlib.TextEquality.{eq_iff}
use text.Mathlib.Text.{◌==◌}
use cccollab.Base.Tests.{if◌then◌else◌}

unfoldable pub has : String → List String → Bool
has k [] = false
has k (x ∷ xs) = x == k || has k xs

unfoldable pub add : String → List String → List String
unfolding has
add k xs = if has k xs then xs else xs ++ k ∷ []

unfoldable pub remove : String → List String → List String
remove k [] = []
remove k (x ∷ xs) = let rest = remove k xs in if x == k then rest else x ∷ rest

pub has-append : (j : String) (xs ys : List String) → has j (xs ++ ys) ≡ (has j xs || has j ys)
unfolding has
has-append j [] ys = refl
has-append j (x ∷ xs) ys = ground (arith, has-append j xs ys)

pub has-add : (k : String) (xs : List String) (j : String) → has j (add k xs) ≡ (k == j || has j xs)
unfolding add has
has-add k xs j = ground (arith, has-append j xs (k ∷ []), eq_iff k j)

pub has-remove :
    (k : String) (xs : List String) (j : String) → has j (remove k xs) ≡ (not (k == j) && has j xs)
unfolding remove has
has-remove k [] j = ground arith
has-remove k (x ∷ xs) j = ground (arith, has-remove k xs j, eq_iff k j, eq_iff x k, eq_iff x j)

pub has-ne-nil : (k : String) → has k [] ≡ false
unfolding has
has-ne-nil k = refl
