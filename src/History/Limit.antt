-- ===== src/History/Limit.antt =====
-- `clampHistoryLimit` of mcp_server/src/history-paging.ts.
use cccollab.Base.{ℕ, ◌≤◌, ◌≡◌, refl, false, Option, none, some, arith, String}
use cccollab.Runtime.{Number, nan, infinite, finite, pos, negsuc, of_ms, floor, is_finite}
use cccollab.History.{
  clamp_history_limit, clamp_number, clamp_floor, history_max_limit, history_default_limit,
}

clamp_number_bounds : (n : Number) → (1 ≤ clamp_number n) × (clamp_number n ≤ history_max_limit)
unfolding clamp_number clamp_floor floor
clamp_number_bounds nan = omega arith
clamp_number_bounds (infinite positive) = omega arith
clamp_number_bounds (finite (pos n) k) = omega arith
clamp_number_bounds (finite (negsuc n) k) = omega arith

clamp_number_default : (n : Number) → is_finite n ≡ false → clamp_number n ≡ history_default_limit
unfolding clamp_number is_finite
clamp_number_default nan h = refl
clamp_number_default (infinite positive) h = refl
clamp_number_default (finite n k) h = cc

clamp_bounds :
    (to_number : String → Number) (raw : Option String)
    → (1 ≤ clamp_history_limit to_number raw)
      × (clamp_history_limit to_number raw ≤ history_max_limit)
unfolding clamp_history_limit
clamp_bounds to_number none = omega arith
clamp_bounds to_number (some s) = clamp_number_bounds (to_number s)

-- A request's limit lies in [1, 200] whatever its text, is 50 without one or where the text is not
-- a finite number, and is the number itself where that is an integer in the range.
pub clamp_history_limit_lem :
    (to_number : String → Number) (raw : Option String)
    → ((1 ≤ clamp_history_limit to_number raw)
        × (clamp_history_limit to_number raw ≤ history_max_limit))
      × (clamp_history_limit to_number none ≡ history_default_limit)
      × ((s : String)
          → is_finite (to_number s) ≡ false
          → clamp_history_limit to_number (some s) ≡ history_default_limit)
      × ((s : String) (n : ℕ)
          → to_number s ≡ of_ms n
          → 1 ≤ n
          → n ≤ history_max_limit
          → clamp_history_limit to_number (some s) ≡ n)
unfolding clamp_history_limit
clamp_history_limit_lem to_number raw = (
  clamp_bounds to_number raw,
  refl,
  λ s h. clamp_number_default (to_number s) h,
  λ s n e l u. rw e (omega arith),
)
