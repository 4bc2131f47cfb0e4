-- ===== src/Auth/Times.antt =====
-- The arithmetic on times in mcp_server/src/remote, on JavaScript numbers; sums and products are exact.
use cccollab.Base.{ℕ, ◌+◌, ◌-◌, ◌*◌, ◌^◌, Bool, true, false, not, if◌then◌else◌, ltb, leb}
use cccollab.Runtime.{ℤ, pos, negsuc, Number, nan, infinite, finite}

abbrev pub minus : ℕ → ℕ → ℤ
minus a b = if leb b a then pos (a - b) else negsuc (b - a - 1)

-- `now + expiresIn * 1000`
unfoldable pub expires_at : ℕ → Number → Number
expires_at now nan = nan
expires_at now (infinite positive) = infinite positive
expires_at now (finite (pos n) k) = finite (pos (now * 2 ^ k + n * 1000)) k
expires_at now (finite (negsuc n) k) = finite (minus (now * 2 ^ k) ((n + 1) * 1000)) k

-- `exp * 1000 <= now`
unfoldable pub has_passed : ℕ → Number → Bool
has_passed now nan = false
has_passed now (infinite positive) = not positive
has_passed now (finite (pos n) k) = leb (n * 1000) (now * 2 ^ k)
has_passed now (finite (negsuc n) k) = true

-- `x > y`
unfoldable pub greater : Number → Number → Bool
greater nan y = false
greater (infinite true) nan = false
greater (infinite true) (infinite positive) = not positive
greater (infinite true) (finite n k) = true
greater (infinite false) y = false
greater (finite n k) nan = false
greater (finite n k) (infinite positive) = not positive
greater (finite (pos a) j) (finite (pos b) k) = ltb (b * 2 ^ j) (a * 2 ^ k)
greater (finite (pos a) j) (finite (negsuc b) k) = true
greater (finite (negsuc a) j) (finite (pos b) k) = false
greater (finite (negsuc a) j) (finite (negsuc b) k) = ltb ((a + 1) * 2 ^ k) ((b + 1) * 2 ^ j)
