-- ===== src/Runtime.antt =====
-- What the program takes from the JavaScript runtime and does not implement: the Unicode case
-- table, the number and URL grammars, and JSON. They are a parameter of the model.
use cccollab.Base.{ℕ, ◌*◌, ◌/◌, ◌^◌, String, Bool, true, false, Option, List, ltb}

pub data ℤ : Type 0 where
  pos : ℕ → ℤ
  negsuc : ℕ → ℤ

-- A JavaScript number: not a number, an infinity (`true` is the positive one), or the double
-- n / 2 ^ k.
pub data Number : Type 0 where
  nan : Number
  infinite : Bool → Number
  finite : ℤ → ℕ → Number

-- `Number.isFinite`
unfoldable pub is_finite : Number → Bool
is_finite (finite n k) = true
is_finite _ = false

-- `Math.floor` of the finite double n / 2 ^ k
unfoldable pub floor : ℤ → ℕ → ℤ
floor (pos n) k = pos (n / 2 ^ k)
floor (negsuc n) k = negsuc (n / 2 ^ k)

-- `t < n` for an epoch-ms timestamp
unfoldable pub before_number : ℕ → Number → Bool
before_number t nan = false
before_number t (infinite positive) = positive
before_number t (finite (pos n) k) = ltb (t * 2 ^ k) n
before_number t (finite (negsuc n) k) = false

-- The number of an integer.
abbrev pub of_ms : ℕ → Number
of_ms t = finite (pos t) 0

-- A URL after parsing: the path, and the query parameters in order.
pub record Url : Type 0 where
  pub pathname : String
  pub query : List (String × String)

pub record Runtime : Type 0 where
  -- `String.prototype.toLowerCase`
  pub lower : String → String
  -- `Number(text)`
  pub to_number : String → Number
  -- `decodeURIComponent`; `none` where it throws a URIError
  pub decode_uri : String → Option String
  -- `new URL(text, 'http://localhost')`; `none` where it throws a TypeError
  pub parse_url : String → Option Url
  -- `JSON.parse` of a request body's bytes, as the fields with a text value that its object has;
  -- `none` where it throws, and on `null`, whose fields cannot be read
  pub parse_json : List ℕ → Option (List (String × String))
