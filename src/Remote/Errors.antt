-- ===== src/Remote/Errors.antt =====
-- How mcp_server/src/transport/remote.ts reads a thrown value.
use Prim.Native.Char.{code}
use cccollab.Base.{
  ℕ, ◌+◌, String, Bool, true, false, not, ◌&&◌, ◌||◌, none, some, List, [], ◌∷◌, eqb, leb, str_eq,
  if◌then◌else◌,
}
use cccollab.Remote.Backend.{Thrown}

-- The code points of a text, with A-Z as a-z: what a pattern of ASCII letters with the flag i sees.
unfoldable pub folded : String → List ℕ
folded String.[] = []
folded (String.◌∷◌ c s) =
    (if leb b'A' (code c) && leb (code c) b'Z' then code c + 32 else code c) ∷ folded s

unfoldable pub has_prefix : List ℕ → List ℕ → Bool
has_prefix [] s = true
has_prefix (p ∷ ps) [] = false
has_prefix (p ∷ ps) (c ∷ s) = eqb p c && has_prefix ps s

unfoldable pub occurs : List ℕ → List ℕ → Bool
occurs p [] = has_prefix p []
occurs p (c ∷ s) = has_prefix p (c ∷ s) || occurs p s

abbrev is_line_end : ℕ → Bool
is_line_end c = eqb c 10 || eqb c 13 || eqb c 8232 || eqb c 8233

-- `.*function`
occurs_on_line : List ℕ → List ℕ → Bool
occurs_on_line p [] = has_prefix p []
occurs_on_line p (c ∷ s) = has_prefix p (c ∷ s) || (not (is_line_end c) && occurs_on_line p s)

-- /Could not find.*function/i, its two words as arguments. The second word cannot begin inside the
-- first one, which holds no end of a line, so it is looked for from the first one's second letter on.
occurs_both : List ℕ → List ℕ → List ℕ → Bool
occurs_both p q [] = false
occurs_both p q (c ∷ s) = (has_prefix p (c ∷ s) && occurs_on_line q s) || occurs_both p q s

-- `err instanceof Error ? err.message : String(err)`
unfoldable pub message_of : Thrown → String
message_of e = if e.is_error then e.message else e.text

-- `extractConvexErrorCode` is the field `code`; this is `extractConvexErrorMessage`
unfoldable pub convex_message : Thrown → String
unfolding message_of
convex_message e = elim e.data_message [ none ↦ message_of e | some m ↦ m ]

unfoldable pub is_function_not_found_error : Thrown → Bool
unfolding folded has_prefix occurs occurs_on_line occurs_both
is_function_not_found_error e =
    e.is_error
    && (str_eq e.name "FunctionNotFoundError"
        || occurs_both (folded "could not find") (folded "function") (folded e.message)
        || occurs (folded "function not found") (folded e.message))

unfoldable pub has_code : String → Thrown → Bool
has_code c e = elim e.code [ none ↦ false | some d ↦ str_eq d c ]

unfoldable pub is_auth_error : Thrown → Bool
unfolding folded has_prefix occurs has_code
is_auth_error e =
    has_code "UNAUTHENTICATED" e
    || (e.is_error && str_eq e.name "UnauthenticatedError")
    || (e.is_error
        && (occurs (folded "unauthenticated") (folded e.message)
            || occurs (folded "not signed in") (folded e.message)
            || occurs (folded "invalid token") (folded e.message)
            || occurs (folded "expired") (folded e.message)))
