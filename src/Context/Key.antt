-- ===== src/Context/Key.antt =====
-- `channelKey` of mcp_server/src/context.ts.
use Prim.Native.Char.{Char, code}
use Prim.Native.String
use Prim.Native.String.{String, [], ◌∷◌}
use text.Mathlib.TextLemmas.{nil-append, cons-append}
use cccollab.Base.{◌≡◌, ◌≢◌, refl, sym, ◌∙◌, arith}
use cccollab.Context.{channel_key}

-- no colon in it
abbrev pub HasNoColon : String → Type 0
HasNoColon [] = Unit
HasNoColon (c ∷ s) = (code c ≢ b':') × HasNoColon s

head_eq : (c d : Char) (s t : String) → c ∷ s ≡ d ∷ t → code c ≡ code d
head_eq c d s t e = ground (arith, e)

tail_eq : (c d : Char) (s t : String) → c ∷ s ≡ d ∷ t → s ≡ t
tail_eq c d s t e = ground (arith, e)

abbrev colon : Char
colon = ":"

two_colons : (n : String) → String.◌++◌ (colon ∷ colon ∷ []) n ≡ colon ∷ colon ∷ n
two_colons n = rw (cons-append, cons-append, nil-append) refl

key_nil : (n : String) → channel_key n [] ≡ colon ∷ colon ∷ n
unfolding channel_key
key_nil n = rw (nil-append) (two_colons n)

key_cons : (n : String) (c : Char) (l : String) → channel_key n (c ∷ l) ≡ c ∷ channel_key n l
unfolding channel_key
key_cons n c l = rw (cons-append) refl

-- Two channels at locations without a colon have one key only if they are one channel.
pub channel_key_injective :
    (n n' l l' : String)
    → HasNoColon l
    → HasNoColon l'
    → channel_key n l ≡ channel_key n' l'
    → (n ≡ n') × (l ≡ l')
channel_key_injective n n' [] [] h h' e =
    let q : colon ∷ colon ∷ n ≡ colon ∷ colon ∷ n' = sym (key_nil n) ∙ e ∙ key_nil n' in
    (tail_eq colon colon n n' (tail_eq colon colon (colon ∷ n) (colon ∷ n') q), refl)
channel_key_injective n n' [] (c ∷ l') h h' e = absurd (
    h'.0 (
      sym
        (head_eq colon c (colon ∷ n) (channel_key n' l') (sym (key_nil n) ∙ e ∙ key_cons n' c l'))))
channel_key_injective n n' (c ∷ l) [] h h' e =
    absurd
      (h.0 (head_eq c colon (channel_key n l) (colon ∷ n') (sym (key_cons n c l) ∙ e ∙ key_nil n')))
channel_key_injective n n' (c ∷ l) (d ∷ l') h h' e =
    let q : c ∷ channel_key n l ≡ d ∷ channel_key n' l' =
      sym (key_cons n c l) ∙ e ∙ key_cons n' d l' in
    let (en, el) =
      channel_key_injective n n' l l' h.1 h'.1
        (tail_eq c d (channel_key n l) (channel_key n' l') q) in
    (en, ground (arith, el, head_eq c d (channel_key n l) (channel_key n' l') q))
