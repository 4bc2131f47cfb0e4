-- ===== src/Doctor/Words.antt =====
-- The regular expressions of mcp_server/src/plugin-version.ts and doctor.ts, over the words of a dump.
use Prim.Native.Char.{Char, code}
use Prim.Native.String
use Prim.Native.String.{[], ◌∷◌}
use cccollab.Base.{String, Bool, ◌||◌, Option, none, some, List, if◌then◌else◌, eqb, str_eq}
use cccollab.Base.Text.{is_space, is_empty, strip_prefix}
use cccollab.Base.Nullable.{truthy, ◌>>=◌}
use cccollab.Base.StrSet.{add}

-- `\s`, or a NUL, which is replaced by a newline first
abbrev pub is_break : Char → Bool
is_break c = is_space (code c) || eqb (code c) 0

abbrev pub put_word : String → List String → List String
put_word [] ws = ws
put_word (c ∷ w) ws = List.◌∷◌ (c ∷ w) ws

-- the word at the start, which may be empty, and the words behind it
unfoldable pub cut_word : String → String × List String
cut_word [] = ([], List.[])
cut_word (c ∷ s) =
    let rest = cut_word s in
    if is_break c then ([], put_word rest.0 rest.1) else (c ∷ rest.0, rest.1)

-- the longest runs of `\S`
unfoldable pub words : String → List String
unfolding cut_word
words s = put_word (cut_word s).0 (cut_word s).1

unfoldable pub ends_with : String → String → Bool
ends_with suffix [] = is_empty suffix
ends_with suffix (c ∷ s) = str_eq (c ∷ s) suffix || ends_with suffix s

unfoldable pub after_slash : String → Option String
after_slash [] = none
after_slash (c ∷ s) = let rest = after_slash s in if eqb (code c) b'/' then some s else rest

-- `split('/')`
abbrev pub grow_segment : Char → List String → List String
grow_segment c List.[] = List.◌∷◌ (c ∷ []) List.[]
grow_segment c (List.◌∷◌ w ws) = List.◌∷◌ (c ∷ w) ws

unfoldable pub segments : String → List String
segments [] = List.◌∷◌ [] List.[]
segments (c ∷ s) =
    let rest = segments s in if eqb (code c) b'/' then List.◌∷◌ [] rest else grow_segment c rest

-- CLAUDE_PLUGIN_ROOT=(\S+) as a whole word
unfoldable pub root_of : String → Option String
unfolding strip_prefix
root_of w = strip_prefix "CLAUDE_PLUGIN_ROOT=" w >>= (λ r. truthy (some r))

-- the part of a word from its first slash on, where a launcher's name ends it behind a later slash
unfoldable pub binary_of : String → Option String
unfolding after_slash ends_with
binary_of w = after_slash w >>= (λ t.
    if ends_with "/cccollab" t || ends_with "/cccollab.mjs" t
    then some (String.◌++◌ "/" t)
    else none)

-- a `Set` that is filled in the order of the matches
unfoldable pub collect : (String → Option String) → List String → List String → List String
collect f List.[] found = found
collect f (List.◌∷◌ w ws) found = collect f ws (elim (f w) [ none ↦ found | some r ↦ add r found ])

unfoldable pub extract_plugin_roots : String → List String
unfolding words root_of collect
extract_plugin_roots dump = collect root_of (words dump) List.[]

unfoldable pub extract_server_binaries : String → List String
unfolding words binary_of collect
extract_server_binaries dump = collect binary_of (words dump) List.[]
