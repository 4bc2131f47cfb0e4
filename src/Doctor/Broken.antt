-- ===== src/Doctor/Broken.antt =====
-- Which roots a dump can name (mcp_server/src/plugin-version.ts).

use Prim.Native.String.{[], ◌∷◌}
use cccollab.Base.{
  String, ◌≡◌, refl, Bool, true, false, ◌||◌, some, List, arith, eq_iff, Bool-cases, Option-cases,
  inl, inr, All, All-append,
}
use cccollab.Base.Text.{strip_prefix}
use cccollab.Base.StrSet.{has, add}
use cccollab.Doctor.Words.{
  is_break, put_word, cut_word, words, root_of, collect, extract_plugin_roots,
}

unfoldable pub has_break : String → Bool
has_break [] = false
has_break (c ∷ s) = is_break c || has_break s

abbrev IsWhole : String → Type 0
IsWhole w = has_break w ≡ false

put_word-IsWhole :
    (w : String) (ws : List String) → IsWhole w → All IsWhole ws → All IsWhole (put_word w ws)
put_word-IsWhole [] ws h hs = hs
put_word-IsWhole (c ∷ w) ws h hs = (h, hs)

or_false : (a b : Bool) → a ≡ false → b ≡ false → (a || b) ≡ false
or_false true b e f = e
or_false false b e f = f

cut_word-IsWhole : (s : String) → IsWhole (cut_word s).0 × All IsWhole (cut_word s).1
unfolding cut_word has_break
cut_word-IsWhole [] = (refl, tt)
cut_word-IsWhole (c ∷ s) =
    let (first, rest) = cut_word-IsWhole s in
    elim (Bool-cases (is_break c)) [
      | inl gap ↦
          rw (gap, cut_word) (refl, put_word-IsWhole (cut_word s).0 (cut_word s).1 first rest)
      | inr plain ↦ rw (plain, cut_word) (or_false (is_break c) _ plain first, rest)
    ]

strip_prefix-IsWhole : (p s r : String) → strip_prefix p s ≡ some r → IsWhole s → IsWhole r
unfolding strip_prefix has_break
strip_prefix-IsWhole [] s r e h = ground (arith, e, h)
strip_prefix-IsWhole (c ∷ p) [] r e h = absurd (ground (arith, e))
strip_prefix-IsWhole (c ∷ p) (d ∷ s) r e h =
    strip_prefix-IsWhole p s r (ground (arith, e)) (ground (arith, h))

root_of-IsWhole : (w r : String) → root_of w ≡ some r → IsWhole w → IsWhole r
unfolding root_of
root_of-IsWhole w r e h = elim (Option-cases (strip_prefix "CLAUDE_PLUGIN_ROOT=" w)) [
  | inl none_ ↦ absurd (ground (arith, none_, e))
  | inr (t, there) ↦ strip_prefix-IsWhole "CLAUDE_PLUGIN_ROOT=" w r (ground (arith, there, e)) h
]

add-IsWhole :
    (r : String) (found : List String) → IsWhole r → All IsWhole found → All IsWhole (add r found)
unfolding add
add-IsWhole r found h hs = elim (Bool-cases (has r found)) [
  | inl there ↦ rw (there, add) hs
  | inr new ↦ rw (new, add) (All-append IsWhole found (List.◌∷◌ r List.[]) hs (h, tt))
]

collect-IsWhole :
    (ws found : List String)
    → All IsWhole ws
    → All IsWhole found
    → All IsWhole (collect root_of ws found)
unfolding collect
collect-IsWhole List.[] found h hs = hs
collect-IsWhole (List.◌∷◌ w ws) found (h, rest) hs = elim (Option-cases (root_of w)) [
  | inl none_ ↦ rw (none_, collect) (collect-IsWhole ws found rest hs)
  | inr (r, there) ↦
      rw (there, collect)
        (collect-IsWhole ws (add r found) rest
          (add-IsWhole r found (root_of-IsWhole w r there h) hs))
]

has-All : (p : String) (xs : List String) → All IsWhole xs → has_break p ≡ true → has p xs ≡ false
unfolding has
has-All p List.[] h b = refl
has-All p (List.◌∷◌ x xs) h b = ground (arith, eq_iff x p, h.0, b, has-All p xs h.1 b)

-- A path with a space in it is never found to be in use, whatever the dump: not where it stands there as
-- the plugin root of a live process either.
pub has-extract_plugin_roots_broken :
    (dump path : String) → has_break path ≡ true → has path (extract_plugin_roots dump) ≡ false
unfolding extract_plugin_roots words
has-extract_plugin_roots_broken dump path b =
    let (first, rest) = cut_word-IsWhole dump in
    has-All path (extract_plugin_roots dump)
      (collect-IsWhole (words dump) List.[]
        (put_word-IsWhole (cut_word dump).0 (cut_word dump).1 first rest) tt)
      b
