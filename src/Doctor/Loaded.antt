-- ===== src/Doctor/Loaded.antt =====
-- A plugin root that a process was started with is found in the dump of the processes
-- (mcp_server/src/plugin-version.ts).
use text.Mathlib.TextLemmas.{cons-append}
use Prim.Native.String
use Prim.Native.String.{[], ◌∷◌}
use cccollab.Base.{
  String, ◌≡◌, refl, ◌∙◌, ap, true, false, Option, none, some, List, arith, eq_iff, str_eq,
  Bool-cases, Option-cases, inl, inr,
}
use cccollab.Base.Text.{is_empty, strip_prefix, strip_prefix-append}
use cccollab.Base.StrSet.{has, add, has-add}
use cccollab.Doctor.Words.{root_of, words, collect, extract_plugin_roots}

-- What is collected stays.
has-collect_kept :
    (f : String → Option String) (ws found : List String) (r : String)
    → has r found ≡ true
    → has r (collect f ws found) ≡ true
unfolding collect
has-collect_kept f List.[] found r h = h
has-collect_kept f (List.◌∷◌ w ws) found r h = elim (Option-cases (f w)) [
  | inl none_ ↦ rw (none_, collect) (has-collect_kept f ws found r h)
  | inr (s, there) ↦
      rw (there, collect)
        (has-collect_kept f ws (add s found) r (ground (arith, has-add s found r, h)))
]

has-collect :
    (f : String → Option String) (w : String) (ws found : List String) (r : String)
    → has w ws ≡ true
    → f w ≡ some r
    → has r (collect f ws found) ≡ true
unfolding collect has
has-collect f w List.[] found r h e = absurd (ground (arith, h))
has-collect f w (List.◌∷◌ v ws) found r h e = elim (Bool-cases (str_eq v w)) [
  | inl same ↦
      let here : f v ≡ some r = ap f ((eq_iff v w).0 same) ∙ e in
      rw (here, collect)
        (has-collect_kept f ws (add r found) r (ground (arith, has-add r found r, eq_iff r r)))
  | inr other ↦ has-collect f w ws _ r (ground (arith, h, other)) e
]

-- A word of the dump that sets the variable to a path names that path as a root.
pub has-extract_plugin_roots :
    (dump path : String)
    → is_empty path ≡ false
    → has (String.◌++◌ "CLAUDE_PLUGIN_ROOT=" path) (words dump) ≡ true
    → has path (extract_plugin_roots dump) ≡ true
unfolding extract_plugin_roots root_of
has-extract_plugin_roots dump path full h =
    has-collect root_of (String.◌++◌ "CLAUDE_PLUGIN_ROOT=" path) (words dump) List.[] path h
      (rw (strip_prefix-append "CLAUDE_PLUGIN_ROOT=" path) (rw full refl))

-- Nothing that ends in a slash is a prefix of the empty text.
pub strip_prefix-ne_nil : (root : String) → strip_prefix (String.◌++◌ root "/") "" ≡ none
unfolding strip_prefix
strip_prefix-ne_nil [] = refl
strip_prefix-ne_nil (c ∷ root) = rw (cons-append c root "/") refl
