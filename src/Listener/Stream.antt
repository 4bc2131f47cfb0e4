-- ===== src/Listener/Stream.antt =====
-- The lines of the SSE stream (mcp_server/src/broker-event-listener.ts) do not depend on how it is
-- cut into chunks.
use Prim.Native.Char.{Char, code}
use Prim.Native.String
use Prim.Native.String.{String, [], ◌∷◌}
use mathlib.Core.List
use mathlib.Core.List.{List}
use text.Mathlib.TextLemmas.{cons-append, append-nil, append_assoc}
use cccollab.Base.{ℕ, ◌≡◌, refl, sym, ap, ◌∙◌, true, false, eqb, Bool-cases, inl, inr}
use cccollab.Listener.{split_lines, on_data, grow_line}

-- The lines of two texts in a row.
abbrev pub then_lines : List String × String → String → List String × String
then_lines (ls, rest) t =
    let more = split_lines (String.◌++◌ rest t) in (List.◌++◌ ls more.0, more.1)

split_newline :
    (c : Char) (s : String)
    → eqb (code c) b'\n' ≡ true
    → split_lines (c ∷ s) ≡ (List.◌∷◌ [] (split_lines s).0, (split_lines s).1)
unfolding split_lines
split_newline c s e = rw (e, split_lines) refl

pub split_other :
    (c : Char) (s : String)
    → eqb (code c) b'\n' ≡ false
    → split_lines (c ∷ s) ≡ grow_line c (split_lines s)
unfolding split_lines
split_other c s e = rw (e, split_lines) refl

grow_line-then_lines :
    (c : Char) (o : List String × String) (t : String)
    → eqb (code c) b'\n' ≡ false
    → grow_line c (then_lines o t) ≡ then_lines (grow_line c o) t
grow_line-then_lines c (List.[], r) t e = sym (
    ap (λ (x : String). (List.◌++◌ List.[] (split_lines x).0, (split_lines x).1))
      (cons-append c r t)
    ∙ flat c (String.◌++◌ r t) e)
  where
    flat :
        (c : Char) (s : String)
        → eqb (code c) b'\n' ≡ false
        → (List.◌++◌ List.[] (split_lines (c ∷ s)).0, (split_lines (c ∷ s)).1)
          ≡ grow_line c (List.◌++◌ List.[] (split_lines s).0, (split_lines s).1)
    flat c s e = rw (split_other c s e) refl
grow_line-then_lines c (List.◌∷◌ l ls, r) t e = refl

empty_lines : split_lines [] ≡ (List.[], [])
unfolding split_lines
empty_lines = refl

pub split_lines-append :
    (s t : String) → split_lines (String.◌++◌ s t) ≡ then_lines (split_lines s) t
split_lines-append [] t = rw (empty_lines) refl
split_lines-append (c ∷ s) t =
    let h = split_lines-append s t in
    elim (Bool-cases (eqb (code c) b'\n')) [
      | inl newline ↦
          rw (cons-append, split_newline c (String.◌++◌ s t) newline, split_newline c s newline, h)
            refl
      | inr other ↦
          rw (cons-append, split_other c (String.◌++◌ s t) other, split_other c s other, h)
            (grow_line-then_lines c (split_lines s) t other)
    ]

-- What stands behind the last newline has none.
grow_line-plain :
    (c : Char) (o : List String × String)
    → eqb (code c) b'\n' ≡ false
    → split_lines o.1 ≡ (List.[], o.1)
    → split_lines (grow_line c o).1 ≡ (List.[], (grow_line c o).1)
grow_line-plain c (List.[], r) e h = split_other c r e ∙ ap (grow_line c) h
grow_line-plain c (List.◌∷◌ l ls, r) e h = h

split_lines-plain : (s : String) → split_lines (split_lines s).1 ≡ (List.[], (split_lines s).1)
split_lines-plain [] = rw (empty_lines) empty_lines
split_lines-plain (c ∷ s) = elim (Bool-cases (eqb (code c) b'\n')) [
  | inl newline ↦ rw (split_newline c s newline) (split_lines-plain s)
  | inr other ↦
      rw (split_other c s other) (grow_line-plain c (split_lines s) other (split_lines-plain s))
]

abbrev pub join_texts : List String → String
join_texts List.[] = []
join_texts (List.◌∷◌ s ss) = String.◌++◌ s (join_texts ss)

-- Whatever texts the chunks decode to, each by itself, `on_data` finds the lines of these texts put
-- together, and keeps what stands behind the last newline.
pub on_data_lem :
    (decode : List ℕ → String) (buffer : String) (chunks : List (List ℕ))
    → split_lines buffer ≡ (List.[], buffer)
    → on_data decode buffer chunks
      ≡ split_lines (String.◌++◌ buffer (join_texts (List.map decode chunks)))
unfolding on_data
on_data_lem decode buffer List.[] h = sym (ap split_lines (append-nil buffer) ∙ h)
on_data_lem decode buffer (List.◌∷◌ chunk chunks) h =
    let read = String.◌++◌ buffer (decode chunk) in
    ap (λ (o : List String × String). (List.◌++◌ (split_lines read).0 o.0, o.1))
      (on_data_lem decode (split_lines read).1 chunks (split_lines-plain read))
    ∙ sym (split_lines-append read (join_texts (List.map decode chunks)))
    ∙ ap split_lines (append_assoc buffer (decode chunk) (join_texts (List.map decode chunks)))
