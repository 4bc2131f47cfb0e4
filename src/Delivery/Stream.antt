-- ===== src/Delivery/Stream.antt =====
-- What a listener (mcp_server/src/broker-event-listener.ts) finds in the stream that the broker's
-- `broadcast` (mcp_server/src/broker.ts) has written.
use Prim.Native.Char.{code}
use Prim.Native.String
use Prim.Native.String.{[], ◌∷◌}
use text.Mathlib.TextLemmas.{nil-append, cons-append, append_assoc}
use cccollab.Base.{
  ℕ, map, String, Bool, false, ◌||◌, ◌≡◌, refl, ap, sym, ◌∙◌, List, eqb, arith, All,
}
use cccollab.Base.Text.{strip_prefix, strip_prefix-append}
use cccollab.Broker.State.{Event}
use cccollab.Listener.{split_lines, on_data, grow_line}
use cccollab.Listener.Stream.{on_data_lem, join_texts, split_other, split_lines-append}
use cccollab.Delivery.{Wire, frame, stream, put_event, events_in, event_seen, events_seen}

unfoldable pub has_newline : String → Bool
has_newline [] = false
has_newline (c ∷ s) = eqb (code c) b'\n' || has_newline s

has_newline-append :
    (s t : String)
    → has_newline s ≡ false
    → has_newline t ≡ false
    → has_newline (String.◌++◌ s t) ≡ false
unfolding has_newline
has_newline-append [] t h g = rw (nil-append t) g
has_newline-append (c ∷ s) t h g =
    rw (cons-append c s t) (ground (arith, h, has_newline-append s t, g))

-- What JSON promises: a text without newlines, which is read back as the object that was written.
pub record Passes (wire : Wire) (e : Event) : Type 0 where
  pub one_line : has_newline (wire.stringify e) ≡ false
  pub reads : wire.parse (wire.stringify e) ≡ event_seen wire e

-- the bytes of a text decode to the text
abbrev pub IsUtf8 : Wire → String → Type 0
IsUtf8 wire s = wire.decode (wire.utf8 s) ≡ s

-- the chunks of a stream that is cut into these parts, each of whole characters
abbrev pub chunks_of : Wire → List String → List (List ℕ)
chunks_of wire parts = map wire.utf8 parts

join-decoded :
    (wire : Wire) (parts : List String)
    → All (IsUtf8 wire) parts
    → join_texts (map wire.decode (chunks_of wire parts)) ≡ join_texts parts
join-decoded wire List.[] decodes = refl
join-decoded wire (List.◌∷◌ s ss) (first, rest) =
    ap (λ text. String.◌++◌ text (join_texts (map wire.decode (chunks_of wire ss)))) first
    ∙ ap (String.◌++◌ s) (join-decoded wire ss rest)

split_newline :
    (t : String)
    → split_lines (String.◌++◌ "\n" t) ≡ (List.◌∷◌ [] (split_lines t).0, (split_lines t).1)
unfolding split_lines
split_newline t = split_lines-append "\n" t ∙ rw (nil-append t) refl

-- a line and its newline, before anything
split_line :
    (s t : String)
    → has_newline s ≡ false
    → split_lines (String.◌++◌ s (String.◌++◌ "\n" t))
      ≡ (List.◌∷◌ s (split_lines t).0, (split_lines t).1)
unfolding has_newline
split_line [] t h = rw (nil-append (String.◌++◌ "\n" t)) (split_newline t)
split_line (c ∷ s) t h =
    let rest = String.◌++◌ "\n" t in
    rw (cons-append c s rest) (
      split_other c (String.◌++◌ s rest) (ground (arith, h))
      ∙ ap (grow_line c) (split_line s t (ground (arith, h))))

split_frame :
    (json t : String)
    → has_newline json ≡ false
    → split_lines (String.◌++◌ (frame json) t)
      ≡ (List.◌∷◌ (String.◌++◌ "data: " json) (List.◌∷◌ [] (split_lines t).0), (split_lines t).1)
unfolding has_newline
split_frame json t h =
    ap split_lines (
      append_assoc "data: " (String.◌++◌ json "\n\n") t
      ∙ ap (String.◌++◌ "data: ") (append_assoc json "\n\n" t)
      ∙ ap (λ rest. String.◌++◌ "data: " (String.◌++◌ json rest)) (append_assoc "\n" "\n" t)
      ∙ sym (append_assoc "data: " json (String.◌++◌ "\n" (String.◌++◌ "\n" t))))
    ∙ split_line (String.◌++◌ "data: " json) (String.◌++◌ "\n" t)
        (has_newline-append "data: " json refl h)
    ∙ ap (λ (o : List String × String). (List.◌∷◌ (String.◌++◌ "data: " json) o.0, o.1))
        (split_newline t)

module _ (wire : Wire) where
  events_in-frame :
      (e : Event) (lines : List String)
      → Passes wire e
      → events_in wire (List.◌∷◌ (String.◌++◌ "data: " (wire.stringify e)) (List.◌∷◌ "" lines))
        ≡ put_event (event_seen wire e) (events_in wire lines)
  unfolding events_in strip_prefix
  events_in-frame e lines law =
      rw (strip_prefix-append "data: " (wire.stringify e)) (rw law.reads refl)

  stream_lines :
      (es : List Event)
      → All (Passes wire) es
      → (events_in wire (split_lines (stream wire es)).0 ≡ events_seen wire es)
        × ((split_lines (stream wire es)).1 ≡ "")
  unfolding stream events_in events_seen split_lines
  stream_lines List.[] laws = (refl, refl)
  stream_lines (List.◌∷◌ e es) laws =
      let rest = stream_lines es laws.1 in
      rw (split_frame (wire.stringify e) (stream wire es) laws.0.one_line) (
        events_in-frame e (split_lines (stream wire es)).0 laws.0
            ∙ ap (put_event (event_seen wire e)) rest.0,
        rest.1,
      )

  -- Where the connection cuts what the broker has written into chunks between characters, at whatever
  -- places, and a text's bytes decode to the text, the listener handles the events in their order, each
  -- as the object that the broker made of it, and nothing else; no part of a line is left.
  pub events_in-stream :
      (es : List Event) (parts : List String)
      → All (Passes wire) es
      → All (IsUtf8 wire) parts
      → join_texts parts ≡ stream wire es
      → (events_in wire (on_data wire.decode "" (chunks_of wire parts)).0 ≡ events_seen wire es)
        × ((on_data wire.decode "" (chunks_of wire parts)).1 ≡ "")
  unfolding split_lines
  events_in-stream es parts laws decodes whole =
      let lines : on_data wire.decode "" (chunks_of wire parts) ≡ split_lines (stream wire es) =
        on_data_lem wire.decode "" (chunks_of wire parts) refl
        ∙ ap split_lines (
            nil-append (join_texts (map wire.decode (chunks_of wire parts)))
            ∙ join-decoded wire parts decodes
            ∙ whole) in
      rw lines (stream_lines es laws)
