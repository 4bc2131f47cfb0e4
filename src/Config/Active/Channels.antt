-- ===== src/Config/Active/Channels.antt =====
-- The first pass of `resolveActive` (mcp_server/src/config/active.ts).
use cccollab.Base.{
  String, ◌≡◌, refl, sym, ◌∙◌, ap, Bool, true, false, ◌&&◌, ◌||◌, List, [], ◌∷◌, ◌++◌, arith,
  eq_iff, str_eq, if◌then◌else◌, length, ltb, Bool-cases, inl, inr,
}
use cccollab.Base.Nullable.{or_else}
use cccollab.Base.Assoc.{Assoc, lookup, lookup-set}
use cccollab.Base.StrSet.{has, add, has-add}
use cccollab.Config.{LocationConfig, ChannelConfig, TopicConfig, or_empty, is_true}
use cccollab.Config.Active.{
  Result, ok, failed, and_then, active_topics, Seen, is_cons, see_channel, see_channels, Scan,
  put_channels, scan_location, scan_locations, active_locations,
}
use cccollab.Config.Active.Spec.{
  any_entry, entry_at, is_active_topic, is_active_channel, has_active_channel,
}

is_cons-active_topics :
    (m : Assoc TopicConfig) → is_cons (active_topics m) ≡ any_entry is_active_topic m
unfolding active_topics any_entry
is_cons-active_topics [] = refl
is_cons-active_topics ((k, t) ∷ m) = ground (arith, is_cons-active_topics m)

is_cons-append : (xs : List String) (x : String) → is_cons (xs ++ x ∷ []) ≡ true
is_cons-append [] x = refl
is_cons-append (y ∷ xs) x = refl

is_cons-add : (x : String) (xs : List String) → is_cons (add x xs) ≡ true
unfolding add has
is_cons-add x [] = refl
is_cons-add x (y ∷ xs) = ground arith

-- The result of two steps comes from a result of the first.
pub and_then-ok {ℓ κ} :
    {A : Type ℓ} {B : Type κ} (r : Result A) (f : A → Result B) (b : B)
    → and_then r f ≡ ok b
    → (a : A) × (r ≡ ok a) × (f a ≡ ok b)
and_then-ok (ok a) f b e = (a, refl, e)
and_then-ok (failed x) f b e = absurd (ground (arith, e))

see_channel-cons :
    (l n : String) (ch : ChannelConfig) (seen s : Seen)
    → see_channel l n ch seen ≡ ok s
    → is_cons s.channels ≡ is_active_channel ch || is_cons seen.channels
unfolding see_channel
see_channel-cons l n ch seen s e =
    let active = is_cons-active_topics (or_empty ch.topics) in
    elim (Bool-cases (ltb 1 (length (active_topics (or_empty ch.topics))))) [
      | inl many ↦ absurd (ground (arith, many, e))
      | inr few ↦ elim (Bool-cases (is_active_channel ch)) [
        | inl yes_ ↦ ground (arith, few, e, active, yes_, is_cons-add n seen.channels)
        | inr no_ ↦ ground (arith, few, e, active, no_)
      ]
    ]

pub see_channels-cons :
    (l : String) (m : Assoc ChannelConfig) (seen s : Seen)
    → see_channels l m seen ≡ ok s
    → is_cons s.channels ≡ any_entry is_active_channel m || is_cons seen.channels
unfolding see_channels any_entry
see_channels-cons l [] seen s e = ground (arith, e)
see_channels-cons l ((n, ch) ∷ m) seen s e =
    let (t, first, rest) = and_then-ok (see_channel l n ch seen) (λ s. see_channels l m s) s e in
    see_channels-cons l m t s rest
    ∙ ap (λ b. any_entry is_active_channel m || b) (see_channel-cons l n ch seen t first)
    ∙ swap (any_entry is_active_channel m) (is_active_channel ch) (is_cons seen.channels)
  where
    swap : (a b c : Bool) → (a || (b || c)) ≡ ((b || a) || c)
    swap true true c = refl
    swap true false c = refl
    swap false true c = refl
    swap false false c = refl

-- the active channels that a scan keeps for a location
abbrev pub kept_at : String → Scan → List String
kept_at n scan = or_else (lookup n scan.by_location) []

kept-put :
    (l n : String) (cs : List String) (m : Assoc (List String))
    → is_cons (or_else (lookup n (put_channels l cs m)) [])
      ≡ (str_eq l n && is_cons cs) || is_cons (or_else (lookup n m) [])
kept-put l n [] m = ground arith
kept-put l n (c ∷ cs) m = ground (arith, lookup-set l (c ∷ cs) m n)

scan_location-cons :
    (l n : String) (loc : LocationConfig) (scan s : Scan)
    → scan_location l loc scan ≡ ok s
    → is_cons (kept_at n s) ≡ (str_eq l n && has_active_channel loc) || is_cons (kept_at n scan)
unfolding scan_location
scan_location-cons l n loc scan s e =
    let begin : Seen = record { channels = []; topic = scan.topic } in
    let (seen, first, rest) = and_then-ok (see_channels l (or_empty loc.channels) begin) _ s e in
    let cons = see_channels-cons l (or_empty loc.channels) begin seen first in
    elim (Bool-cases (ltb 1 (length seen.channels))) [
      | inl many ↦ absurd (ground (arith, many, rest))
      | inr few ↦
          let t : Scan = record {
            by_location = put_channels l seen.channels scan.by_location;
            topic = seen.topic;
          } in
          let same : ok t ≡ ok s = ground (arith, few, rest) in
          ap (λ (s : Scan). is_cons (kept_at n s)) (sym (ok_eq t s same))
          ∙ kept-put l n seen.channels scan.by_location
          ∙ ground (arith, cons)
    ]
  where
    ok_eq : (a b : Scan) → ok a ≡ ok b → a ≡ b
    ok_eq a b q = ground (arith, q)

pub scan_locations-cons :
    (n : String) (m : Assoc LocationConfig) (scan s : Scan)
    → scan_locations m scan ≡ ok s
    → is_cons (kept_at n s) ≡ (entry_at has_active_channel n m || is_cons (kept_at n scan))
unfolding scan_locations entry_at
scan_locations-cons n [] scan s e = ground (arith, e)
scan_locations-cons n ((l, loc) ∷ m) scan s e =
    let (t, first, rest) = and_then-ok (scan_location l loc scan) (λ s. scan_locations m s) s e in
    let here = scan_location-cons l n loc scan t first in
    let there = scan_locations-cons n m t s rest in ground (arith, here, there)

-- pass 2
pub has-active_locations :
    (by_location : Assoc (List String)) (m : Assoc LocationConfig) (names : List String)
    (n : String)
    → has n (active_locations by_location m names) ≡ (
        has n names
        || entry_at (λ l. is_true l.active || is_cons (or_else (lookup n by_location) [])) n m)
unfolding active_locations entry_at
has-active_locations by_location [] names n = ground arith
has-active_locations by_location ((k, l) ∷ m) names n =
    let p = λ (j : String). is_true l.active || is_cons (or_else (lookup j by_location) []) in
    let names' = if p k then add k names else names in
    let first : has n names' ≡ ((str_eq k n && p k) || has n names) =
      ground (arith, has-add k names n) in
    let same : (str_eq k n && p k) ≡ (str_eq k n && p n) = guarded k n p in
    has-active_locations by_location m names' n ∙ ground (arith, first, same)
  where
    eq_of : (j i : String) → str_eq j i ≡ true → j ≡ i
    eq_of j i h = ground (arith, eq_iff j i, h)

    guarded : (j i : String) (p : String → Bool) → (str_eq j i && p j) ≡ (str_eq j i && p i)
    guarded j i p = elim (Bool-cases (str_eq j i)) [
      | inl eq ↦ ap (λ x. str_eq j i && p x) (eq_of j i eq)
      | inr ne ↦ ground (arith, ne)
    ]
