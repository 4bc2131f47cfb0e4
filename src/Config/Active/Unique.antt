-- ===== src/Config/Active/Unique.antt =====
-- The one active location that `resolveActive` finds (mcp_server/src/config/active.ts).
use mathlib.Core.Path.{subst}
use cccollab.Base.{
  String, ◌≡◌, ◌↔◌, refl, sym, ◌∙◌, Bool, true, false, ◌||◌, Option, none, some, List, [], ◌∷◌,
  arith, eq_iff, str_eq, Option-cases, inl, inr,
}
use cccollab.Base.Nullable.{or_else}
use cccollab.Base.Assoc.{Assoc, lookup}
use cccollab.Base.StrSet.{has}
use cccollab.Config.{CccollabConfig, LocationConfig, is_true, locations_of}
use cccollab.Config.Active.{
  ActiveTopic, ResolvedActive, ok, is_cons, missing, Scan, scan_locations, active_locations,
  nothing_active, in_location, derive, resolve_active,
}
use cccollab.Config.Active.Spec.{entry_at, has_active_channel, location_is_active}
use cccollab.Config.Active.Channels.{
  and_then-ok, kept_at, scan_locations-cons, has-active_locations,
}

abbrev pub no_scan : Scan
no_scan = record { by_location = []; topic = none }

-- A result comes from a scan of both passes.
pub resolved :
    (c : CccollabConfig) (r : ResolvedActive)
    → resolve_active c ≡ ok r
    → (s : Scan) × (scan_locations (locations_of c) no_scan ≡ ok s)
      × (derive (active_locations s.by_location (locations_of c) []) s ≡ ok r)
unfolding resolve_active
resolved c r e = elim (Option-cases (missing (locations_of c))) [
  | inr (name, there) ↦ absurd (ground (arith, there, e))
  | inl none_ ↦
      and_then-ok (scan_locations (locations_of c) no_scan)
        (λ scan. derive (active_locations scan.by_location (locations_of c) []) scan) r
        (ground (arith, none_, e))
]

entry_at-or :
    (p q : LocationConfig → Bool) (n : String) (m : Assoc LocationConfig)
    → entry_at (λ l. p l || q l) n m ≡ (entry_at p n m || entry_at q n m)
unfolding entry_at
entry_at-or p q n [] = refl
entry_at-or p q n ((k, l) ∷ m) = ground (arith, entry_at-or p q n m)

entry_at-some :
    (p q : LocationConfig → Bool) (n : String) (m : Assoc LocationConfig)
    → entry_at q n m ≡ true
    → entry_at (λ l. p l || true) n m ≡ true
unfolding entry_at
entry_at-some p q n [] e = ground (arith, e)
entry_at-some p q n ((k, l) ∷ m) e = ground (arith, entry_at-some p q n m, e)

entry_at-same :
    (p q : LocationConfig → Bool) (n : String) (m : Assoc LocationConfig)
    → ((l : LocationConfig) → p l ≡ q l)
    → entry_at p n m ≡ entry_at q n m
unfolding entry_at
entry_at-same p q n [] e = refl
entry_at-same p q n ((k, l) ∷ m) e = ground (arith, entry_at-same p q n m e, e l)

-- The test of pass 2 and the one of the specification agree.
entry_at-merge :
    (p q : LocationConfig → Bool) (n : String) (m : Assoc LocationConfig) (b : Bool)
    → b ≡ entry_at q n m
    → entry_at (λ l. p l || b) n m ≡ entry_at (λ l. p l || q l) n m
entry_at-merge p q n m true e =
    entry_at-some p q n m (sym e) ∙ ground (arith, entry_at-or p q n m, e)
entry_at-merge p q n m false e =
    entry_at-same (λ l. p l || false) p n m (λ l. ground arith)
    ∙ ground (arith, entry_at-or p q n m, e)

active_at :
    (c : CccollabConfig) (s : Scan) (n : String)
    → scan_locations (locations_of c) no_scan ≡ ok s
    → has n (active_locations s.by_location (locations_of c) [])
      ≡ location_is_active n (locations_of c)
active_at c s n e =
    let m = locations_of c in
    let kept : is_cons (kept_at n s) ≡ entry_at has_active_channel n m =
      scan_locations-cons n m no_scan s e ∙ nothing_kept n (entry_at has_active_channel n m) in
    has-active_locations s.by_location m [] n
    ∙ nothing_had n _
    ∙ entry_at-merge (λ l. is_true l.active) has_active_channel n m (is_cons (kept_at n s)) kept
  where
    nothing_kept : (n : String) (b : Bool) → (b || is_cons (kept_at n no_scan)) ≡ b
    nothing_kept n b = unfold lookup in ground arith

    nothing_had : (n : String) (b : Bool) → (has n [] || b) ≡ b
    nothing_had n b = unfold has in refl

in_location-location :
    (l : String) (cs : List String) (t : Option ActiveTopic)
    → (in_location l cs t).active_location ≡ some l
in_location-location l [] t = refl
in_location-location l (c ∷ []) t = refl
in_location-location l (c ∷ d ∷ cs) t = refl

derive-location :
    (ls : List String) (s : Scan) (r : ResolvedActive) (n : String)
    → derive ls s ≡ ok r
    → (r.active_location ≡ some n) ↔ (has n ls ≡ true)
unfolding has
derive-location [] s r n e =
    let q : nothing_active ≡ r = ground (arith, e) in
    subst (λ (r : ResolvedActive). (r.active_location ≡ some n) ↔ (false ≡ true)) q
      (λ f. absurd (ground (arith, f)), λ f. absurd (ground (arith, f)))
derive-location (l ∷ []) s r n e =
    let cs = or_else (lookup l s.by_location) [] in
    let q : in_location l cs s.topic ≡ r = ground (arith, e) in
    subst (λ (r : ResolvedActive). (r.active_location ≡ some n) ↔ ((str_eq l n || false) ≡ true)) q
      (
        λ f. ground (arith, f, in_location-location l cs s.topic, eq_iff l n),
        λ f. ground (arith, f, in_location-location l cs s.topic, eq_iff l n),
      )
derive-location (l ∷ k ∷ ls) s r n e = absurd (ground (arith, e))

-- Where `resolveActive` does not throw, its active location is the one that is active in the
-- configuration: any location that is active by its own flag, by a channel's or by a topic's is the
-- active one, and there is none otherwise.
pub resolve_active-location :
    (c : CccollabConfig) (r : ResolvedActive) (n : String)
    → resolve_active c ≡ ok r
    → (r.active_location ≡ some n) ↔ (location_is_active n (locations_of c) ≡ true)
resolve_active-location c r n e =
    let (s, scanned, derived) = resolved c r e in
    subst (λ (b : Bool). (r.active_location ≡ some n) ↔ (b ≡ true)) (active_at c s n scanned)
      (derive-location (active_locations s.by_location (locations_of c) []) s r n derived)
