-- ===== src/Router/Routing.antt =====
-- Where calls are routed (mcp_server/src/transport/router.ts).
use mathlib.Core.Path.{subst}
use cccollab.Base.{
  String, ◌≡◌, ◌≢◌, refl, sym, Bool, true, false, ◌&&◌, Option, some, List, [], ◌∷◌, arith, eq_iff,
  str_eq, Bool-cases, Option-cases, inl, inr,
}
use cccollab.Base.Assoc.{lookup, set, contains, lookup-set, lookup-set_cases}
use cccollab.Router.{
  Transport, Router, build, register, enabled_transports, to, get, get_by_topic_id,
}

-- every transport stands under its own name
abbrev pub IsKeyed : Router → Type 0
IsKeyed router = (k : String) (t : Transport) → lookup k router ≡ some t → t.source ≡ k

set-IsKeyed : (t : Transport) (router : Router) → IsKeyed router → IsKeyed (set t.source t router)
set-IsKeyed t router h k u e = elim (lookup-set_cases t.source t router k u e) [
  | inl (here, q) ↦ subst (λ (u : Transport). u.source ≡ k) q here
  | inr old ↦ h k u old
]

build_from-IsKeyed :
    (router : Router) (ts : List Transport) (r : Router)
    → IsKeyed router
    → build router ts ≡ some r
    → IsKeyed r
unfolding build
build_from-IsKeyed router [] r h e = subst IsKeyed (ground (arith, e)) h
build_from-IsKeyed router (t ∷ ts) r h e = elim (Bool-cases (contains t.source router)) [
  | inl twice ↦ absurd (ground (arith, twice, e))
  | inr new ↦
      build_from-IsKeyed (set t.source t router) ts r (set-IsKeyed t router h)
        (ground (arith, new, e))
]

-- In a router that is built of transports every one stands under its own name.
pub build-IsKeyed : (ts : List Transport) (r : Router) → build [] ts ≡ some r → IsKeyed r
build-IsKeyed ts r e = build_from-IsKeyed [] ts r (λ k t u. absurd (nothing k t u)) e
  where
    nothing : (k : String) (t : Transport) → lookup k [] ≡ some t → ⊥
    nothing k t u = unfold lookup in ground (arith, u)

registered :
    (t : Transport) (replace : Bool) (router r : Router) (prior : Option Transport)
    → register t replace router ≡ some (r, prior)
    → (set t.source t router ≡ r) × (lookup t.source router ≡ prior)
unfolding register
registered t replace router r prior e = elim (Option-cases (lookup t.source router)) [
  | inl none_ ↦ (ground (arith, none_, e), ground (arith, none_, e))
  | inr (p, there) ↦ elim (Bool-cases replace) [
    | inl swap ↦ (ground (arith, there, swap, e), ground (arith, there, swap, e))
    | inr refuse ↦ absurd (ground (arith, there, refuse, e))
  ]
]

-- After a `register` that does not throw, a call for the transport's location goes to it if it is
-- enabled, a call for any other location goes where it went, and what is handed back is the transport
-- that stood there.
pub get-register :
    (t : Transport) (replace : Bool) (router r : Router) (prior : Option Transport)
    → register t replace router ≡ some (r, prior)
    → (prior ≡ lookup t.source router)
      × (t.enabled ≡ true → get t.source r ≡ to t)
      × ((name : String) → name ≢ t.source → lookup name r ≡ lookup name router)
unfolding get
get-register t replace router r prior e =
    let (set_, was) = registered t replace router r prior e in
    let here : lookup t.source r ≡ some t =
      subst (λ (r : Router). lookup t.source r ≡ some t) set_
        (ground (arith, lookup-set t.source t router t.source, eq_iff t.source t.source)) in
    (
      sym was,
      λ on. rw (here, get) (rw on refl),
      λ name ne.
          subst (λ (r : Router). lookup name r ≡ lookup name router) set_
            (ground (arith, lookup-set t.source t router name, eq_iff t.source name, ne)),
    )

owner_first :
    (id : String) (router : Router) (t : Transport)
    → get_by_topic_id id router ≡ some t
    → (t.enabled ≡ true) × (t.has_topic id ≡ true)
unfolding get_by_topic_id enabled_transports
owner_first id [] t e = absurd (ground (arith, e))
owner_first id ((k, u) ∷ m) t e = elim (Bool-cases u.enabled) [
  | inr off ↦ owner_first id m t (ground (arith, off, e))
  | inl on ↦ elim (Bool-cases (u.has_topic id)) [
    | inr foreign ↦ owner_first id m t (ground (arith, on, foreign, e))
    | inl owns ↦
        let q : u ≡ t = ground (arith, on, owns, e) in
        subst (λ (t : Transport). (t.enabled ≡ true) × (t.has_topic id ≡ true)) q (on, owns)
  ]
]

owner_found :
    (id : String) (router : Router) (k : String) (t : Transport)
    → lookup k router ≡ some t
    → t.enabled ≡ true
    → t.has_topic id ≡ true
    → (o : Transport) × (get_by_topic_id id router ≡ some o)
unfolding get_by_topic_id enabled_transports lookup
owner_found id [] k t e on owns = absurd (ground (arith, e))
owner_found id ((j, u) ∷ m) k t e on owns = elim (Bool-cases (u.enabled && u.has_topic id)) [
  | inl here ↦ (u, ground (arith, here))
  | inr not_here ↦ elim (Bool-cases (str_eq j k)) [
    | inl same ↦
        let q : u ≡ t = ground (arith, same, e) in
        absurd (
          ground (
            arith,
            subst (λ (u : Transport). u.enabled && u.has_topic id ≡ false) q not_here,
            on,
            owns,
          ))
    | inr other ↦
        let (o, f) = owner_found id m k t (ground (arith, other, e)) on owns in
        (o, ground (arith, not_here, f))
  ]
]

-- A call on a topic goes to an enabled transport that claims the topic, and there is such a call
-- wherever an enabled transport of the router claims it.
pub get_by_topic_id_lem :
    (id : String) (router : Router)
    → ((t : Transport)
        → get_by_topic_id id router ≡ some t
        → (t.enabled ≡ true) × (t.has_topic id ≡ true))
      × ((k : String) (t : Transport)
          → lookup k router ≡ some t
          → t.enabled ≡ true
          → t.has_topic id ≡ true
          → (o : Transport) × (get_by_topic_id id router ≡ some o))
get_by_topic_id_lem id router = (owner_first id router, owner_found id router)
