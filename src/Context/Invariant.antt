-- ===== src/Context/Invariant.antt =====
-- The consistency of an `ActiveContext` (mcp_server/src/context.ts), kept by every operation.
use cccollab.Base.{
  String, ◌≡◌, ◌&&◌, refl, sym, true, false, Bool, Option, none, some, List, [], ◌∷◌, arith, eq_iff,
  str_eq, Bool-cases, inl, inr,
}
use cccollab.Base.Assoc.{
  Assoc, lookup, set, delete, contains, lookup-set, lookup-delete, lookup-set_cases,
}
use mathlib.Core.Path.{subst}
use cccollab.Runtime.{Runtime}
use cccollab.Context.{
  ActiveContext, ChannelSource, SubscribedChannel, JoinedTopic, ChannelRef, channel_key,
  first_channel, join_channel, leave_channel, set_active_channel, join_topic, leave_topic,
  clear_topic,
}
use cccollab.Context.Key.{HasNoColon, channel_key_injective}
use cccollab.Context.Topics.{HasUniqueKeys}

-- every subscription stands under its own key
abbrev pub IsKeyed : Assoc SubscribedChannel → Type 0
IsKeyed m =
    (k : String) (s : SubscribedChannel)
    → lookup k m ≡ some s
    → (k ≡ channel_key s.name s.location) × HasNoColon s.location

-- a subscribed channel, at a location without a colon
abbrev pub IsSubscribed : Assoc SubscribedChannel → String → String → Type 0
IsSubscribed m name location = HasNoColon location × (contains (channel_key name location) m ≡ true)

pub record IsWellFormed (c : ActiveContext) : Type 0 where
  pub keyed : IsKeyed c.subscribed
  pub active :
      (r : ChannelRef) → c.active_channel ≡ some r → IsSubscribed c.subscribed r.name r.location
  pub idle : c.active_channel ≡ none → c.subscribed ≡ []
  pub unique : HasUniqueKeys c.joined_topics
  pub topics :
      (ts : String) (t : JoinedTopic)
      → lookup ts c.joined_topics ≡ some t
      → IsSubscribed c.subscribed t.channel t.location

pub data Operation : Type 0 where
  join : (name : String) → ChannelSource → (location : String) → Operation
  leave : (name location : String) → Operation
  set_active : (name location : String) → Operation
  enter : (thread_ts topic_name channel location : String) → Operation
  exit : (thread_ts : String) → Operation
  clear : Operation

-- An operation that throws changes nothing.
abbrev pub kept : ActiveContext → Option ActiveContext → ActiveContext
kept c none = c
kept c (some c') = c'

abbrev pub joined : ActiveContext → Option (ActiveContext × Bool) → ActiveContext
joined c none = c
joined c (some r) = r.0

unfoldable pub apply : Runtime → Operation → ActiveContext → ActiveContext
apply rt (join name source location) c = joined c (join_channel rt name source location c)
apply rt (leave name location) c = (leave_channel rt name location c).0
apply rt (set_active name location) c = kept c (set_active_channel rt name location c)
apply rt (enter thread_ts topic_name channel location) c =
    kept c (join_topic rt thread_ts topic_name channel location c)
apply rt (exit thread_ts) c = leave_topic thread_ts c
apply rt clear c = clear_topic c

-- The operations of a session in their order.
abbrev pub run : Runtime → List Operation → ActiveContext → ActiveContext
run rt [] c = c
run rt (o ∷ os) c = run rt os (apply rt o c)

-- No location that an operation names has a colon.
abbrev pub HasPlainLocation : Operation → Type 0
HasPlainLocation (join name source location) = HasNoColon location
HasPlainLocation (leave name location) = HasNoColon location
HasPlainLocation (set_active name location) = HasNoColon location
HasPlainLocation (enter thread_ts topic_name channel location) = HasNoColon location
HasPlainLocation (exit thread_ts) = Unit
HasPlainLocation clear = Unit

pub set-IsSubscribed :
    (k : String) (s : SubscribedChannel) (m : Assoc SubscribedChannel) (name location : String)
    → IsSubscribed m name location
    → IsSubscribed (set k s m) name location
unfolding contains
set-IsSubscribed k s m name location (h, e) =
    (h, ground (arith, lookup-set k s m (channel_key name location), e))

pub delete-IsSubscribed :
    (n l : String) (m : Assoc SubscribedChannel) (name location : String)
    → HasNoColon l
    → str_eq name n && str_eq location l ≡ false
    → IsSubscribed m name location
    → IsSubscribed (delete (channel_key n l) m) name location
unfolding contains
delete-IsSubscribed n l m name location hl other (h, e) =
    elim (Bool-cases (str_eq (channel_key n l) (channel_key name location))) [
      | inl same ↦
          let (en, el) =
            channel_key_injective n name l location hl h
              (ground (arith, eq_iff (channel_key n l) (channel_key name location), same)) in
          absurd (ground (arith, eq_iff name n, eq_iff location l, en, el, other))
      | inr differ ↦ (
        h,
        ground (arith, lookup-delete (channel_key n l) m (channel_key name location), differ, e),
      )
    ]

lookup-head :
    (k : String) (s : SubscribedChannel) (m : Assoc SubscribedChannel)
    → lookup k ((k, s) ∷ m) ≡ some s
unfolding lookup
lookup-head k s m = ground (arith, eq_iff k k)

contains-lookup :
    (k : String) (s : SubscribedChannel) (m : Assoc SubscribedChannel)
    → lookup k m ≡ some s
    → contains k m ≡ true
unfolding contains
contains-lookup k s m e = ground (arith, e)

pub first-IsSubscribed :
    (m : Assoc SubscribedChannel) (r : ChannelRef)
    → IsKeyed m
    → first_channel m ≡ some r
    → IsSubscribed m r.name r.location
first-IsSubscribed [] r h e = absurd (ground (arith, e))
first-IsSubscribed ((k, s) ∷ m) r h e =
    let q : record { name = s.name; location = s.location } ≡ r = cc in
    let (own, plain) = h k s (lookup-head k s m) in
    subst (λ (r : ChannelRef). IsSubscribed ((k, s) ∷ m) r.name r.location) q
      (
        plain,
        subst (λ (j : String). contains j ((k, s) ∷ m) ≡ true) own
            (contains-lookup k s ((k, s) ∷ m) (lookup-head k s m)),
      )

pub first-none : (m : Assoc SubscribedChannel) → first_channel m ≡ none → m ≡ []
first-none [] e = refl
first-none ((k, s) ∷ m) e = absurd (ground (arith, e))

pub set-IsKeyed :
    (n l : String) (source : ChannelSource) (m : Assoc SubscribedChannel)
    → HasNoColon l
    → IsKeyed m
    → IsKeyed (set (channel_key n l) (record { name = n; location = l; source = source }) m)
set-IsKeyed n l source m hl h k s e =
    elim (lookup-set_cases (channel_key n l) (record { name = n; location = l; source = source }) m
      k s e) [
        | inl (here, q) ↦
            subst
              (λ (s : SubscribedChannel).
                (k ≡ channel_key s.name s.location) × HasNoColon s.location)
              q (sym here, hl)
        | inr old ↦ h k s old
      ]

pub delete-IsKeyed : (j : String) (m : Assoc SubscribedChannel) → IsKeyed m → IsKeyed (delete j m)
delete-IsKeyed j m h k s e = h k s (ground (arith, lookup-delete j m k, e))

pub new-IsSubscribed :
    (n l : String) (s : SubscribedChannel) (m : Assoc SubscribedChannel)
    → HasNoColon l
    → IsSubscribed (set (channel_key n l) s m) n l
unfolding contains
new-IsSubscribed n l s m hl = (
  hl,
  ground (
    arith,
    lookup-set (channel_key n l) s m (channel_key n l),
    eq_iff (channel_key n l) (channel_key n l),
  ),
)
