-- ===== src/Context/Run.antt =====
-- A run of operations on an `ActiveContext` (mcp_server/src/context.ts) from the empty one.
use mathlib.Core.Path.{subst}
use cccollab.Base.{
  String, ◌≡◌, refl, ap, Option, none, some, List, [], ◌∷◌, arith, Bool-cases, Option-cases,
  if◌then◌else◌, All, inl, inr,
}
use cccollab.Base.Text.{is_empty}
use cccollab.Base.Assoc.{Assoc, lookup, set, delete, contains}
use cccollab.Runtime.{Runtime}
use cccollab.Context.{
  ActiveContext, ChannelSource, SubscribedChannel, ChannelRef, channel_key, normalize_channel_name,
  is_in, is_ref, first_channel, drop_topics, join_channel, leave_channel, empty_context,
}
use cccollab.Context.Key.{HasNoColon}
use cccollab.Context.Topics.{lookup-drop_topics, lookup-drop_topics_old, drop_topics-HasUniqueKeys}
use cccollab.Context.Invariant.{
  IsKeyed, IsSubscribed, IsWellFormed, Operation, run, joined, join, leave, set_active, enter, exit,
  clear, apply, HasPlainLocation, set-IsSubscribed, delete-IsSubscribed, first-IsSubscribed,
  first-none, set-IsKeyed, delete-IsKeyed, new-IsSubscribed,
}
use cccollab.Context.Keeps.{
  forget_thread-IsWellFormed, set_active-IsWellFormed, join_topic-IsWellFormed,
  leave_topic-IsWellFormed, clear_topic-IsWellFormed,
}

-- `left` of `leave_channel`, with the active channel that it needs
left-IsWellFormed :
    (channel location : String) (c : ActiveContext) (r : Option ChannelRef)
    → HasNoColon location
    → IsWellFormed c
    → ((a : ChannelRef)
        → r ≡ some a
        → IsSubscribed (delete (channel_key channel location) c.subscribed) a.name a.location)
    → (r ≡ none → delete (channel_key channel location) c.subscribed ≡ [])
    → IsWellFormed (record c {
      subscribed = delete (channel_key channel location) c.subscribed;
      joined_topics = drop_topics channel location c.joined_topics;
      active_channel = r;
    })
unfolding is_in
left-IsWellFormed channel location c r hl h a i = record {
  keyed = delete-IsKeyed (channel_key channel location) c.subscribed h.keyed;
  active = a;
  idle = i;
  unique = drop_topics-HasUniqueKeys channel location c.joined_topics h.unique;
  topics = λ ts t e.
      delete-IsSubscribed channel location c.subscribed t.channel t.location hl
        (lookup-drop_topics channel location c.joined_topics ts t e)
        (h.topics ts t (lookup-drop_topics_old channel location c.joined_topics ts t h.unique e));
}

leave_channel-IsWellFormed :
    (rt : Runtime) (name location : String) (c : ActiveContext)
    → HasNoColon location
    → IsWellFormed c
    → IsWellFormed (leave_channel rt name location c).0
unfolding leave_channel delete
leave_channel-IsWellFormed rt name location c hl h =
    let channel = normalize_channel_name rt name in
    let m = delete (channel_key channel location) c.subscribed in
    elim (Bool-cases (is_ref channel location c.active_channel)) [
      | inl here ↦
          rw (here, leave_channel)
            (forget_thread-IsWellFormed _ (
              left-IsWellFormed channel location c (first_channel m) hl h
                (λ a e.
                  first-IsSubscribed m a
                    (delete-IsKeyed (channel_key channel location) c.subscribed h.keyed) e)
                (first-none m)))
      | inr other ↦
          rw (other, leave_channel)
            (left-IsWellFormed channel location c c.active_channel hl h
              (λ a e.
                delete-IsSubscribed channel location c.subscribed a.name a.location hl
                  (ground (arith, e, other)) (h.active a e))
              (λ e. ap (delete (channel_key channel location)) (h.idle e)))
    ]

-- `subscribed` of `join_channel`
subscribe : String → String → ChannelSource → Assoc SubscribedChannel → Assoc SubscribedChannel
subscribe channel location source m =
    if contains (channel_key channel location) m
    then m
    else set (channel_key channel location)
        (record { name = channel; location = location; source = source }) m

subscribed_channel :
    (n l : String) (source : ChannelSource) (c : ActiveContext)
    → HasNoColon l
    → IsWellFormed c
    → IsKeyed (subscribe n l source c.subscribed)
      × IsSubscribed (subscribe n l source c.subscribed) n l
      × ((name location : String)
          → IsSubscribed c.subscribed name location
          → IsSubscribed (subscribe n l source c.subscribed) name location)
unfolding subscribe
subscribed_channel n l source c hl h =
    let s : SubscribedChannel = record { name = n; location = l; source = source } in
    elim (Bool-cases (contains (channel_key n l) c.subscribed)) [
      | inl there ↦ rw (there) (h.keyed, (hl, there), λ name location k. k)
      | inr missing ↦ rw (missing) (
        set-IsKeyed n l source c.subscribed hl h.keyed,
        new-IsSubscribed n l s c.subscribed hl,
        λ name location k. set-IsSubscribed (channel_key n l) s c.subscribed name location k,
      )
    ]

join_channel-IsWellFormed :
    (rt : Runtime) (name : String) (source : ChannelSource) (location : String) (c : ActiveContext)
    → HasNoColon location
    → IsWellFormed c
    → IsWellFormed (joined c (join_channel rt name source location c))
unfolding join_channel subscribe
join_channel-IsWellFormed rt name source location c hl h =
    let channel = normalize_channel_name rt name in
    let (k, new, old) = subscribed_channel channel location source c hl h in
    elim (Bool-cases (is_empty channel)) [
      | inl empty ↦ rw (empty, join_channel) h
      | inr named ↦ elim (Option-cases c.active_channel) [
        | inl none_ ↦
            rw (named, join_channel)
              (rw none_ (record {
                keyed = k;
                active = λ r e.
                    subst
                      (λ (r : ChannelRef).
                        IsSubscribed (subscribe channel location source c.subscribed) r.name
                          r.location)
                      (some_eq (record { name = channel; location = location }) r e) new;
                idle = λ e. absurd (ground (arith, e));
                unique = h.unique;
                topics = λ ts t e. old t.channel t.location (h.topics ts t e);
              }))
        | inr (r, there) ↦
            rw (named, join_channel)
              (rw there (record {
                keyed = k;
                active = λ a e. old a.name a.location (h.active a (ground (arith, there, e)));
                idle = λ e. absurd (ground (arith, e, there));
                unique = h.unique;
                topics = λ ts t e. old t.channel t.location (h.topics ts t e);
              }))
      ]
    ]
  where
    some_eq : (r r' : ChannelRef) → some r ≡ some r' → r ≡ r'
    some_eq r r' e = cc

apply-IsWellFormed :
    (rt : Runtime) (o : Operation) (c : ActiveContext)
    → HasPlainLocation o
    → IsWellFormed c
    → IsWellFormed (apply rt o c)
unfolding apply
apply-IsWellFormed rt (join name source location) c p h =
    join_channel-IsWellFormed rt name source location c p h
apply-IsWellFormed rt (leave name location) c p h =
    leave_channel-IsWellFormed rt name location c p h
apply-IsWellFormed rt (set_active name location) c p h =
    set_active-IsWellFormed rt name location c p h
apply-IsWellFormed rt (enter ts topic channel location) c p h =
    join_topic-IsWellFormed rt ts topic channel location c p h
apply-IsWellFormed rt (exit ts) c p h = leave_topic-IsWellFormed ts c h
apply-IsWellFormed rt clear c p h = clear_topic-IsWellFormed c h

empty-IsWellFormed : IsWellFormed empty_context
unfolding lookup
empty-IsWellFormed = record {
  keyed = λ k s e. absurd (ground (arith, e));
  active = λ r e. absurd (ground (arith, e));
  idle = λ e. refl;
  unique = tt;
  topics = λ ts t e. absurd (ground (arith, e));
}

run_from-IsWellFormed :
    (rt : Runtime) (os : List Operation) (c : ActiveContext)
    → All HasPlainLocation os
    → IsWellFormed c
    → IsWellFormed (run rt os c)
run_from-IsWellFormed rt [] c p h = h
run_from-IsWellFormed rt (o ∷ os) c (p, ps) h =
    run_from-IsWellFormed rt os (apply rt o c) ps (apply-IsWellFormed rt o c p h)

-- After any operations of a session whose locations have no colon, in any order and whether or not
-- they throw: every subscription stands under its own key, there is an active channel unless
-- nothing is subscribed, and the active channel and the channel of every joined topic are
-- subscribed.
pub run-IsWellFormed :
    (rt : Runtime) (os : List Operation)
    → All HasPlainLocation os
    → IsWellFormed (run rt os empty_context)
run-IsWellFormed rt os p = run_from-IsWellFormed rt os empty_context p empty-IsWellFormed
