-- ===== src/Context/Stale.antt =====
-- Leaving a channel that is not the active one, in mcp_server/src/context.ts.
use cccollab.Base.{
  String, ◌≡◌, refl, true, false, none, some, arith, Option-cases, Bool-cases, inl, inr,
}
use cccollab.Base.Nullable.{truthy}
use cccollab.Base.Assoc.{lookup, contains}
use cccollab.Runtime.{Runtime}
use cccollab.Context.Topics.{HasUniqueKeys, drop_topics-drops}
use cccollab.Context.{
  ActiveContext, JoinedTopic, normalize_channel_name, is_in, is_ref, drop_topics, leave_channel,
  is_topic_joined, get_thread_ts, get_topic_channel, forget_thread,
}

-- Where no topic is joined twice and the active one is in a channel that is not active, leaving that channel drops the
-- topic from the joined ones and keeps it as the active topic: `getThreadTs` still returns it,
-- `isTopicJoined` denies it, and its channel is unknown.
pub leave_channel_keeps_thread :
    (rt : Runtime) (name location ts : String) (t : JoinedTopic) (c : ActiveContext)
    → HasUniqueKeys c.joined_topics
    → get_thread_ts c ≡ some ts
    → lookup ts c.joined_topics ≡ some t
    → is_in (normalize_channel_name rt name) location t ≡ true
    → is_ref (normalize_channel_name rt name) location c.active_channel ≡ false
    → (get_thread_ts (leave_channel rt name location c).0 ≡ some ts)
      × (is_topic_joined ts (leave_channel rt name location c).0 ≡ false)
      × (get_topic_channel (leave_channel rt name location c).0 ≡ none)
unfolding get_thread_ts leave_channel is_topic_joined contains get_topic_channel
leave_channel_keeps_thread rt name location ts t c h a e i other =
    let gone =
      drop_topics-drops (normalize_channel_name rt name) location c.joined_topics ts t h e i in
    (
      rw (other, leave_channel) a,
      rw (other, leave_channel) (rw (gone, is_topic_joined) refl),
      rw (other, leave_channel) (rw (a, get_topic_channel) (rw gone refl)),
    )

-- After the active channel has been left, the active topic, if there is one, is a joined one.
pub leave_channel_forgets_thread :
    (rt : Runtime) (name location ts : String) (c : ActiveContext)
    → is_ref (normalize_channel_name rt name) location c.active_channel ≡ true
    → get_thread_ts (leave_channel rt name location c).0 ≡ some ts
    → is_topic_joined ts (leave_channel rt name location c).0 ≡ true
unfolding get_thread_ts leave_channel is_topic_joined forget_thread
leave_channel_forgets_thread rt name location ts c here e =
    elim (Option-cases (truthy c.active_thread_ts)) [
      | inl none_ ↦ ground (arith, here, none_, e)
      | inr (s, there) ↦
          elim (Bool-cases
            (contains s (drop_topics (normalize_channel_name rt name) location c.joined_topics))) [
              | inl joined ↦ ground (arith, here, there, joined, e)
              | inr left ↦ ground (arith, here, there, left, e)
            ]
    ]
