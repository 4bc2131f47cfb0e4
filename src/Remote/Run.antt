-- ===== src/Remote/Run.antt =====
-- Runs of the transport of mcp_server/src/transport/remote.ts: calls in flight, answers in any order,
-- feeds, and the shutdown between them.
use cccollab.Base.{
  ℕ, String, false, ◌≡◌, refl, sym, ap, ◌∙◌, ◌⊎◌, arith, Bool-cases, inl, inr, List, [], ◌∷◌, ◌++◌,
  All, All-append, All-append_left, All-append_right,
}
use mathlib.Core.Bool.{true≢false}
use cccollab.Remote.Backend.{Ref, Args, Answer, Reply, MessageRow, Thrown}
use cccollab.Remote.State.{Remote, Subscription, init, register_subscription_failure}
use cccollab.Remote.Calls.{Next, finished, waits, state_of, Failure, returned, threw}
use cccollab.Remote.Calls.Start.{Method, begin}
use cccollab.Remote.Feeds.{
  is_tracked, subscribe_topic_messages, subscribe_channel_messages, on_update, unsubscribe,
  shutdown, prime_topic_cursor, prime_channel_cursor,
}
use cccollab.Remote.Evolves.{
  Evolves, Evolves-refl, Evolves-trans, IsSound, TrackedIfOpen,
  register_subscription_failure-Evolves,
}
use cccollab.Remote.Evolves.Learning.{prime_topic_cursor-Evolves, prime_channel_cursor-Evolves}
use cccollab.Remote.Evolves.Feeding.{
  subscribe_topic_messages-Evolves, on_update-Evolves, unsubscribe-Evolves,
}
use cccollab.Remote.Evolves.Closing.{shutdown-Evolves}
use cccollab.Remote.Proceeds.{Proceeds, Continues}
use cccollab.Remote.Proceeds.Methods.{Allowed, begin-Proceeds}
use cccollab.Remote.Proceeds.ChannelCalls.{subscribe_channel_messages-Proceeds}

-- The transport, and the calls that have begun.
pub record World : Type 0 where
  pub remote : Remote
  pub calls : List Next

abbrev pub world : Remote → List Next → World
world r calls = record { remote = r; calls = calls }

-- One event. Any call that waits may be answered next, by anything.
pub data Step (lower : String → String) : World → World → Type 0 where
  call :
      (m : Method) (r : Remote) (cs : List Next)
      → Step lower (world r cs) (world (state_of (begin lower m r)) (begin lower m r ∷ cs))
  subscribe_channel :
      (handle : ℕ) (name : String) (r : Remote) (cs : List Next)
      → Step lower (world r cs) (
          world
            (state_of (subscribe_channel_messages lower handle name r))
            (subscribe_channel_messages lower handle name r ∷ cs))
  answer :
      (before after : List Next) (q : Remote) (ref : Ref) (args : Args)
      (k : Remote → ℕ → Reply (Answer ref) → Next) (now : ℕ) (reply : Reply (Answer ref))
      (r : Remote)
      → Step lower
          (world r (before ++ waits q ref args k ∷ after))
          (world (state_of (k r now reply)) (before ++ k r now reply ∷ after))
  subscribe_topic :
      (handle : ℕ) (id name : String) (r : Remote) (cs : List Next)
      → Step lower (world r cs) (world (subscribe_topic_messages handle id name r) cs)
  update :
      (s : Subscription) (rows : List MessageRow) (r : Remote) (cs : List Next)
      → Step lower (world r cs) (world (on_update s rows r).remote cs)
  feed_failed :
      (e : Thrown) (now : ℕ) (r : Remote) (cs : List Next)
      → Step lower (world r cs) (world (register_subscription_failure e now r) cs)
  unsubscribed :
      (handle : ℕ) (r : Remote) (cs : List Next)
      → Step lower (world r cs) (world (unsubscribe handle r) cs)
  primed :
      (id : String) (ts : ℕ) (r : Remote) (cs : List Next)
      → Step lower (world r cs) (world (prime_topic_cursor id ts r) cs)
  channel_primed :
      (name : String) (ts : ℕ) (r : Remote) (cs : List Next)
      → Step lower (world r cs) (world (prime_channel_cursor name ts r) cs)
  shut : (r : Remote) (cs : List Next) → Step lower (world r cs) (world (shutdown r) cs)

pub data Run (lower : String → String) (v : World) : World → Type 0 where
  here : Run lower v v
  next : {w x : World} → Run lower v w → Step lower w x → Run lower v x

-- a call in flight, whatever it throws in the end
abbrev Lasts : Next → Type 0
Lasts = Continues (λ f. Unit {0})

Continues-Lasts : (A : Failure → Type 0) (n : Next) → Continues A n → Lasts n
Continues-Lasts A (finished r (returned v)) h = tt
Continues-Lasts A (finished r (threw f)) h = tt
Continues-Lasts A (waits r ref args k) h =
    λ s now reply. ((h s now reply).0, Continues-Lasts A (k s now reply) (h s now reply).1)

record Moves (v w : World) : Type 0 where
  evolved : Evolves v.remote w.remote
  calls : All Lasts w.calls

Step-Moves :
    (lower : String → String) {v w : World} → Step lower v w → All Lasts v.calls → Moves v w
Step-Moves lower (call m r cs) h =
    let p = begin-Proceeds lower m r in
    record {
      evolved = p.moves;
      calls = (Continues-Lasts (Allowed m) (begin lower m r) p.continues, h);
    }
Step-Moves lower (subscribe_channel handle name r cs) h =
    let p : Proceeds (λ f. Unit {0}) r (subscribe_channel_messages lower handle name r) =
      subscribe_channel_messages-Proceeds lower handle name r in
    record { evolved = p.moves; calls = (p.continues, h) }
Step-Moves lower (answer before after q ref args k now reply r) h =
    let mine = All-append_right Lasts before (waits q ref args k ∷ after) h in
    let here = mine.0 r now reply in
    record {
      evolved = here.0;
      calls =
          All-append Lasts before (k r now reply ∷ after)
            (All-append_left Lasts before (waits q ref args k ∷ after) h) (here.1, mine.1);
    }
Step-Moves lower (subscribe_topic handle id name r cs) h = record {
  evolved = subscribe_topic_messages-Evolves handle id name r;
  calls = h;
}
Step-Moves lower (update s rows r cs) h = record { evolved = on_update-Evolves s rows r; calls = h }
Step-Moves lower (feed_failed e now r cs) h = record {
  evolved = register_subscription_failure-Evolves e now r;
  calls = h;
}
Step-Moves lower (unsubscribed handle r cs) h = record {
  evolved = unsubscribe-Evolves handle r;
  calls = h;
}
Step-Moves lower (primed id ts r cs) h = record {
  evolved = prime_topic_cursor-Evolves r id ts;
  calls = h;
}
Step-Moves lower (channel_primed name ts r cs) h = record {
  evolved = prime_channel_cursor-Evolves r name ts;
  calls = h;
}
Step-Moves lower (shut r cs) h = record { evolved = shutdown-Evolves r; calls = h }

Run-Moves : (lower : String → String) {v w : World} → Run lower v w → All Lasts v.calls → Moves v w
Run-Moves lower {v} here h = record { evolved = Evolves-refl v.remote; calls = h }
Run-Moves lower (next run st) h =
    let before = Run-Moves lower run h in
    let step = Step-Moves lower st before.calls in
    record { evolved = Evolves-trans before.evolved step.evolved; calls = step.calls }

every_feed_closed :
    (r : Remote) (feeds : List Subscription)
    → r.tracked ≡ []
    → All (TrackedIfOpen r.tracked) feeds
    → All (λ (s : Subscription). s.is_open ≡ false) feeds
unfolding is_tracked
every_feed_closed r [] e h = tt
every_feed_closed r (s ∷ ss) e h = (closed, every_feed_closed r ss e h.1)
  where
    closed : s.is_open ≡ false
    closed = elim (Bool-cases s.is_open) [
      | inr closed_now ↦ closed_now
      | inl open_still ↦ absurd (true≢false (sym (h.0 open_still) ∙ ap (is_tracked s.handle) e))
    ]

init-IsSound : IsSound init
init-IsSound = record {
  degraded = λ e. cc;
  shut = λ e. cc;
  swept = λ e. refl;
  below = λ e. omega arith;
  open_tracked = tt;
}

-- Whatever a transport is called for, from its construction on, whatever is answered, in which order,
-- and however many calls are in flight: it is disabled where it has a reason for it or is shut down,
-- has counted less than three failures where it is enabled, has a callback for every open
-- subscription, and has none open after the shutdown. And what has come about stays: it is not
-- enabled again, no shutdown is undone, no known topic and no channel's id is forgotten, and no
-- cursor goes back.
pub Run-IsSound :
    (lower : String → String) {v w : World}
    → Run lower (world init []) v
    → Run lower v w
    → Evolves v.remote w.remote
      × IsSound w.remote
      × ((w.remote.shutdown_started ≡ false)
          ⊎ All (λ (s : Subscription). s.is_open ≡ false) w.remote.subscriptions)
Run-IsSound lower {v} {w} first later =
    let started = Run-Moves lower first tt in
    let going = Run-Moves lower later started.calls in
    let sound = going.evolved.sound (started.evolved.sound init-IsSound) in
    (
      going.evolved,
      sound,
      elim (Bool-cases w.remote.shutdown_started) [
        | inl stopped ↦ inr (
            every_feed_closed w.remote w.remote.subscriptions (sound.swept stopped)
              sound.open_tracked)
        | inr running ↦ inl running
      ],
    )
