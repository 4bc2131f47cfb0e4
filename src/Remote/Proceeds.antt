-- ===== src/Remote/Proceeds.antt =====
-- Every method of mcp_server/src/transport/remote.ts, whatever it finds when an answer comes, moves the
-- transport only as `Evolves` says.
pub mod ChannelCalls
pub mod TopicCalls
pub mod SessionCalls
pub mod Methods
use cccollab.Base.{
  ℕ, String, Bool, true, false, ◌≡◌, refl, sym, Option, none, some, List, [], map, if◌then◌else◌,
  arith, Option-cases, Bool-cases, inl, inr, not, ◌||◌,
}
use cccollab.Base.Assoc.{lookup}
use cccollab.Base.Nullable.{truthy}
use cccollab.Transport.{is_broker_uuid}
use cccollab.Remote.Backend.{
  Ref, Args, Answer, Reply, resolved, rejected, Thrown, ChannelDoc, TopicDoc, TopicListed,
}
use cccollab.Remote.Errors.{has_code, is_function_not_found_error, is_auth_error}
use cccollab.Remote.State.{Remote, org_scoped_args, register_failure, unresolved}
use cccollab.Remote.Calls.{
  Next, finished, waits, Outcome, returned, threw, Failure, state_of, settle, fall_back,
  with_session, when_enabled, mutate, Value, nothing, page,
}
use cccollab.Remote.Calls.Channels
use cccollab.Remote.Calls.Channels.{with_match, find_channel, resolve_channel_id, keep_id}
use cccollab.Remote.Calls.Topics
use cccollab.Remote.Calls.Topics.{know, know_all}
use cccollab.Remote.Calls.Sessions
use cccollab.Remote.Calls.Start.{Method, begin}
use cccollab.Remote.Feeds.{
  subscribe_channel_messages, registered, register, track, fresh_subscription,
}
use cccollab.Remote.Evolves.{Evolves, Evolves-refl, Evolves-trans, register_failure-Evolves}
use cccollab.Remote.Evolves.Learning.{
  know-Evolves, know_all-Evolves, keep_id-Evolves, keep_channel-Evolves, session-Evolves,
}
use cccollab.Remote.Evolves.Feeding.{register-Evolves, track-Evolves}

-- The failures that a method may throw; a value it may always return.
abbrev pub MayEnd : (Failure → Type 0) → Outcome → Type 0
MayEnd A (returned v) = Unit {0}
MayEnd A (threw f) = A f

-- What a method does from here on, whatever is answered, and to which transport.
abbrev pub Continues : (Failure → Type 0) → Next → Type 0
Continues A (finished r o) = MayEnd A o
Continues A (waits r ref args k) =
    (s : Remote) (now : ℕ) (reply : Reply (Answer ref))
    → Evolves s (state_of (k s now reply)) × Continues A (k s now reply)

pub record Proceeds (A : Failure → Type 0) (r : Remote) (n : Next) : Type 0 where
  pub moves : Evolves r (state_of n)
  pub continues : Continues A n

module _ {A : Failure → Type 0} where
  pub ends : (r : Remote) (v : Value) → Proceeds A r (finished r (returned v))
  ends r v = record { moves = Evolves-refl r; continues = tt }

  pub throws : (r : Remote) (f : Failure) → A f → Proceeds A r (finished r (threw f))
  throws r f may = record { moves = Evolves-refl r; continues = may }

  -- a method that ends in a state that it has made
  pub ends_in : (r s : Remote) (v : Value) → Evolves r s → Proceeds A r (finished s (returned v))
  ends_in r s v e = record { moves = e; continues = tt }

  -- what was done before a step that proceeds
  pub after : (r s : Remote) (n : Next) → Evolves r s → Proceeds A s n → Proceeds A r n
  after r s n e p = record { moves = Evolves-trans e p.moves; continues = p.continues }

  settles :
      {B : Type 0} (fail : ℕ → Thrown → Remote → Next) (done : ℕ → B → Remote → Next)
      → ((now : ℕ) (e : Thrown) (s : Remote) → Proceeds A s (fail now e s))
      → ((now : ℕ) (a : B) (s : Remote) → Proceeds A s (done now a s))
      → (s : Remote) (now : ℕ) (reply : Reply B)
      → Evolves s (state_of (settle fail done s now reply))
        × Continues A (settle fail done s now reply)
  unfolding settle
  settles fail done f d s now (resolved a) = ((d now a s).moves, (d now a s).continues)
  settles fail done f d s now (rejected e) = ((f now e s).moves, (f now e s).continues)

  pub falls_back :
      (v : Value) (now : ℕ) (e : Thrown) (s : Remote) → Proceeds A s (fall_back v now e s)
  unfolding fall_back
  falls_back v now e s = ends_in s (register_failure e now s) v (register_failure-Evolves e now s)

  pub with_session-Proceeds :
      (o : Outcome) (go : String → Next) (r : Remote)
      → MayEnd A o
      → ((id : String) → Proceeds A r (go id))
      → Proceeds A r (with_session o go r)
  unfolding with_session
  with_session-Proceeds o go r may h = enabled r.enabled
    where
      session :
          (id : Option String) → Proceeds A r (elim id [ none ↦ finished r o | some id ↦ go id ])
      session none = record { moves = Evolves-refl r; continues = may }
      session (some id) = h id

      enabled :
          (b : Bool)
          → Proceeds A r (elim b [
            | false ↦ finished r o
            | true ↦ elim r.session_id [ none ↦ finished r o | some id ↦ go id ]
          ])
      enabled false = record { moves = Evolves-refl r; continues = may }
      enabled true = session r.session_id

  pub when_enabled-Proceeds :
      (o : Outcome) (go : Next) (r : Remote)
      → MayEnd A o
      → Proceeds A r go
      → Proceeds A r (when_enabled o go r)
  unfolding when_enabled
  when_enabled-Proceeds o go r may h = enabled r.enabled
    where
      enabled : (b : Bool) → Proceeds A r (elim b [ false ↦ finished r o | true ↦ go ])
      enabled false = record { moves = Evolves-refl r; continues = may }
      enabled true = h

  -- a request, and what follows each kind of answer
  pub asks :
      (r : Remote) (ref : Ref) (args : Args) (fail : ℕ → Thrown → Remote → Next)
      (done : ℕ → Answer ref → Remote → Next)
      → ((now : ℕ) (e : Thrown) (s : Remote) → Proceeds A s (fail now e s))
      → ((now : ℕ) (a : Answer ref) (s : Remote) → Proceeds A s (done now a s))
      → Proceeds A r (waits r ref args (settle fail done))
  asks r ref args fail done f d = record {
    moves = Evolves-refl r;
    continues = settles fail done f d;
  }

  pub mutate-Proceeds :
      (ref : Ref) (args : String → Args) (r : Remote) → Proceeds A r (mutate ref args r)
  unfolding mutate
  mutate-Proceeds ref args r =
      with_session-Proceeds _ _ r tt
        (λ id. asks r ref (args id) _ _ (falls_back nothing) (λ now a s. ends s nothing))
