-- ===== src/Remote/Within.antt =====
-- How many requests a method of mcp_server/src/transport/remote.ts makes.
pub mod Methods
use cccollab.Base.{
  ℕ, zero, suc, String, Bool, true, false, Option, none, some, [], ◌∷◌, ◌||◌, Bool-cases,
  Option-cases, inl, inr,
}
use cccollab.Base.Nullable.{truthy}
use cccollab.Base.Assoc.{lookup}
use cccollab.Transport.{is_broker_uuid}
use cccollab.Remote.Backend.{Ref, Args, text, Answer, Reply, resolved, rejected, Thrown, TopicDoc}
use cccollab.Remote.Errors.{has_code, is_function_not_found_error, is_auth_error}
use cccollab.Remote.State.{Remote, org_scoped_args, register_failure}
use cccollab.Remote.Calls.{
  Next, finished, waits, Outcome, returned, settle, fall_back, with_session, when_enabled, mutate,
  found_topic, organization_name, session_args, Value,
}
use cccollab.Remote.Calls.Channels
use cccollab.Remote.Calls.Channels.{with_match, find_channel, resolve_channel_id, keep_id}
use cccollab.Remote.Calls.Topics
use cccollab.Remote.Calls.Sessions
use cccollab.Remote.Calls.Start.{Method, begin}

-- The method has ended after no more than `k` answers, whatever they are.
abbrev pub EndsBy : Next → ℕ → Type 0
EndsBy (finished r o) k = Unit {0}
EndsBy (waits r ref args q) zero = ⊥
EndsBy (waits r ref args q) (suc k) =
    (s : Remote) (now : ℕ) (reply : Reply (Answer ref)) → EndsBy (q s now reply) k

pub record Within (n : Next) (k : ℕ) : Type 0 where
  pub ends : EndsBy n k

pub ended : {r : Remote} {o : Outcome} {k : ℕ} → Within (finished r o) k
ended = record { ends = tt }

pub asks :
    (k : ℕ) (r : Remote) (ref : Ref) (args : Args) (fail : ℕ → Thrown → Remote → Next)
    (done : ℕ → Answer ref → Remote → Next)
    → ((now : ℕ) (e : Thrown) (s : Remote) → Within (fail now e s) k)
    → ((now : ℕ) (a : Answer ref) (s : Remote) → Within (done now a s) k)
    → Within (waits r ref args (settle fail done)) (suc k)
unfolding settle
asks k r ref args fail done f d = record { ends = settles }
  where
    settles :
        (s : Remote) (now : ℕ) (reply : Reply (Answer ref))
        → EndsBy (settle fail done s now reply) k
    settles s now (resolved a) = (d now a s).ends
    settles s now (rejected e) = (f now e s).ends

pub falls_back :
    (k : ℕ) (v : Value) (now : ℕ) (e : Thrown) (s : Remote) → Within (fall_back v now e s) k
unfolding fall_back
falls_back k v now e s = ended

pub with_session-Within :
    (k : ℕ) (o : Outcome) (go : String → Next) (r : Remote)
    → ((id : String) → Within (go id) k)
    → Within (with_session o go r) k
unfolding with_session
with_session-Within k o go r h = enabled r.enabled
  where
    session : (id : Option String) → Within (elim id [ none ↦ finished r o | some id ↦ go id ]) k
    session none = ended
    session (some id) = h id

    enabled :
        (b : Bool)
        → Within
            (elim b [
              | false ↦ finished r o
              | true ↦ elim r.session_id [ none ↦ finished r o | some id ↦ go id ]
            ])
            k
    enabled false = ended
    enabled true = session r.session_id

pub when_enabled-Within :
    (k : ℕ) (o : Outcome) (go : Next) (r : Remote) → Within go k → Within (when_enabled o go r) k
unfolding when_enabled
when_enabled-Within k o go r h = enabled r.enabled
  where
    enabled : (b : Bool) → Within (elim b [ false ↦ finished r o | true ↦ go ]) k
    enabled false = ended
    enabled true = h

pub mutate-Within :
    (k : ℕ) (ref : Ref) (args : String → Args) (r : Remote) → Within (mutate ref args r) (suc k)
unfolding mutate
mutate-Within k ref args r =
    with_session-Within (suc k) _ _ r
      (λ id. asks k r ref (args id) _ _ (falls_back k _) (λ now a s. ended))
