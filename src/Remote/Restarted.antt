-- ===== src/Remote/Restarted.antt =====
-- An `introduce` of mcp_server/src/transport/remote.ts that is in flight when the transport is shut
-- down.
use cccollab.Base.{ℕ, String, true, ◌≡◌, refl, ap, Bool, false, Option}
use cccollab.Remote.Backend.{Ref, Args, Reply, resolved}
use cccollab.Remote.State.{Remote}
use cccollab.Remote.Calls.{Next, waits, finished, threw, disabled, state_of, settle, when_enabled}
use cccollab.Remote.Calls.Sessions.{introduce, introduced, introduce_failed}
use cccollab.Remote.Feeds.{shutdown}

when_enabled-on :
    (r : Remote) (go : Next) → r.enabled ≡ true → when_enabled (threw disabled) go r ≡ go
unfolding when_enabled
when_enabled-on r go on = ap choose on
  where
    choose : Bool → Next
    choose b = elim b [ false ↦ finished r (threw disabled) | true ↦ go ]

-- Where `introduce` waits for its answer while the transport is shut down, an answer that comes then
-- starts the heartbeat that the shutdown has stopped, whatever state the shutdown met.
pub introduce_restarts_heartbeat :
    (name : String) (objective organization : Option String) (r : Remote)
    → r.enabled ≡ true
    → (args : Args) × (k : Remote → ℕ → Reply String → Next) × (introduce name objective
          organization r
        ≡ waits r Ref.introduce args k)
      × ((s : Remote) (now : ℕ) (id : String)
          → (state_of (k (shutdown s) now (resolved id))).heartbeat ≡ true)
unfolding introduce introduced settle
introduce_restarts_heartbeat name objective organization r on =
    (_, settle introduce_failed introduced, when_enabled-on r _ on, λ s now id. refl)
