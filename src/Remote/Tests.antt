-- ===== src/Remote/Tests.antt =====
-- Runs of the transport of mcp_server/src/transport/remote.ts.
use cccollab.Base.{
  ◌⊎◌, ℕ, String, Bool, true, false, not, ◌≡◌, refl, none, some, List, [], ◌∷◌, All, arith,
}
use cccollab.Base.StrSet.{has}
use cccollab.Remote.Backend.{Thrown, MessageRow}
use cccollab.Remote.Errors.{is_function_not_found_error, is_auth_error}
use cccollab.Remote.State.{Remote, init, Subscription}
use cccollab.Remote.Calls.{Next, Outcome, finished, state_of}
use cccollab.Remote.Calls.Start.{Method, begin}
use cccollab.Remote.Feeds.{subscribe_topic_messages, shutdown}
use cccollab.Remote.Evolves.{Evolves, IsSound}
use cccollab.Remote.Run.{World, world, Run, here, next, Step, Run-IsSound}
use cccollab.Remote.Within.{EndsBy}
use cccollab.Remote.Outcomes.{EndsIn, begin-EndsIn}
use cccollab.Remote.Proceeds.Methods.{Allowed}
use cccollab.Remote.Breaker.{Failing, fail_all, crowded, fail_all-enabled}
use cccollab.Remote.Delivered.{feed_events, feed_events-subscribe}
use cccollab.Remote.Delivered.Rows.{firsts, handed, flat}

-- `introduce` is called, and the transport is shut down before the answer is there
abbrev introducing : Next
introducing = begin (λ s. s) (Method.introduce "ann" none none) init

abbrev begun : World
begun = world (state_of introducing) (introducing ∷ [])

first_run : Run (λ s. s) (world init []) begun
first_run = next here (Step.call (Method.introduce "ann" none none) init [])

second_run : Run (λ s. s) begun (world (shutdown (state_of introducing)) (introducing ∷ []))
second_run = next here (Step.shut (state_of introducing) (introducing ∷ []))

Run-IsSound_example :
    Evolves (state_of introducing) (shutdown (state_of introducing))
    × IsSound (shutdown (state_of introducing))
    × (((shutdown (state_of introducing)).shutdown_started ≡ false)
        ⊎ All
            (λ (s : Subscription). s.is_open ≡ false)
            (shutdown (state_of introducing)).subscriptions)
Run-IsSound_example = Run-IsSound (λ s. s) first_run second_run

abbrev ready : Remote
ready = record init { session_id = some "s1" }

begin-EndsIn_example :
    EndsIn (Allowed (Method.join_topic "k1")) (begin (λ s. s) (Method.join_topic "k1") ready)
    × EndsBy (begin (λ s. s) (Method.join_topic "k1") ready) 2
    × ((ready.enabled ≡ true)
        ⊎ ((o : Outcome) × (begin (λ s. s) (Method.join_topic "k1") ready ≡ finished ready o)))
begin-EndsIn_example = begin-EndsIn (λ s. s) (Method.join_topic "k1") ready

abbrev blip : Thrown
blip = record {
  is_error = true;
  name = "Error";
  message = "socket closed";
  text = "Error: socket closed";
  code = none;
  data_message = none;
}

abbrev blip_at : Bool → ℕ → Failing
blip_at of_feed at = record { of_feed = of_feed; error = blip; at = at }

-- the third failure comes when the first has left the window, the fourth does not
fail_all-enabled_example :
    (fail_all
      (blip_at false 5 ∷ (blip_at true 50000 ∷ (blip_at false 70000 ∷ (blip_at false 90000 ∷ []))))
      init).enabled
    ≡ not (crowded (5 ∷ (50000 ∷ (70000 ∷ (90000 ∷ [])))))
unfolding is_function_not_found_error is_auth_error
fail_all-enabled_example =
    fail_all-enabled
      (blip_at false 5 ∷ (blip_at true 50000 ∷ (blip_at false 70000 ∷ (blip_at false 90000 ∷ []))))
      ((refl, λ e. refl), ((refl, λ e. refl), ((refl, λ e. refl), ((refl, λ e. refl), tt))))
      (omega arith)

abbrev row : String → String → ℕ → MessageRow
row id sender ts = record { id = id; from_session_id = sender; text = "hi"; ts = ts }

abbrev batches : List (List MessageRow)
batches =
    (row "m1" "s2" 4 ∷ []) ∷ ((row "m1" "s2" 4 ∷ (row "m2" "s1" 5 ∷ (row "m3" "s2" 6 ∷ []))) ∷ [])

feed_events-subscribe_example :
    feed_events 3 batches (subscribe_topic_messages 3 "k1" "dev" ready)
    ≡ handed (some "s1") "dev" (some "k1") (firsts [] (flat batches))
feed_events-subscribe_example =
    feed_events-subscribe 3 "k1" "dev" batches ready refl refl (omega arith)

-- the example above in numbers
four_failures : (crowded (5 ∷ (50000 ∷ (70000 ∷ (90000 ∷ []))))) ≡ true
unfolding crowded
four_failures = refl

handed_once :
    handed (some "s1") "dev" (some "k1") (firsts [] (flat batches))
    ≡ handed none "dev" (some "k1") (row "m1" "s2" 4 ∷ (row "m3" "s2" 6 ∷ []))
unfolding firsts has
handed_once = refl
