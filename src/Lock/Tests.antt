-- ===== src/Lock/Tests.antt =====
-- Runs of the lock of mcp_server/src/config/save.ts.
use cccollab.Base.{ℕ, ◌+◌, ◌*◌, ◌≡◌, refl, none, some, arith}
use cccollab.Lock.{Round, Outcome, exists_already, alive, acquire, goes_on, lock_timeout_ms}
use cccollab.Lock.Waiting.{HasLiveHolder, acquire-total}
use cccollab.Lock.System.{
  idle, holding, releasing, create, look, read, unlink, System, begin, goto, tick, enter, created,
  Step, exists_already as file_there, look_stale, read_dead, finished, released, Steps, stay, more,
}
use cccollab.Lock.Exclusion.{IsFresh, FreshReach, start, next, FreshReach-exclusive}
use cccollab.Lock.Reaping.{unlink-breaks}

-- another process has the lock the whole time
abbrev live_rounds : ℕ → Round
live_rounds k = record {
  created = exists_already;
  mtime = some 0;
  looked_at = 1;
  holder = alive;
  now = 100 + k * 50;
}

live_rounds-HasLiveHolder : HasLiveHolder live_rounds
unfolding goes_on
live_rounds-HasLiveHolder = λ k. refl

acquire-total_example : (o : Outcome) × (acquire 101 live_rounds (100 + lock_timeout_ms) 0 ≡ some o)
acquire-total_example = acquire-total live_rounds 100 (λ k. omega arith) live_rounds-HasLiveHolder

-- 1 takes the lock and holds it for 30 seconds; 0 sees it stale; 1 lets go; 0 finds no pid; 2 takes it
abbrev s1 : System
s1 = goto 1 (create 5000) begin

abbrev s2 : System
s2 = goto 1 holding (record s1 { lock = some (record { pid = 1; mtime = 0 }) })

abbrev s3 : System
s3 = record s2 { now = 0 + 30001 }

abbrev s4 : System
s4 = goto 0 (create 35001) s3

abbrev s5 : System
s5 = goto 0 (look 35001) s4

abbrev s6 : System
s6 = goto 0 (read 35001) s5

abbrev s7 : System
s7 = goto 1 releasing s6

abbrev s8 : System
s8 = goto 1 idle (record s7 { lock = none })

abbrev s9 : System
s9 = goto 0 (unlink 35001) s8

abbrev s10 : System
s10 = goto 2 (create 35001) s9

abbrev s11 : System
s11 = goto 2 holding (record s10 { lock = some (record { pid = 2; mtime = 30001 }) })

held_run : Steps begin s6
unfolding goto
held_run =
    more
      (more
        (more (more (more (more stay (enter 1 refl)) (created 1 5000 refl refl)) (tick 30001))
          (enter 0 refl))
        (file_there 0 35001 (record { pid = 1; mtime = 0 }) refl refl))
      (look_stale 0 35001 (record { pid = 1; mtime = 0 }) refl refl (omega arith))

two_run : Steps begin s11
unfolding goto
two_run =
    more
      (more
        (more (more (more held_run (finished 1 refl)) (released 1 refl))
          (read_dead 0 35001 refl refl))
        (enter 2 refl))
      (created 2 35001 refl refl)

unlink-breaks_example :
    (r : System) × (t : System) × Step s11 r
    × Step r t
    × Steps begin t
    × (r.lock ≡ none)
    × (t.pc 0 ≡ holding)
    × (t.pc 2 ≡ holding)
unfolding goto
unlink-breaks_example = unlink-breaks s11 0 2 35001 two_run refl refl (omega arith)

none_stale : (s : System) → s.lock ≡ none → IsFresh s
none_stale s e = λ f q. absurd (ground (arith, e, q))

fresh_run : FreshReach s2
unfolding goto
fresh_run =
    next (next start (none_stale begin refl) (enter 1 refl)) (none_stale s1 refl)
      (created 1 5000 refl refl)

abbrev holder_pid : ℕ
holder_pid = 1

FreshReach-exclusive_example :
    (holder_pid ≡ holder_pid) × ((t : ℕ) × (s2.lock ≡ some (record { pid = 1; mtime = t })))
unfolding goto
FreshReach-exclusive_example =
    FreshReach-exclusive {s = s2} holder_pid holder_pid fresh_run refl refl
