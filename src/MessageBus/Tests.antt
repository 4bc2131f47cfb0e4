-- ===== src/MessageBus/Tests.antt =====
-- Runs of `MessageBus.push` (mcp_server/src/message-bus.ts).
use cccollab.Base.{
  ◌⊎◌, String, if◌then◌else◌, false, ℕ, ◌+◌, ◌≤◌, ◌<◌, ◌≡◌, refl, true, none, some, [], ◌∷◌, arith,
  length,
}
use cccollab.Base.Text.{is_empty}
use cccollab.Base.Assoc.{Assoc, lookup}
use cccollab.MessageBus.{
  is_recent, ParsedMessage, Dates, dropped, dedup_key, push, dedup_window_ms, max_dedup_entries,
}
use cccollab.MessageBus.Pushed.{push-cases, notice, given_out}
use cccollab.MessageBus.Size.{length-push}
use cccollab.MessageBus.Repeat.{push_again}

abbrev test_dates : Dates
test_dates = record { parse = λ s. none; show = λ n. "n" }

abbrev hi : ParsedMessage
hi = record {
  sender = "ann";
  text = "hi";
  channel = "dev";
  channel_name = none;
  thread_ts = some "t1";
  ts = "now";
}

abbrev seen_once : Assoc ℕ
seen_once = (dedup_key test_dates hi, 100) ∷ []

abbrev other_seen : Assoc ℕ
other_seen = ("bob|t1|now|hi", 100) ∷ []

push-cases_example :
    ((t : ℕ) × (lookup (dedup_key test_dates hi) other_seen ≡ some t)
      × (200 < t + dedup_window_ms)
      × ((push test_dates 200 true hi "local" other_seen).1 ≡ dropped hi "local" t ∷ [])
      × ((k : String)
          → lookup k (push test_dates 200 true hi "local" other_seen).0
            ≡ (if is_recent 200 (lookup k other_seen) then lookup k other_seen else none)))
    ⊎ ((is_recent 200 (lookup (dedup_key test_dates hi) other_seen) ≡ false)
        × ((push test_dates 200 true hi "local" other_seen).1
            ≡ notice hi "local" ∷ given_out hi "local" true (some "t1"))
        × (lookup (dedup_key test_dates hi) (push test_dates 200 true hi "local" other_seen).0
            ≡ some 200))
unfolding lookup is_empty
push-cases_example =
    push-cases test_dates 200 true hi "local" other_seen (refl, tt) (omega arith, tt)

length-push_example : length (push test_dates 200 true hi "local" other_seen).0 ≤ max_dedup_entries
length-push_example = length-push test_dates 200 true hi "local" other_seen (omega arith)

push_again_example :
    (push test_dates 9000 true hi "acme" (push test_dates 200 true hi "local" other_seen).0).1
    ≡ dropped hi "acme" 200 ∷ []
unfolding lookup dedup_key
push_again_example =
    push_again test_dates 200 9000 true true hi hi "local" "acme" other_seen (refl, tt)
      (omega arith, tt) refl refl (omega arith) (omega arith)
