-- ===== src/History/Tests.antt =====
-- Runs of the paging of mcp_server/src/history-paging.ts.
use cccollab.Base.{ℕ, String, ◌≡◌, none, some, List, [], ◌∷◌, arith, str_eq, if◌then◌else◌}
use cccollab.Runtime.{Number, nan, of_ms}
use cccollab.History.{HistoryEntry, read_back}
use cccollab.History.Order.{Ascending}
use cccollab.History.ReadBack.{read_back_complete}

abbrev said_at : ℕ → HistoryEntry
said_at t = record { sender = "ann"; text = "hi"; ts = t }

-- two messages of one millisecond in the middle
abbrev four_messages : List HistoryEntry
four_messages = said_at 1 ∷ said_at 2 ∷ said_at 2 ∷ said_at 5 ∷ []

four_messages-Ascending : Ascending four_messages
four_messages-Ascending = (
  (omega arith, (omega arith, (omega arith, tt))),
  ((omega arith, (omega arith, tt)), ((omega arith, tt), (tt, tt))),
)

abbrev test_number : String → Number
test_number s = if str_eq s "7" then of_ms 7 else nan

read_back_complete_example : read_back 5 four_messages 1 none [] ≡ some four_messages
read_back_complete_example =
    read_back_complete 5 four_messages 1 four_messages-Ascending (omega arith) (omega arith)
