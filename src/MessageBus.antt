-- ===== src/MessageBus.antt =====
-- mcp_server/src/message-bus.ts: the inbound messages of a session, and the table of what has been
-- seen lately. The MCP client's answer is an argument of `push`.
pub mod Seen
pub mod Size
pub mod Unique
pub mod Repeat
pub mod Pushed
mod Tests
use Prim.Native.String
use cccollab.Base.{
  ℕ, ◌+◌, ◌/◌, String, Bool, true, false, Option, none, some, List, [], ◌∷◌, ◌++◌, ltb, leb, not,
  if◌then◌else◌, keep, length,
}
use cccollab.Base.Nullable.{truthy, or_else}
use cccollab.Base.Assoc.{Assoc, lookup, set, delete}
use cccollab.Runtime.{ℤ, pos, negsuc}

pub record ParsedMessage : Type 0 where
  pub sender : String
  pub text : String
  pub channel : String
  pub channel_name : Option String
  pub thread_ts : Option String
  pub ts : String

-- `Date.parse`, with `none` for NaN, and `String` of an integer.
pub record Dates : Type 0 where
  pub parse : String → Option ℤ
  pub show : ℤ → String

abbrev pub dedup_window_ms : ℕ
dedup_window_ms = 10000

abbrev pub max_dedup_entries : ℕ
max_dedup_entries = 2048

-- `Math.floor(ts / 1000)`
unfoldable pub second_of : ℤ → ℤ
second_of (pos n) = pos (n / 1000)
second_of (negsuc n) = negsuc (n / 1000)

abbrev pub second_bucket : Dates → String → Option ℤ → String
second_bucket dates raw none = raw
second_bucket dates raw (some t) = dates.show (second_of t)

infixr 6 ◌+++◌
abbrev ◌+++◌ : String → String → String
s +++ t = String.◌++◌ s t

unfoldable pub dedup_key : Dates → ParsedMessage → String
dedup_key dates msg =
    msg.sender
    +++ "|"
    +++ or_else msg.thread_ts msg.channel
    +++ "|"
    +++ second_bucket dates msg.ts (dates.parse msg.ts)
    +++ "|"
    +++ msg.text

-- What the bus gives out, to the MCP client and to its listeners.
pub data Emitted : Type 0 where
  dropped : ParsedMessage → (source : String) → (previous_ts : ℕ) → Emitted
  notification : (content : String) → (meta : List (String × String)) → Emitted
  notify_error : ParsedMessage → (source : String) → Emitted
  on_channel : (channel : String) → ParsedMessage → Emitted
  on_thread : (thread_ts : String) → ParsedMessage → Emitted

-- `vacuum`: what is not yet a window old stays
unfoldable pub vacuum : ℕ → Assoc ℕ → Assoc ℕ
vacuum now seen = keep (λ e. not (leb (e.1 + dedup_window_ms) now)) seen

-- the loop of `trimOldest`, with the oldest entry so far
unfoldable pub oldest_from : Option (String × ℕ) → Assoc ℕ → Option (String × ℕ)
oldest_from best [] = best
oldest_from none ((k, t) ∷ m) = oldest_from (some (k, t)) m
oldest_from (some (j, s)) ((k, t) ∷ m) =
    let newer = oldest_from (some (j, s)) m in
    let older = oldest_from (some (k, t)) m in if ltb t s then older else newer

unfoldable pub trim_oldest : Assoc ℕ → Assoc ℕ
trim_oldest seen = elim (oldest_from none seen) [ none ↦ seen | some (k, t) ↦ delete k seen ]

-- the write of the key, and the cap
unfoldable pub remember : String → ℕ → Assoc ℕ → Assoc ℕ
unfolding trim_oldest
remember key now seen =
    let written = set key now seen in
    if ltb max_dedup_entries (length written) then trim_oldest written else written

abbrev thread_meta : Option String → List (String × String)
thread_meta none = []
thread_meta (some t) = ("thread_ts", t) ∷ []

unfoldable pub meta_of : ParsedMessage → String → List (String × String)
meta_of msg source =
    ("sender", msg.sender)
    ∷ ("channel", or_else msg.channel_name msg.channel)
    ∷ ("channel_id", msg.channel)
    ∷ ("ts", msg.ts)
    ∷ ("source", source)
    ∷ thread_meta (truthy msg.thread_ts)

abbrev thread_event : ParsedMessage → Option String → List Emitted
thread_event msg none = []
thread_event msg (some t) = on_thread t msg ∷ []

-- what is given out for a message that is not dropped; `accepted` is whether the client's
-- notification went through
unfoldable pub deliver : Bool → ParsedMessage → String → List Emitted
deliver accepted msg source =
    notification msg.text (meta_of msg source)
    ∷ (if accepted
        then on_channel msg.channel msg ∷ thread_event msg (truthy msg.thread_ts)
        else notify_error msg source ∷ [])

-- `last !== undefined && now - last < DEDUP_WINDOW_MS`
abbrev pub is_recent : ℕ → Option ℕ → Bool
is_recent now none = false
is_recent now (some last) = ltb now (last + dedup_window_ms)

abbrev last_seen : Option ℕ → ℕ
last_seen none = 0
last_seen (some t) = t

-- `push`. The table is final before the notification is awaited.
unfoldable pub push : Dates → ℕ → Bool → ParsedMessage → String → Assoc ℕ → Assoc ℕ × List Emitted
unfolding vacuum remember
push dates now accepted msg source table =
    let key = dedup_key dates msg in
    let seen = vacuum now table in
    let last = lookup key seen in
    if is_recent now last
    then (seen, dropped msg source (last_seen last) ∷ [])
    else (remember key now seen, deliver accepted msg source)
