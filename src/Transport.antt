-- ===== src/Transport.antt =====
-- mcp_server/src/transport/index.ts: what every transport answers. A timestamp is the epoch-ms number
-- that its ISO text stands for.
use Prim.Native.Char.{code}
use Prim.Native.String.{[], ◌∷◌}
use cccollab.Base.{ℕ, zero, suc, String, Bool, false, ◌&&◌, ◌||◌, Option, List, eqb, leb}
use cccollab.Base.Text.{is_empty}

pub record TransportSession : Type 0 where
  pub id : Option String
  pub name : String
  pub objective : Option String
  pub machine : Option String
  pub channels : List String
  pub registered_at : ℕ
  pub last_seen : Option ℕ

pub record TransportChannel : Type 0 where
  pub name : String
  pub subscriber_count : ℕ
  pub session_count : Option ℕ
  pub message_count : Option ℕ

pub record TransportTopic : Type 0 where
  pub id : String
  pub topic : String
  pub channel : String
  pub creator : String
  pub state : String
  pub created_at : ℕ
  pub message_count : Option ℕ
  pub joined : Option Bool

pub record TransportTopicMessage : Type 0 where
  pub sender : String
  pub text : String
  pub ts : ℕ

pub record TransportHistoryMessage : Type 0 where
  pub sender : String
  pub sender_session_name : Option String
  pub text : String
  pub ts : ℕ

pub record TransportHistoryPage : Type 0 where
  pub messages : List TransportHistoryMessage
  pub has_more : Bool
  pub oldest_ts : Option ℕ

-- [0-9a-f] with the flag i
abbrev is_hex : ℕ → Bool
is_hex c = (leb b'0' c && leb c b'9') || (leb b'a' c && leb c b'f') || (leb b'A' c && leb c b'F')

-- Groups of hexadecimal digits of the given lengths with a hyphen between, and nothing behind; the
-- first number is what is left of the group that is being read.
unfoldable pub hex_groups : ℕ → List ℕ → String → Bool
hex_groups zero List.[] s = is_empty s
hex_groups zero (List.◌∷◌ n ns) [] = false
hex_groups zero (List.◌∷◌ n ns) (c ∷ s) = eqb (code c) b'-' && hex_groups n ns s
hex_groups (suc k) ns [] = false
hex_groups (suc k) ns (c ∷ s) = is_hex (code c) && hex_groups k ns s

-- `BROKER_UUID_PATTERN.test`
unfoldable pub is_broker_uuid : String → Bool
unfolding hex_groups is_empty
is_broker_uuid s = hex_groups 8 (List.◌∷◌ 4 (List.◌∷◌ 4 (List.◌∷◌ 4 (List.◌∷◌ 12 List.[])))) s
