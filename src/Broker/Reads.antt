-- ===== src/Broker/Reads.antt =====
-- The handlers of mcp_server/src/broker.ts that only read.
use cccollab.Base.{String, ◌≡◌, refl, Option, some, arith}
use cccollab.Runtime.{Runtime}
use cccollab.Broker.State.{Broker, Response}
use cccollab.Broker.Channels.{Fields, get_channels}
use cccollab.Broker.Topics.{get_topics, get_topic, get_history}
use cccollab.Broker.Sessions.{get_sessions}

module _ (rt : Runtime) (query : Fields) (b : Broker) where
  pub get_channels-same : (session_id : Option String) → (get_channels session_id b).0 ≡ b
  unfolding get_channels
  get_channels-same session_id = ground arith

  pub get_topics-same : (get_topics rt query b).0 ≡ b
  unfolding get_topics
  get_topics-same = refl

  pub get_topic-same : (id : String) → (get_topic id query b).0 ≡ b
  unfolding get_topic
  get_topic-same id = ground arith

  pub get_sessions-same : (get_sessions rt query b).0 ≡ b
  unfolding get_sessions
  get_sessions-same = refl

  pub get_history-same :
      (id : String) (b' : Broker) (res : Response)
      → get_history rt id query b ≡ some (b', res)
      → b' ≡ b
  unfolding get_history
  get_history-same id b' res e = ground (arith, e)
