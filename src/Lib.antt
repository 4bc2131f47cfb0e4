-- ===== src/Lib.antt =====
-- Models of the MCP server's core (mcp_server/src) with the theorems on them.
--
-- The parts, and how they meet. Sessions of one machine talk through a broker process, an HTTP
-- server that keeps sessions, channels and topics in memory and pushes each event to every open SSE
-- connection. Each session's MCP server keeps its own view of what it has joined (the active
-- context); its listener reads the stream and picks the events that are for the session, and a bus
-- that drops repeated messages hands them to the client.
--
-- Base: lists, texts, JavaScript's Map and Set, and null. Runtime: what the code takes from the
-- JavaScript runtime and does not implement (toLowerCase, Number(text), decodeURIComponent, new URL,
-- JSON.parse of a body), a record that the definitions take as a parameter.
--
-- History (mcp_server/src/history-paging.ts): clampHistoryLimit is clamp_history_limit,
-- pageTopicHistory is page_topic_history with its loop grow. Timestamps are epoch-ms numbers.
-- read_back is a reader that follows the cursor of readTopicMessages (transport/local.ts). Its fuel
-- is the number of requests; one more than there are messages is enough.
--
-- Broker (mcp_server/src/broker.ts): State holds the maps and the data of answers and events;
-- Members the helpers joinChannel, leaveChannel, removeSessionFromAllChannels and broadcast;
-- Channels, Topics, Actions and Sessions one function for each route; Route the dispatch; Server the
-- request listener (handle) and a run of requests (Reachable). A request is one step: the maps are
-- read and written after the body is there, with no await between. The exception is a topic action,
-- which looks its topic up before the body; a topic is never removed, so that makes no difference. An
-- exception that nothing catches is none. Change says what one request may do to the topics, by what
-- it asks for (Scope).
-- Not modelled: log lines, the text of the JSON, body fields that are no texts, and main.
--
-- Context (mcp_server/src/context.ts): ActiveContext, one function for each method; a method that
-- throws is none. Context.Find holds findJoinedTopic and the readers.
--
-- Listener (mcp_server/src/broker-event-listener.ts): on_data decodes each chunk of bytes by itself, as
-- chunk.toString() does, and cuts the text into lines; handle_local_event is handleLocalEvent, the
-- pushed message or none. isExactSelf is of mcp_server/src/session.ts. Not modelled: the connection,
-- its reconnect, and the JSON of a line.
--
-- MessageBus (mcp_server/src/message-bus.ts): push with vacuum and trimOldest; the clock and the
-- client's answer are arguments, Date.parse and the printing of numbers a record.
--
-- Router (mcp_server/src/transport/router.ts): the map of transports by location name, with the
-- routing of calls by location (get) and by topic (get_by_topic_id).
--
-- Config (mcp_server/src/config): the steps of resolveConfig in its order. Merge strips a project's
-- credentials; Defaults, Env and Active are applyDefaults, applyEnvOverrides and resolveActive; Resolve
-- composes them. A location keeps `active` and `channels` as fields of the record and every other
-- field in one map by its name. A location, a channel or a topic is an object, as the schemas demand.
-- The package deepmerge is an argument with the record of laws IsDeepMerge; the two files are arguments,
-- parsed. An error is a value with the names that its message gives.
--
-- Lock (mcp_server/src/config/save.ts): acquire is the loop of acquireLock over what its rounds find,
-- with fuel for the rounds; System has any number of processes that share the lock file, one step for
-- each file operation of acquireLock and releaseLock.
--
-- Config.Save is writeLocationAuthInLock and loadPersistedLocationAuth; the user's file is missing,
-- corrupt, or a configuration.
--
-- Auth (mcp_server/src/remote/auth-clerk.ts and client.ts): the two token requests and runClerkPkce,
-- with what they send next to what they return; Auth.Fetcher is one call of makeClerkAuthFetcher's
-- function over its memory and the file, under the lock. The token endpoint is an argument. Times are
-- JavaScript numbers with exact sums; a call reads the clock once when it starts and once under the
-- lock. Not modelled: the sharing of a call in flight, and node:crypto.
--
-- Doctor (mcp_server/src/doctor.ts and plugin-version.ts): scanCaches, the bookkeeping's walk, the roots
-- and launchers in a process dump as words of it, and runDoctor as what it removes and its exit code.
-- The file system, the process table, JSON.parse and the prompt's answer are arguments. Not modelled:
-- the report's texts and resolveOnPath.
--
-- Local (mcp_server/src/transport/local.ts): call_of is the request behind each method, answer_of what
-- it returns or throws, with taken for what it takes from the body, and Local.Sent the way to the
-- broker's handler; of the parsed URL it supposes nothing where a path has a segment "." or "..",
-- which the parser takes out. Not modelled: readChannelMessages, which only throws. Transport has the
-- shapes that transports answer, and the pattern of the broker's ids (mcp_server/src/transport/index.ts).
--
-- Delivery: the frames that the broker's broadcast writes to a connection, the lines that the listener
-- reads as events, and the way of a message from the local transport to the listeners. JSON,
-- toISOString, the bytes of a text and their decoding are a record (Wire), with the law Passes for the
-- events at hand and IsUtf8 for the texts between the cuts. A cut inside a character breaks it, so the
-- chunks end between characters.
--
-- Remote (mcp_server/src/transport/remote.ts): State holds the fields with the breaker; Calls has one
-- function for each method. A method ends or waits for the answer to a request (Next), and goes on in
-- the state that it then finds, so that Run may take calls, answers, updates and the shutdown in any
-- order. Feeds are the subscriptions. What the Convex client answers or throws is an argument;
-- timestamps are numbers. Not modelled: log lines, and the timers themselves.
--
-- Not modelled: the tools, the server and init (mcp_server/src/tools, server.ts, init), which register
-- the parts above with the MCP SDK and format their answers, and the attachment of configured locations
-- (transport/attach.ts), which sets the transports and their subscriptions up.
pub mod Base
pub mod Runtime
pub mod History
pub mod Broker
pub mod Context
pub mod MessageBus
pub mod Listener
pub mod Router
pub mod Config
pub mod Lock
pub mod Auth
pub mod Doctor
pub mod Delivery
pub mod Local
pub mod Transport
pub mod Remote
