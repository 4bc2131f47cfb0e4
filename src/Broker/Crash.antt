-- ===== src/Broker/Crash.antt =====
-- Which requests end the process of mcp_server/src/broker.ts: those on which code outside every
-- `try` throws.
use cccollab.Base.{
  String, ◌≡◌, ◌≢◌, refl, ap, ◌↔◌, none, some, map, arith, Option-cases, inl, inr, ◌⊎◌,
}
use cccollab.Base.Assoc.{lookup}
use cccollab.Runtime.{Runtime, Url}
use cccollab.History.{clamp_history_limit}
use cccollab.History.Limit.{clamp_history_limit_lem}
use cccollab.History.Paging.{page_total}
use cccollab.Broker.State.{Broker, Env, Request}
use cccollab.Broker.Channels.{Fields, field}
use cccollab.Broker.Topics.{get_history, page_response, before_cursor, history_entry}
use cccollab.Broker.Sessions.{delete_session}
use cccollab.Broker.Route.{Route, route}
use cccollab.Broker.Server.{serve, handle}

get_history-ne-none :
    (rt : Runtime) (id : String) (query : Fields) (b : Broker) → get_history rt id query b ≢ none
unfolding get_history
get_history-ne-none rt id query b h = elim (Option-cases (lookup id b.topics)) [
  | inl absent ↦ ground (arith, absent, h)
  | inr (t, there) ↦
      let (p, e) =
        page_total (map history_entry t.messages)
          (clamp_history_limit rt.to_number (field "limit" query))
          (before_cursor rt (field "before" query))
          (clamp_history_limit_lem rt.to_number (field "limit" query)).0.0 in
      let some_page = ap (page_response b) e in ground (arith, there, some_page, h)
]

-- a DELETE of a session whose name does not decode
abbrev pub IsBadDelete : Runtime → Route → Type 0
IsBadDelete rt r =
    (segment : String) × (r ≡ Route.remove_session segment) × (rt.decode_uri segment ≡ none)

serve-none :
    (rt : Runtime) (env : Env) (req : Request) (query : Fields) (r : Route) (b : Broker)
    → serve rt env req query r b ≡ none
    → IsBadDelete rt r
unfolding serve delete_session
serve-none rt env req query (Route.topic_history id) b e =
    absurd (get_history-ne-none rt id query b e)
serve-none rt env req query (Route.remove_session segment) b e = (segment, refl, ground (arith, e))
serve-none rt env req query _ b e = cc

bad_delete-none :
    (rt : Runtime) (env : Env) (req : Request) (query : Fields) (r : Route) (b : Broker)
    → IsBadDelete rt r
    → serve rt env req query r b ≡ none
unfolding serve delete_session
bad_delete-none rt env req query r b (segment, e, bad) = rw (e, serve) (rw (bad, delete_session))

-- A request ends the broker exactly if its URL does not parse, or it is a DELETE of
-- /sessions/<segment> whose segment is no valid percent encoding. Any other request is answered.
pub handle-none_iff :
    (rt : Runtime) (env : Env) (req : Request) (b : Broker)
    → (handle rt env req b ≡ none) ↔ (
        (rt.parse_url req.url ≡ none)
        ⊎ ((url : Url) × (rt.parse_url req.url ≡ some url)
            × IsBadDelete rt (route req.method url.pathname)))
unfolding handle
handle-none_iff rt env req b = (to, from)
  where
    to :
        handle rt env req b ≡ none
        → (rt.parse_url req.url ≡ none)
          ⊎ ((url : Url) × (rt.parse_url req.url ≡ some url)
              × IsBadDelete rt (route req.method url.pathname))
    to e = elim (Option-cases (rt.parse_url req.url)) [
      | inl bad ↦ inl bad
      | inr (url, p) ↦ inr (
        url,
        p,
        serve-none rt env req url.query (route req.method url.pathname) b (ground (arith, p, e)),
      )
    ]

    from :
        (rt.parse_url req.url ≡ none)
          ⊎ ((url : Url) × (rt.parse_url req.url ≡ some url)
              × IsBadDelete rt (route req.method url.pathname))
        → handle rt env req b ≡ none
    from (inl bad) = rw (bad, handle)
    from (inr (url, p, bad)) =
        rw (p, handle) (bad_delete-none rt env req url.query (route req.method url.pathname) b bad)
