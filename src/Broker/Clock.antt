-- ===== src/Broker/Clock.antt =====
-- Under a clock that does not go back, the broker keeps every topic's messages in the order that
-- mcp_server/src/history-paging.ts asks for, so its history endpoint always answers.
use mathlib.Core.Option
use mathlib.Core.Path.{subst}
use mathlib.Core.List.{map-append}
use cccollab.Base.{
  ℕ, ◌≤◌, String, ◌≡◌, sym, ap, ◌∙◌, Bool, some, List, [], ◌∷◌, ◌++◌, map, arith, str_eq,
  Option-cases, Bool-cases, inl, inr, All, All-append, All-map,
}
use native.Mathlib.Nat.{le_trans, le_refl}
use cccollab.Base.Assoc.{Assoc, lookup, map_values, lookup-set_cases, lookup-map_values}
use cccollab.Runtime.{Runtime, Url}
use cccollab.History.{HistoryEntry}
use cccollab.History.Order.{Ascending}
use cccollab.Broker.State.{Broker, Env, Request, Response, LocalTopic, init, respond, history}
use cccollab.Broker.Members.{leave_topic_of}
use cccollab.Broker.Channels.{Fields, field}
use cccollab.Broker.Topics.{history_entry, get_history, page_response, before_cursor}
use cccollab.Broker.Actions.{Action, new_message}
use cccollab.Broker.Server.{handle, disconnect}
use cccollab.Broker.Change.{
  Edit, posted, joined, unjoined, closed, reopened, Scope, Change, same, edit, leave_topics, create,
  leave_each-keeps,
}
use cccollab.Broker.Refine.{handle-Changes}
use cccollab.History.{clamp_history_limit, HistoryPage, older_than}
use cccollab.History.Limit.{clamp_history_limit_lem}
use cccollab.History.Paging.{page-IsWindow, IsWindow}

-- `messages` is ascending, and nothing in it is after `n`.
abbrev pub IsLogged : ℕ → LocalTopic → Type 0
IsLogged n t =
    Ascending (map history_entry t.messages) × All (λ m. m.ts ≤ n) (map history_entry t.messages)

abbrev pub AllLogged : ℕ → Assoc LocalTopic → Type 0
AllLogged n m = (id : String) (t : LocalTopic) → lookup id m ≡ some t → IsLogged n t

Ascending-snoc :
    (ms : List HistoryEntry) (x : HistoryEntry)
    → Ascending ms
    → All (λ m. m.ts ≤ x.ts) ms
    → Ascending (ms ++ x ∷ [])
Ascending-snoc [] x h k = (tt, tt)
Ascending-snoc (m ∷ ms) x h k =
    (All-append (λ y. m.ts ≤ y.ts) ms (x ∷ []) h.0 (k.0, tt), Ascending-snoc ms x h.1 k.1)

IsLogged-later : (n n' : ℕ) (t : LocalTopic) → n ≤ n' → IsLogged n t → IsLogged n' t
IsLogged-later n n' t le (h, k) =
    (h, All-map (λ m l. le_trans l le) (map history_entry t.messages) k)

Edit-IsLogged :
    {env : Env} {u : Bool} {action : Action} {t t' : LocalTopic} (n : ℕ)
    → n ≤ env.now
    → Edit env u t action t'
    → IsLogged n t
    → IsLogged env.now t'
Edit-IsLogged {env} {t} n le (posted text sender) h =
    let (asc, all) = IsLogged-later n env.now t le h in
    rw map-append (
      Ascending-snoc (map history_entry t.messages) (history_entry (new_message env text sender))
          asc all,
      All-append (λ m. m.ts ≤ env.now) (map history_entry t.messages) _ all (le_refl env.now, tt),
    )
Edit-IsLogged {env} {t} n le (joined s) h = IsLogged-later n env.now t le h
Edit-IsLogged {env} {t} n le (unjoined s) h = IsLogged-later n env.now t le h
Edit-IsLogged {env} {t} n le closed h = IsLogged-later n env.now t le h
Edit-IsLogged {env} {t} n le (reopened p) h = IsLogged-later n env.now t le h

leave-IsLogged :
    (n : ℕ) (s c : String) (t : LocalTopic) → IsLogged n t → IsLogged n (leave_topic_of s c t)
unfolding leave_topic_of
leave-IsLogged n s c t h = elim (Bool-cases (str_eq t.channel c)) [
  | inl here ↦ rw (here, leave_topic_of) h
  | inr there ↦ rw (there, leave_topic_of) h
]

leave-AllLogged :
    (n : ℕ) (s c : String) (m : Assoc LocalTopic)
    → AllLogged n m
    → AllLogged n (map_values (leave_topic_of s c) m)
leave-AllLogged n s c m h id t e =
    let e' : Option.map (leave_topic_of s c) (lookup id m) ≡ some t =
      sym (lookup-map_values (leave_topic_of s c) m id) ∙ e in
    elim (Option-cases (lookup id m)) [
      | inl missing ↦ ground (arith, missing, e')
      | inr (t0, there) ↦
          let q : leave_topic_of s c t0 ≡ t = ground (arith, there, e') in
          subst (IsLogged n) q (leave-IsLogged n s c t0 (h id t0 there))
    ]

Change-AllLogged :
    {rt : Runtime} {env : Env} {u : Bool} {scope : Scope} {m m' : Assoc LocalTopic} (n : ℕ)
    → n ≤ env.now
    → Change rt env u scope m m'
    → AllLogged n m
    → AllLogged env.now m'
Change-AllLogged {env} n le same h id t e = IsLogged-later n env.now t le (h id t e)
Change-AllLogged {env} {m} n le (edit id {t} {t'} there k _) h id1 t1 e =
    elim (lookup-set_cases id t' m id1 t1 e) [
      | inl (here, q) ↦ subst (IsLogged env.now) q (Edit-IsLogged n le k (h id t there))
      | inr old ↦ IsLogged-later n env.now t1 le (h id1 t1 old)
    ]
Change-AllLogged {env} {m} n le (leave_topics s cs q) h id t e =
    leave_each-keeps (AllLogged env.now) s cs (leave-AllLogged env.now s) m
      (λ id1 t1 e1. IsLogged-later n env.now t1 le (h id1 t1 e1)) id t e
Change-AllLogged {env} {m} n le (create topic creator channel _ free) h id t e =
    elim (lookup-set_cases env.uuid _ m id t e) [
      | inl (here, q) ↦ subst (IsLogged env.now) q (tt, tt)
      | inr old ↦ IsLogged-later n env.now t le (h id t old)
    ]

-- The states that requests lead to under a clock that does not go back, with its last reading.
pub data TimedReach (rt : Runtime) : ℕ → Broker → Type 0 where
  start : TimedReach rt 0 init
  answered :
      {n : ℕ} {b c : Broker} (env : Env) (req : Request) (res : Response)
      → TimedReach rt n b
      → n ≤ env.now
      → handle rt env req b ≡ some (c, res)
      → TimedReach rt env.now c
  dropped :
      {n : ℕ} {b : Broker} (connection : ℕ)
      → TimedReach rt n b
      → TimedReach rt n (disconnect connection b)

parsed :
    (rt : Runtime) (env : Env) (req : Request) (b c : Broker) (res : Response)
    → handle rt env req b ≡ some (c, res)
    → (url : Url) × (rt.parse_url req.url ≡ some url)
unfolding handle
parsed rt env req b c res e = elim (Option-cases (rt.parse_url req.url)) [
  | inl bad ↦ absurd (ground (arith, bad, e))
  | inr found ↦ found
]

pub TimedReach-AllLogged :
    {rt : Runtime} {n : ℕ} {b : Broker} → TimedReach rt n b → AllLogged n b.topics
unfolding disconnect
TimedReach-AllLogged start = λ id t e. unfold lookup in cc
TimedReach-AllLogged {rt} (answered {n} {b} {c} env req res r le e) =
    let (url, p) = parsed rt env req b c res e in
    Change-AllLogged n le (handle-Changes rt env req b c res url p e) (TimedReach-AllLogged r)
TimedReach-AllLogged (dropped connection r) = TimedReach-AllLogged r

-- Under a clock that does not go back, GET /topics/:id/messages answers 200 for every topic and
-- whatever the query, with a window of the topic's messages: a suffix of those before the cursor,
-- at least `limit` of them or all of them, `hasMore` exactly if some are left, and those strictly
-- before the page's first.
pub get_history-IsWindow :
    {rt : Runtime} {n : ℕ} {b : Broker} (id : String) (t : LocalTopic) (query : Fields)
    → TimedReach rt n b
    → lookup id b.topics ≡ some t
    → (p : HistoryPage) × (get_history rt id query b ≡ some (b, respond 200 (history p)))
      × IsWindow
          (older_than (before_cursor rt (field "before" query)) (map history_entry t.messages))
          (clamp_history_limit rt.to_number (field "limit" query))
          p
unfolding get_history
get_history-IsWindow {rt} {b} id t query r e =
    let limit = clamp_history_limit rt.to_number (field "limit" query) in
    let before = before_cursor rt (field "before" query) in
    let (p, page, window) =
      page-IsWindow (map history_entry t.messages) limit before (TimedReach-AllLogged r id t e).0
        (clamp_history_limit_lem rt.to_number (field "limit" query)).0.0 in
    (p, rw (e, get_history) (ap (page_response b) page), window)
