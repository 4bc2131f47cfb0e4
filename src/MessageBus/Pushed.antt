-- ===== src/MessageBus/Pushed.antt =====
-- What `MessageBus.push` gives out and what it keeps (mcp_server/src/message-bus.ts).
use cccollab.Base.{
  ℕ, ◌+◌, ◌<◌, ◌≡◌, ◌⊎◌, inl, inr, refl, ap, ◌∙◌, true, false, Bool, String, Option, none, some,
  List, [], ◌∷◌, if◌then◌else◌, arith, Option-cases, Bool-cases,
}
use cccollab.Base.Nullable.{truthy, or_else}
use cccollab.Base.Assoc.{Assoc, lookup}
use cccollab.MessageBus.{
  ParsedMessage, Dates, Emitted, dropped, notification, notify_error, on_channel, on_thread,
  dedup_window_ms, dedup_key, vacuum, is_recent, push, deliver, remember, meta_of,
}
use cccollab.MessageBus.Seen.{HasUniqueKeys, push_lem, lookup-vacuum}
use cccollab.MessageBus.Repeat.{IsBefore, IsBefore-vacuum, lookup-remember}

-- What is given out of a delivered message, by whether the client takes the notification and by the
-- message's thread.
abbrev pub given_out : ParsedMessage → String → Bool → Option String → List Emitted
given_out msg source false thread = notify_error msg source ∷ []
given_out msg source true none = on_channel msg.channel msg ∷ []
given_out msg source true (some t) = on_channel msg.channel msg ∷ on_thread t msg ∷ []

abbrev thread_field : Option String → List (String × String)
thread_field none = []
thread_field (some t) = ("thread_ts", t) ∷ []

-- the client's notification of a message
abbrev pub notice : ParsedMessage → String → Emitted
notice msg source = notification msg.text (
    ("sender", msg.sender)
    ∷ ("channel", or_else msg.channel_name msg.channel)
    ∷ ("channel_id", msg.channel)
    ∷ ("ts", msg.ts)
    ∷ ("source", source)
    ∷ thread_field (truthy msg.thread_ts))

deliver_lem :
    (accepted : Bool) (msg : ParsedMessage) (source : String)
    → deliver accepted msg source
      ≡ notice msg source ∷ given_out msg source accepted (truthy msg.thread_ts)
unfolding deliver meta_of
deliver_lem accepted msg source = elim (Option-cases (truthy msg.thread_ts)) [
  | inl none_ ↦ elim (Bool-cases accepted) [
    | inl took ↦ rw (none_, took) refl
    | inr failed_ ↦ rw (none_, failed_) refl
  ]
  | inr (t, there) ↦ elim (Bool-cases accepted) [
    | inl took ↦ rw (there, took) refl
    | inr failed_ ↦ rw (there, failed_) refl
  ]
]

delivered_lem :
    (dates : Dates) (now : ℕ) (accepted : Bool) (msg : ParsedMessage) (source : String)
    (table : Assoc ℕ)
    → HasUniqueKeys table
    → is_recent now (lookup (dedup_key dates msg) table) ≡ false
    → push dates now accepted msg source table
      ≡ (remember (dedup_key dates msg) now (vacuum now table), deliver accepted msg source)
delivered_lem dates now accepted msg source table h old =
    let cases = push_lem dates now accepted msg source table h in
    elim (Option-cases (lookup (dedup_key dates msg) table)) [
      | inl absent ↦ cases.2 absent
      | inr (t, there) ↦ cases.1 t there (ground (arith, there, old))
    ]

recent_time :
    (now : ℕ) (last : Option ℕ)
    → is_recent now last ≡ true
    → (t : ℕ) × (last ≡ some t) × (now < t + dedup_window_ms)
recent_time now none e = absurd (ground (arith, e))
recent_time now (some t) e = (t, refl, ground (arith, e))

-- With no key twice in the table, and by a clock that is not behind the table: a message whose key was
-- seen less than 10 s ago is dropped; the listeners get the earlier time, the client gets nothing, and
-- of the table exactly the keys that are 10 s old are swept. Otherwise the client is notified of its text with its
-- sender, channel, time, source and thread; where that goes through, the channel's listeners and those
-- of its thread get it, and else the failure is given out; and the table then has the message's key
-- with the time of now, also where it was full.
pub push-cases :
    (dates : Dates) (now : ℕ) (accepted : Bool) (msg : ParsedMessage) (source : String)
    (table : Assoc ℕ)
    → HasUniqueKeys table
    → IsBefore now table
    → ((t : ℕ) × (lookup (dedup_key dates msg) table ≡ some t)
        × (now < t + dedup_window_ms)
        × ((push dates now accepted msg source table).1 ≡ dropped msg source t ∷ [])
        × ((k : String)
            → lookup k (push dates now accepted msg source table).0
              ≡ (if is_recent now (lookup k table) then lookup k table else none)))
      ⊎ ((is_recent now (lookup (dedup_key dates msg) table) ≡ false)
          × ((push dates now accepted msg source table).1
              ≡ notice msg source ∷ given_out msg source accepted (truthy msg.thread_ts))
          × (lookup (dedup_key dates msg) (push dates now accepted msg source table).0 ≡ some now))
push-cases dates now accepted msg source table h b =
    let key = dedup_key dates msg in
    elim (Bool-cases (is_recent now (lookup key table))) [
      | inl recent ↦
          let (t, there, l) = recent_time now (lookup key table) recent in
          let out = (push_lem dates now accepted msg source table h).0 t there l in
          inl (
            t,
            there,
            l,
            ap (λ o. o.1) out,
            λ k. ap (λ o. lookup k o.0) out ∙ lookup-vacuum now table k h,
          )
      | inr old ↦
          let absent : lookup key (vacuum now table) ≡ none =
            ground (arith, lookup-vacuum now table key h, old) in
          let new = delivered_lem dates now accepted msg source table h old in
          inr (
            old,
            ap (λ o. o.1) new ∙ deliver_lem accepted msg source,
            ap (λ o. lookup key o.0) new
                ∙ lookup-remember key now (vacuum now table) (IsBefore-vacuum now table b) absent,
          )
    ]
