-- ===== src/Lock/Reaping.antt =====
-- A process that takes a stale lock away (mcp_server/src/config/save.ts) deletes whatever file is
-- there by then.
use cccollab.Base.{ℕ, ◌≡◌, ◌≢◌, refl, ◌∙◌, none, some, arith}
use cccollab.Lock.System.{
  Pc, holding, create, unlink, System, begin, goto, Step, created, unlinked, Steps, more,
}

goto-here : (i : ℕ) (p : Pc) (s : System) → (goto i p s).pc i ≡ p
unfolding goto
goto-here i p s = ground arith

goto-other : (i j : ℕ) (p : Pc) (s : System) → i ≢ j → (goto i p s).pc j ≡ s.pc j
unfolding goto
goto-other i j p s ne = ground (arith, ne)

goto-lock : (i : ℕ) (p : Pc) (s : System) → (goto i p s).lock ≡ s.lock
unfolding goto
goto-lock i p s = refl

-- From a state in which one process has decided to take a stale lock away and another one is in the
-- critical section by then, two steps, the deletion and the creation of the file by the first one, lead
-- to a state in which both of them are there.
pub unlink-breaks :
    (s : System) (i j d : ℕ)
    → Steps begin s
    → s.pc i ≡ unlink d
    → s.pc j ≡ holding
    → i ≢ j
    → (s1 : System) × (t : System) × Step s s1
      × Step s1 t
      × Steps begin t
      × (s1.lock ≡ none)
      × (t.pc i ≡ holding)
      × (t.pc j ≡ holding)
unlink-breaks s i j d r u h ne =
    let s1 = goto i (create d) (record s { lock = none }) in
    let s2 = goto i holding (record s1 { lock = some (record { pid = i; mtime = s1.now }) }) in
    let first : Step s s1 = unlinked i d u in
    let second : Step s1 s2 =
      created i d (goto-here i (create d) (record s { lock = none }))
        (goto-lock i (create d) (record s { lock = none })) in
    let still : s1.pc j ≡ holding = goto-other i j (create d) (record s { lock = none }) ne ∙ h in
    (
      s1,
      s2,
      first,
      second,
      more (more r first) second,
      goto-lock i (create d) (record s { lock = none }),
      goto-here i holding (record s1 { lock = some (record { pid = i; mtime = s1.now }) }),
      goto-other i j holding (record s1 { lock = some (record { pid = i; mtime = s1.now }) }) ne
          ∙ still,
    )
