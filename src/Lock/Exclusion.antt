-- ===== src/Lock/Exclusion.antt =====
-- One process at a time, while no lock gets stale (mcp_server/src/config/save.ts).
use mathlib.Core.Path.{subst}
use cccollab.Base.{
  ℕ, ◌+◌, ◌≤◌, ◌≡◌, refl, Bool, true, false, none, some, eqb, if◌then◌else◌, arith, Bool-cases, inl,
  inr,
}
use cccollab.Lock.{lock_timeout_ms, stale_lock_ms}
use cccollab.Lock.System.{
  LockFile, Pc, idle, holding, releasing, ended, create, look, read, check, unlink, System, begin,
  goto, Step, tick, enter, created, exists_already, look_gone, look_fresh, look_stale, read_dead,
  read_alive, unlinked, timed_out, slept, finished, released, died,
}

-- in the critical section, or on the way out
abbrev pub is_inside : Pc → Bool
is_inside holding = true
is_inside releasing = true
is_inside _ = false

-- on the way to take a stale lock away
abbrev pub is_reaping : Pc → Bool
is_reaping (read d) = true
is_reaping (unlink d) = true
is_reaping _ = false

abbrev pub IsFresh : System → Type 0
IsFresh s = (f : LockFile) → s.lock ≡ some f → s.now ≤ f.mtime + stale_lock_ms

-- The states of runs in which the lock file is never older than 30 seconds.
pub data FreshReach : System → Type 0 where
  start : FreshReach begin
  next : {s t : System} → FreshReach s → IsFresh s → Step s t → FreshReach t

pub record Inv (s : System) : Type 0 where
  pub owned :
      (i : ℕ)
      → is_inside (s.pc i) ≡ true
      → (t : ℕ) × (s.lock ≡ some (record { pid = i; mtime = t }))
  pub calm : (i : ℕ) → is_reaping (s.pc i) ≡ false

goto-pc :
    (i : ℕ) (p : Pc) (s : System) (j : ℕ) → (goto i p s).pc j ≡ (if eqb i j then p else s.pc j)
unfolding goto
goto-pc i p s j = refl

-- A move of a process that is not inside afterwards, with the lock as it was.
outside_move :
    (i : ℕ) (p : Pc) (s : System)
    → is_inside p ≡ false
    → is_reaping p ≡ false
    → Inv s
    → Inv (goto i p s)
unfolding goto
outside_move i p s o r h = record {
  owned = λ j e. h.owned j (ground (arith, o, e));
  calm = λ j. ground (arith, r, h.calm j);
}

tick_move : (ms : ℕ) (s : System) → Inv s → Inv (record s { now = s.now + ms })
tick_move ms s h = record { owned = h.owned; calm = h.calm }

-- The one inside leaves, and takes its file with it: nobody else was inside.
leave_move :
    (i : ℕ) (s : System)
    → is_inside (s.pc i) ≡ true
    → Inv s
    → Inv (goto i idle (record s { lock = none }))
unfolding goto
leave_move i s inside h = record {
  owned = λ j e. elim (Bool-cases (eqb i j)) [
    | inl same ↦ absurd (ground (arith, same, e))
    | inr other ↦
        let (t, q) = h.owned i inside in
        let (u, r) = h.owned j (ground (arith, other, e)) in absurd (ground (arith, q, r, other))
  ];
  calm = λ j. ground (arith, h.calm j);
}

create_move :
    (i : ℕ) (s : System)
    → s.lock ≡ none
    → Inv s
    → Inv (goto i holding (record s { lock = some (record { pid = i; mtime = s.now }) }))
unfolding goto
create_move i s free h = record {
  owned = λ j e. elim (Bool-cases (eqb i j)) [
    | inl same ↦ (s.now, ground (arith, same))
    | inr other ↦
        let (u, r) = h.owned j (ground (arith, other, e)) in absurd (ground (arith, free, r))
  ];
  calm = λ j. ground (arith, h.calm j);
}

finish_move : (i : ℕ) (s : System) → s.pc i ≡ holding → Inv s → Inv (goto i releasing s)
unfolding goto
finish_move i s at h = record {
  owned = λ j e. elim (Bool-cases (eqb i j)) [
    | inl same ↦
        let q : i ≡ j = ground (arith, same) in
        h.owned j (subst (λ (k : ℕ). is_inside (s.pc k) ≡ true) q (ground (arith, at)))
    | inr other ↦ h.owned j (ground (arith, other, e))
  ];
  calm = λ j. ground (arith, h.calm j);
}

Step-Inv : {s t : System} → Step s t → IsFresh s → Inv s → Inv t
Step-Inv {s} (tick ms) f h = tick_move ms s h
Step-Inv {s} (enter i at) f h = outside_move i (create (s.now + lock_timeout_ms)) s refl refl h
Step-Inv {s} (created i d at free) f h = create_move i s free h
Step-Inv {s} (exists_already i d g at there) f h = outside_move i (look d) s refl refl h
Step-Inv {s} (look_gone i d at free) f h = outside_move i (create d) s refl refl h
Step-Inv {s} (look_fresh i d g at there age) f h = outside_move i (check d) s refl refl h
Step-Inv {s} (look_stale i d g at there age) f h = absurd (ground (arith, f g there, age))
Step-Inv {s} (read_dead i d at gone) f h = absurd (ground (arith, h.calm i, at))
Step-Inv {s} (read_alive i d at there) f h = outside_move i (check d) s refl refl h
Step-Inv {s} (unlinked i d at) f h = absurd (ground (arith, h.calm i, at))
Step-Inv {s} (timed_out i d at late) f h = outside_move i idle s refl refl h
Step-Inv {s} (slept i d at early) f h = outside_move i (create d) s refl refl h
Step-Inv {s} (finished i at) f h = finish_move i s at h
Step-Inv {s} (released i at) f h = leave_move i s (ground (arith, at)) h
Step-Inv {s} (died i) f h = outside_move i ended s refl refl h

FreshReach-Inv : {s : System} → FreshReach s → Inv s
FreshReach-Inv start = record { owned = λ i e. absurd (ground (arith, e)); calm = λ i. refl }
FreshReach-Inv (next r f e) = Step-Inv e f (FreshReach-Inv r)

-- In a run of any number of processes, whatever the order of their file operations and whoever dies,
-- in which no lock file gets older than 30 seconds, no two processes are in the critical section, and
-- the lock file has the pid of the one that is.
pub FreshReach-exclusive :
    {s : System} (i j : ℕ)
    → FreshReach s
    → is_inside (s.pc i) ≡ true
    → is_inside (s.pc j) ≡ true
    → (i ≡ j) × ((t : ℕ) × (s.lock ≡ some (record { pid = i; mtime = t })))
FreshReach-exclusive {s} i j r hi hj =
    let h = FreshReach-Inv r in
    let (t, q) = h.owned i hi in let (u, p) = h.owned j hj in (ground (arith, q, p), (t, q))
