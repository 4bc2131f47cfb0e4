-- ===== src/Lock/System.antt =====
-- Processes that share the lock file of mcp_server/src/config/save.ts. One step is one file operation
-- of one process, or the clock, or the end of a process.
use cccollab.Base.{ℕ, ◌+◌, ◌≤◌, ◌<◌, ◌≡◌, Bool, true, false, Option, none, some, eqb, if◌then◌else◌}
use cccollab.Lock.{lock_timeout_ms, stale_lock_ms}

pub record LockFile : Type 0 where
  pub pid : ℕ
  pub mtime : ℕ

-- Where a process is in `acquireLock`, in the critical section, or in `releaseLock`.
pub data Pc : Type 0 where
  idle holding releasing ended : Pc
  create look read check unlink : (deadline : ℕ) → Pc

pub record System : Type 0 where
  pub lock : Option LockFile
  pub now : ℕ
  pub pc : ℕ → Pc

abbrev pub begin : System
begin = record { lock = none; now = 0; pc = λ i. idle }

unfoldable pub goto : ℕ → Pc → System → System
goto i p s = record s { pc = λ j. if eqb i j then p else s.pc j }

abbrev pub has_ended : Pc → Bool
has_ended ended = true
has_ended _ = false

-- `isPidDead` of what is read; a file that is gone reads as "", which is no pid
abbrev pub pid_dead : System → Option LockFile → Bool
pid_dead s none = true
pid_dead s (some f) = has_ended (s.pc f.pid)

pub data Step (s : System) : System → Type 0 where
  tick : (ms : ℕ) → Step s (record s { now = s.now + ms })
  enter : (i : ℕ) → s.pc i ≡ idle → Step s (goto i (create (s.now + lock_timeout_ms)) s)
  created :
      (i d : ℕ)
      → s.pc i ≡ create d
      → s.lock ≡ none
      → Step s (goto i holding (record s { lock = some (record { pid = i; mtime = s.now }) }))
  exists_already :
      (i d : ℕ) (f : LockFile) → s.pc i ≡ create d → s.lock ≡ some f → Step s (goto i (look d) s)
  look_gone : (i d : ℕ) → s.pc i ≡ look d → s.lock ≡ none → Step s (goto i (create d) s)
  look_fresh :
      (i d : ℕ) (f : LockFile)
      → s.pc i ≡ look d
      → s.lock ≡ some f
      → s.now ≤ f.mtime + stale_lock_ms
      → Step s (goto i (check d) s)
  look_stale :
      (i d : ℕ) (f : LockFile)
      → s.pc i ≡ look d
      → s.lock ≡ some f
      → f.mtime + stale_lock_ms < s.now
      → Step s (goto i (read d) s)
  read_dead : (i d : ℕ) → s.pc i ≡ read d → pid_dead s s.lock ≡ true → Step s (goto i (unlink d) s)
  read_alive : (i d : ℕ) → s.pc i ≡ read d → pid_dead s s.lock ≡ false → Step s (goto i (check d) s)
  unlinked : (i d : ℕ) → s.pc i ≡ unlink d → Step s (goto i (create d) (record s { lock = none }))
  timed_out : (i d : ℕ) → s.pc i ≡ check d → d ≤ s.now → Step s (goto i idle s)
  slept : (i d : ℕ) → s.pc i ≡ check d → s.now < d → Step s (goto i (create d) s)
  finished : (i : ℕ) → s.pc i ≡ holding → Step s (goto i releasing s)
  released : (i : ℕ) → s.pc i ≡ releasing → Step s (goto i idle (record s { lock = none }))
  died : (i : ℕ) → Step s (goto i ended s)

pub data Steps (s : System) : System → Type 0 where
  stay : Steps s s
  more : {t u : System} → Steps s t → Step t u → Steps s u
