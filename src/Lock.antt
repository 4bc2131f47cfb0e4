-- ===== src/Lock.antt =====
-- The lock file of mcp_server/src/config/save.ts: the loop of one process over what it finds, and,
-- in System, several processes whose file operations interleave.
pub mod Waiting
pub mod System
pub mod Exclusion
pub mod Reaping
mod Tests
use cccollab.Base.{
  ℕ, zero, suc, ◌+◌, Bool, true, false, Option, none, some, ltb, leb, if◌then◌else◌,
}

abbrev pub lock_timeout_ms : ℕ
lock_timeout_ms = 5000

abbrev pub stale_lock_ms : ℕ
stale_lock_ms = 30000

abbrev pub lock_poll_ms : ℕ
lock_poll_ms = 50

-- what `writeFileSync(lock, pid, { flag: 'wx' })` does
pub data Created : Type 0 where
  made exists_already refused : Created

-- The process whose pid a lock file has: `isPidDead` of its text. A file that is gone has the text "",
-- which is no pid, so it counts as dead.
pub data Holder : Type 0 where
  alive dead : Holder

-- What one round of the loop finds: the file, its modification time at the time of the look (`none`
-- if it is gone), its holder, and the clock at the round's end.
pub record Round : Type 0 where
  pub created : Created
  pub mtime : Option ℕ
  pub looked_at : ℕ
  pub holder : Holder
  pub now : ℕ

pub data Outcome : Type 0 where
  acquired timed_out write_error : Outcome

-- `age > STALE_LOCK_MS`
abbrev pub is_stale : ℕ → ℕ → Bool
is_stale now mtime = ltb (mtime + stale_lock_ms) now

abbrev pub is_dead : Holder → Bool
is_dead dead = true
is_dead alive = false

-- Where a round that finds the file goes on: at once, or to the check of the deadline.
unfoldable pub goes_on : Round → Bool
goes_on r = elim r.mtime [
  | none ↦ true
  | some t ↦ if is_stale r.looked_at t then is_dead r.holder else false
]

-- The loop of `acquireLock`, over the rounds that the process will see; `none` is a loop that has not
-- ended when the fuel has run out.
unfoldable pub acquire : ℕ → (ℕ → Round) → ℕ → ℕ → Option Outcome
unfolding goes_on
acquire zero rounds deadline k = none
acquire (suc fuel) rounds deadline k =
    let again = acquire fuel rounds deadline (suc k) in
    elim (rounds k).created [
      | made ↦ some acquired
      | refused ↦ some write_error
      | exists_already ↦
          if goes_on (rounds k)
          then again
          else if leb deadline (rounds k).now
          then some timed_out
          else again
    ]
