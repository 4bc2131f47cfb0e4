-- ===== src/Lock/Waiting.antt =====
-- How long `acquireLock` of mcp_server/src/config/save.ts waits.
use cccollab.Base.{
  ℕ, zero, suc, ◌+◌, ◌*◌, ◌≤◌, ◌<◌, ◌≡◌, refl, ◌∙◌, if◌then◌else◌, ◌⊎◌, inl, inr, true, false, none,
  some, arith, leb, Bool-cases,
}
use cccollab.Lock.{
  Created, made, exists_already, refused, Round, Outcome, acquired, timed_out, write_error,
  lock_timeout_ms, lock_poll_ms, goes_on, acquire,
}

-- The process sleeps between two rounds that both come to the deadline, so the clock goes on.
abbrev pub IsPolled : (ℕ → Round) → ℕ → Type 0
IsPolled rounds begin = (k : ℕ) → begin + k * lock_poll_ms ≤ (rounds k).now

-- No round goes on at once.
abbrev pub HasLiveHolder : (ℕ → Round) → Type 0
HasLiveHolder rounds = (k : ℕ) → goes_on (rounds k) ≡ false

-- One round, by what it finds.
acquire_made :
    (fuel : ℕ) (rounds : ℕ → Round) (deadline k : ℕ)
    → (rounds k).created ≡ made
    → acquire (suc fuel) rounds deadline k ≡ some acquired
unfolding acquire
acquire_made fuel rounds deadline k e = ground (arith, e)

acquire_refused :
    (fuel : ℕ) (rounds : ℕ → Round) (deadline k : ℕ)
    → (rounds k).created ≡ refused
    → acquire (suc fuel) rounds deadline k ≡ some write_error
unfolding acquire
acquire_refused fuel rounds deadline k e = ground (arith, e)

acquire_exists :
    (fuel : ℕ) (rounds : ℕ → Round) (deadline k : ℕ)
    → (rounds k).created ≡ exists_already
    → acquire (suc fuel) rounds deadline k ≡ (
        if goes_on (rounds k)
        then acquire fuel rounds deadline (suc k)
        else if leb deadline (rounds k).now
        then some timed_out
        else acquire fuel rounds deadline (suc k))
unfolding acquire
acquire_exists fuel rounds deadline k e = ground (arith, e)

Created-cases : (c : Created) → (c ≡ made) ⊎ ((c ≡ refused) ⊎ (c ≡ exists_already))
Created-cases made = inl refl
Created-cases refused = inr (inl refl)
Created-cases exists_already = inr (inr refl)

acquire_ends :
    (fuel : ℕ) (rounds : ℕ → Round) (begin k : ℕ)
    → IsPolled rounds begin
    → HasLiveHolder rounds
    → lock_timeout_ms < (fuel + k) * lock_poll_ms
    → 1 ≤ fuel
    → (o : Outcome) × (acquire fuel rounds (begin + lock_timeout_ms) k ≡ some o)
acquire_ends zero rounds begin k p h l f = absurd (omega arith)
acquire_ends (suc fuel) rounds begin k p h l f =
    let deadline = begin + lock_timeout_ms in
    elim (Created-cases (rounds k).created) [
      | inl e ↦ (acquired, acquire_made fuel rounds deadline k e)
      | inr (inl e) ↦ (write_error, acquire_refused fuel rounds deadline k e)
      | inr (inr e) ↦ elim (Bool-cases (leb deadline (rounds k).now)) [
        | inl late ↦
            (timed_out, acquire_exists fuel rounds deadline k e ∙ ground (arith, h k, late))
        | inr early ↦
            let left : (rounds k).now < deadline = ground (arith, early) in
            let (o, q) =
              acquire_ends fuel rounds begin (suc k) p h (omega (arith, l))
                (omega (arith, l, p k, left)) in
            (o, acquire_exists fuel rounds deadline k e ∙ ground (arith, h k, early, q))
      ]
    ]

-- While no round goes on at once, and the clock goes on by 50 ms for each round, `acquireLock` ends
-- within 101 rounds, by having the lock, by the time-out or by another error.
pub acquire-total :
    (rounds : ℕ → Round) (begin : ℕ)
    → IsPolled rounds begin
    → HasLiveHolder rounds
    → (o : Outcome) × (acquire 101 rounds (begin + lock_timeout_ms) 0 ≡ some o)
acquire-total rounds begin p h = acquire_ends 101 rounds begin 0 p h (omega arith) (omega arith)

-- The deadline is not looked at in a round that goes on at once: where every round finds a stale file
-- of a dead process, as when the file cannot be deleted, the loop never ends, whatever the clock says.
pub acquire-none :
    (rounds : ℕ → Round) (deadline : ℕ)
    → ((k : ℕ) → (rounds k).created ≡ exists_already)
    → ((k : ℕ) → goes_on (rounds k) ≡ true)
    → (fuel k : ℕ) → acquire fuel rounds deadline k ≡ none
acquire-none rounds deadline c g zero k = unfold acquire in refl
acquire-none rounds deadline c g (suc fuel) k =
    acquire_exists fuel rounds deadline k (c k)
    ∙ ground (arith, g k, acquire-none rounds deadline c g fuel (suc k))
