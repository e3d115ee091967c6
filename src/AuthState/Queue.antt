-- ===== src/AuthState/Queue.antt =====
-- internal/authstate/throttle.go, type verificationQueue: the queue for the one verification slot.
-- The channel is the number of tokens in it. `enter` is the steps join, take_slot and leave; the
-- function that it returns is release.
pub mod Slots
mod Examples
use wildtoken.Prelude.{ℕ, suc, ◌-◌, ◌==◌, Bool, true, false, Option, none, some, if◌then◌else◌}
use wildtoken.Prelude.Int64

abbrev pub max_verification_waiters : ℕ
max_verification_waiters = 8

pub record VerificationQueue : Type 0 where
  pub waiting : ℕ
  pub slot : ℕ

abbrev pub new_verification_queue : VerificationQueue
new_verification_queue = record { waiting = 0; slot = 1 }

-- The bound on the waiters: the new queue, and whether the caller may wait.
unfoldable pub join : VerificationQueue → VerificationQueue × Bool
join q =
    if Int64.le max_verification_waiters q.waiting
    then (q, false)
    else (record q { waiting = Int64.add q.waiting 1 }, true)

-- `<-q.slot`; `none` where it blocks.
unfoldable pub take_slot : VerificationQueue → Option VerificationQueue
take_slot q = if q.slot == 0 then none else some (record q { slot = q.slot - 1 })

unfoldable pub leave : VerificationQueue → VerificationQueue
leave q = record q { waiting = Int64.sub q.waiting 1 }

-- The returned function: its token goes back, once. `done` is what sync.Once remembers.
unfoldable pub release : VerificationQueue → Bool → VerificationQueue × Bool
release q done = if done then (q, true) else (record q { slot = suc q.slot }, true)

abbrev pub waiting_count : VerificationQueue → ℕ
waiting_count q = q.waiting
