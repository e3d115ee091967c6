-- ===== src/AuthState/Queue/Slots.antt =====
-- Who waits for the slot and who holds it.
use wildtoken.Prelude.{
  ℕ, suc, ◌+◌, ◌-◌, ◌≤◌, ◌<◌, ◌≡◌, refl, ap, ◌∙◌, true, false, none, some, arith, leb, Bool-cases,
  ◌==◌, some_eq, inl, inr,
}
use wildtoken.Prelude.Int64
use wildtoken.AuthState.Queue.{
  VerificationQueue, max_verification_waiters, new_verification_queue, join, take_slot, leave,
  release, waiting_count,
}

-- The queue with its callers: those that took the slot and are still counted as waiting, and those
-- that verify.
pub record World : Type 0 where
  pub queue : VerificationQueue
  pub taking : ℕ
  pub verifying : ℕ

abbrev pub new_world : World
new_world = record { queue = new_verification_queue; taking = 0; verifying = 0 }

pub data Step (w : World) : World → Type 0 where
  joins : Step w (record w { queue = (join w.queue).0 })
  takes :
      (q : VerificationQueue)
      → w.taking < w.queue.waiting
      → take_slot w.queue ≡ some q
      → Step w (record w { queue = q; taking = w.taking + 1 })
  leaves :
      (n : ℕ)
      → w.taking ≡ suc n
      → Step w (record w { queue = leave w.queue; taking = n; verifying = w.verifying + 1 })
  releases :
      (n : ℕ)
      → w.verifying ≡ suc n
      → Step w (record w { queue = (release w.queue false).0; verifying = n })
  releases_again : Step w (record w { queue = (release w.queue true).0 })

pub data Reachable : World → Type 0 where
  begins : Reachable new_world
  goes_on : {w v : World} → Reachable w → Step w v → Reachable v

-- There is one token: in the channel, or with a caller. The channel never holds two, so a release
-- does not block.
pub record IsBounded (w : World) : Type 0 where
  pub one : w.queue.slot + w.taking + w.verifying ≡ 1
  pub counted : w.taking ≤ waiting_count w.queue
  pub waiting : waiting_count w.queue ≤ max_verification_waiters

Step-IsBounded : {w v : World} → Step w v → IsBounded w → IsBounded v
unfolding join take_slot leave release
Step-IsBounded {w} joins b = elim (Bool-cases (leb max_verification_waiters w.queue.waiting)) [
  | inl full ↦
      let test : Int64.le max_verification_waiters w.queue.waiting ≡ true =
        Int64.le_lem _ _ (omega arith) (omega (arith, b.waiting)) ∙ full in
      rw (test, join) b
  | inr room ↦
      let test : Int64.le max_verification_waiters w.queue.waiting ≡ false =
        Int64.le_lem _ _ (omega arith) (omega (arith, b.waiting)) ∙ room in
      let more : Int64.add w.queue.waiting 1 ≡ w.queue.waiting + 1 =
        Int64.add_lem _ _ (omega (arith, b.waiting)) in
      rw (test, join)
        (record {
          one = b.one;
          counted = omega (arith, b.counted, more);
          waiting = ground (arith, b.waiting, more, room);
        })
]
Step-IsBounded {w} (takes q h e) b = elim (Bool-cases (w.queue.slot == 0)) [
  | inl blocked ↦ absurd (let never : none ≡ some q = rw (blocked, take_slot) at e in cc (never))
  | inr free ↦
      let taken : record (w.queue) { slot = w.queue.slot - 1 } ≡ q =
        some_eq (rw (free, take_slot) at e) in
      let slot = ap (λ (r : VerificationQueue). r.slot) taken in
      let waiting = ap (λ (r : VerificationQueue). r.waiting) taken in
      record {
        one = ground (arith, b.one, slot, free);
        counted = omega (arith, h, waiting);
        waiting = omega (arith, b.waiting, waiting);
      }
]
Step-IsBounded {w} (leaves n e) b =
    let fewer : Int64.sub w.queue.waiting 1 ≡ w.queue.waiting - 1 =
      Int64.sub_lem _ _ (omega (arith, b.waiting)) (omega (arith, b.counted, e)) in
    record {
      one = omega (arith, b.one, e);
      counted = omega (arith, b.counted, e, fewer);
      waiting = omega (arith, b.waiting, fewer);
    }
Step-IsBounded {w} (releases n e) b = record {
  one = omega (arith, b.one, e);
  counted = b.counted;
  waiting = b.waiting;
}
Step-IsBounded releases_again b = b

-- However callers enter and release, also more than once, at most eight wait, at most one holds the
-- slot, and the channel has room for the token that a release puts back.
pub world-IsBounded : {w : World} → Reachable w → IsBounded w
world-IsBounded begins = record { one = refl; counted = omega arith; waiting = omega arith }
world-IsBounded (goes_on r s) = Step-IsBounded s (world-IsBounded r)
