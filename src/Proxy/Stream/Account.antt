-- ===== src/Proxy/Stream/Account.antt =====
-- A stream is logged once, and its channel is credited or charged for it at most once.
use wildtoken.Prelude.{ℕ, ◌≡◌, ◌⊎◌, Bool, true, false, Option, none, some, List, [], ◌∷◌}
use wildtoken.Text.{Text}
use wildtoken.Proxy.Sse.Observation.{Observation}
use wildtoken.Proxy.Sse.Observation.Errors.{HasError}
use wildtoken.Proxy.Stream.{Moment, Entry, Row, HealthCall, record_success, record_failure, Stream}

-- What a row says of a stream, and the calls of the health manager that go with it, where `status` is
-- the upstream's own status and `o` what the stream has shown: it ended as it should; it reported
-- an error itself, which blames the channel or does not; it was cut off, by the upstream or a
-- timeout, which is only to be said where `blames`; its client left; or its account was lost.
pub data Verdict (blames : Bool) (status : ℕ) (o : Observation) (r : Row)
    : List HealthCall → Type 0 where
  completed : r.status_code ≡ status → Verdict blames status o r (record_success ∷ [])
  reported :
      {message : Text}
      → HasError message true o
      → r.status_code ≡ 502
      → r.failure ≡ some message
      → Verdict blames status o r (record_failure ∷ [])
  forgiven :
      {message : Text}
      → HasError message false o
      → r.status_code ≡ 502
      → r.failure ≡ some message
      → Verdict blames status o r []
  cut_off :
      {message : Text}
      → blames ≡ true
      → (r.status_code ≡ 502) ⊎ (r.status_code ≡ 504)
      → r.failure ≡ some message
      → Verdict blames status o r (record_failure ∷ [])
  walked_away :
      {message : Text}
      → r.status_code ≡ 499
      → r.failure ≡ some message
      → Verdict blames status o r []
  account_lost :
      {message : Text}
      → r.status_code ≡ 500
      → r.failure ≡ some message
      → Verdict blames status o r []

-- The rows and the calls of a stream that is not logged yet, and of one that is.
pub data Account (blames : Bool) (status : ℕ) (o : Observation)
    : Option Entry → List Row → List HealthCall → Type 0 where
  pending : {e : Entry} → Account blames status o (some e) [] []
  logged :
      {r : Row} {calls : List HealthCall}
      → Verdict blames status o r calls
      → Account blames status o none (r ∷ []) calls

abbrev pub IsBalanced : Bool → Stream → Type 0
IsBalanced blames s = Account blames s.upstream_status s.observation s.entry s.rows s.health

-- A moment at which a channel may be blamed for a read that fails, or the client is gone while the
-- attempt's time is not over.
abbrev pub Allows : Bool → Moment → Type 0
Allows blames m = (blames ≡ true) ⊎ ((m.expired ≡ false) × (m.client_gone ≡ true))

moved-Verdict :
    {blames : Bool} {status : ℕ} {o p : Observation} {r : Row} {calls : List HealthCall}
    → ((message : Text) (fault : Bool) → HasError message fault o → HasError message fault p)
    → Verdict blames status o r calls
    → Verdict blames status p r calls
moved-Verdict keeps (completed e) = completed e
moved-Verdict keeps (reported {message = message} h e f) = reported (keeps message true h) e f
moved-Verdict keeps (forgiven {message = message} h e f) = forgiven (keeps message false h) e f
moved-Verdict keeps (cut_off b e f) = cut_off b e f
moved-Verdict keeps (walked_away e f) = walked_away e f
moved-Verdict keeps (account_lost e f) = account_lost e f

-- What a stream shows later changes nothing in its account.
pub moved :
    {blames : Bool} {status : ℕ} {o p : Observation} {entry : Option Entry} {rows : List Row}
    {calls : List HealthCall}
    → ((message : Text) (fault : Bool) → HasError message fault o → HasError message fault p)
    → Account blames status o entry rows calls
    → Account blames status p entry rows calls
moved keeps pending = pending
moved keeps (logged v) = logged (moved-Verdict keeps v)
