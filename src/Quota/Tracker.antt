-- ===== src/Quota/Tracker.antt =====
-- internal/quota/tracker.go: the usage that a token has committed to and that its stored total
-- does not show yet. Every call holds the tracker's lock throughout, so each is one step.
-- Amounts are int64 patterns; a limit that is left out means no limit.
pub mod Accounting
pub mod Budget
use wildtoken.Prelude.{
  ℕ, Bool, true, false, ◌&&◌, Option, none, some, List, [], ◌∷◌, ◌==◌, if◌then◌else◌, ℕ_discrete,
  length,
}
use wildtoken.Prelude.Int64
use wildtoken.Prelude.Assoc
use wildtoken.Prelude.Assoc.{Assoc}

-- ProvisionalCost
abbrev pub provisional_cost : ℕ
provisional_cost = 4096

pub record Outstanding : Type 0 where
  pub requests : ℕ
  pub metered : ℕ

abbrev pub Tracker : Type 0
Tracker = Assoc ℕ Outstanding

abbrev pub nothing : Outstanding
nothing = record { requests = 0; metered = 0 }

-- A reservation; the tracker it points to is the one that its holder works on.
pub record Reservation : Type 0 where
  pub token : ℕ
  pub held : Bool

-- The zero value.
abbrev pub no_reservation : Reservation
no_reservation = record { token = 0; held = false }

-- `entry.metered + entry.requests*ProvisionalCost`
abbrev pub weight : Outstanding → ℕ
weight entry = Int64.add entry.metered (Int64.mul entry.requests provisional_cost)

abbrev pub entry_of : Option Outstanding → Outstanding
entry_of none = nothing
entry_of (some entry) = entry

-- Admit's total: what is stored, and what is outstanding if there is an entry.
unfoldable pub projected : ℕ → Option Outstanding → ℕ
projected stored none = stored
projected stored (some entry) = Int64.add stored (weight entry)

unfoldable pub admit : Tracker → ℕ → ℕ → Option ℕ → Tracker × Reservation × Bool
unfolding projected
admit t token stored none = (t, no_reservation, true)
admit t token stored (some limit) =
    let found = Assoc.get ℕ_discrete token t in
    if Int64.le limit (projected stored found) then (t, no_reservation, false) else (
      Assoc.put ℕ_discrete token
          (record (entry_of found) { requests = Int64.add (entry_of found).requests 1 }) t,
      record { token = token; held = true },
      true,
    )

unfoldable pub meter : Tracker → ℕ → ℕ → Tracker
meter t token used =
    let entry = entry_of (Assoc.get ℕ_discrete token t) in
    if Int64.le used 0
    then t
    else Assoc.put ℕ_discrete token (record entry { metered = Int64.add entry.metered used }) t

-- max(a, 0) of an int64
abbrev pub not_negative : ℕ → ℕ
not_negative a = if Int64.lt a 0 then 0 else a

-- The entry is written back, and dropped if it holds nothing.
unfoldable pub discard_if_idle : Tracker → ℕ → Outstanding → Tracker
discard_if_idle t token entry =
    let kept = Assoc.put ℕ_discrete token entry t in
    if entry.requests == 0 && entry.metered == 0 then Assoc.delete ℕ_discrete token kept else kept

unfoldable pub settle : Tracker → ℕ → ℕ → Tracker
unfolding discard_if_idle
settle t token used =
    let settled : Tracker = elim (Assoc.get ℕ_discrete token t) [
      | none ↦ t
      | some entry ↦
          discard_if_idle t token
            (record entry { metered = not_negative (Int64.sub entry.metered used) })
    ] in
    if Int64.le used 0 then t else settled

unfoldable pub outstanding : Tracker → ℕ → ℕ
outstanding t token = elim (Assoc.get ℕ_discrete token t) [ none ↦ 0 | some entry ↦ weight entry ]

unfoldable pub tracked : Tracker → ℕ
tracked t = length t

-- The unexported `release` of a token.
unfoldable pub release_token : Tracker → ℕ → Tracker
unfolding discard_if_idle
release_token t token = elim (Assoc.get ℕ_discrete token t) [
  | none ↦ t
  | some entry ↦
      discard_if_idle t token
        (record entry { requests = not_negative (Int64.sub entry.requests 1) })
]

-- `Reservation.Release`: the reservation is spent whether or not it is called again.
unfoldable pub release : Tracker → Reservation → Tracker × Reservation
unfolding release_token
release t r = if r.held then (release_token t r.token, record r { held = false }) else (t, r)
