-- ===== src/Proxy/Keys.antt =====
-- internal/proxy/keys.go: which of a channel's keys an attempt uses, and for how long a refused key
-- sits out. Every method holds the picker's lock; the clock's reading is an argument. A picker may
-- be nil (`none`): it takes the first key and remembers nothing. `refused` is the caller's set of
-- key ids, as a test. The header parser RetryAfter is left out.
pub mod Choice
pub mod Rotation
pub mod Cooldown
use wildtoken.Prelude.{
  ℕ, zero, suc, ◌+◌, ◌-◌, ◌*◌, ◌%◌, ◌^◌, min, Bool, true, false, not, ◌&&◌, ◌||◌, Option, none,
  some, List, [], ◌∷◌, ltb, ◌==◌, if◌then◌else◌, ℕ_discrete, length, get_elem?,
}
use wildtoken.Prelude.Int64
use wildtoken.Prelude.Assoc
use wildtoken.Prelude.Assoc.{Assoc}
use wildtoken.Clock.{second, minute, before, elapsed_since}

-- type UpstreamKey of internal/models/upstream.go; the texts are code points.
pub record UpstreamKey : Type 0 where
  pub id : ℕ
  pub upstream_id : ℕ
  pub name : List ℕ
  pub api_key : List ℕ
  pub enabled : Bool

-- keyCooldownBase, keyCooldownMax
abbrev pub key_cooldown_base : ℕ
key_cooldown_base = 10 * second

abbrev pub key_cooldown_max : ℕ
key_cooldown_max = 5 * minute

pub record KeyBench : Type 0 where
  pub refusals : ℕ
  pub until : ℕ

pub record KeyPicker : Type 0 where
  pub next : Assoc ℕ ℕ
  pub benched : Assoc ℕ KeyBench

-- The zero value of a missing entry.
abbrev pub bench_or_zero : Option KeyBench → KeyBench
bench_or_zero none = record { refusals = 0; until = 0 }
bench_or_zero (some b) = b

abbrev pub next_or_zero : Option ℕ → ℕ
next_or_zero none = 0
next_or_zero (some n) = n

unfoldable pub sitting_out : KeyPicker → ℕ → ℕ → Bool
sitting_out p key_id now = before now (bench_or_zero (Assoc.get ℕ_discrete key_id p.benched)).until

-- A key, and whether it is benched; `none` where ok is false.
abbrev pub Choice : Type 0
Choice = Option (UpstreamKey × Bool)

-- The nil picker's loop.
unfoldable pub first_unrefused : (ℕ → Bool) → List UpstreamKey → Choice
first_unrefused refused [] = none
first_unrefused refused (k ∷ ks) =
    if refused k.id then first_unrefused refused ks else some (k, false)

-- `key, ok, ok` after the loop: what was kept is benched.
abbrev pub kept_choice : Option UpstreamKey → Choice
kept_choice none = none
kept_choice (some k) = some (k, true)

abbrev pub or_kept : Option UpstreamKey → UpstreamKey → Option UpstreamKey
or_kept none k = some k
or_kept (some j) k = some j

-- The index of the i-th candidate; the position is a uint64, and the sum wraps.
abbrev pub candidate_index : ℕ → ℕ → ℕ → ℕ
candidate_index start i count = (start + i) % 2 ^ 64 % count

module _ (keys : List UpstreamKey) (refused sitting : ℕ → Bool) (start : ℕ) where
  -- The loop of `Pick` over the rounds that are left, from round `i`, with the key kept so far.
  unfoldable pub pick_loop : ℕ → ℕ → Option UpstreamKey → Choice
  pick_loop zero i kept = kept_choice kept
  pick_loop (suc rounds) i kept = elim (get_elem? keys (candidate_index start i (length keys))) [
    | none ↦ pick_loop rounds (i + 1) kept
    | some k ↦
        let skip = pick_loop rounds (i + 1) kept in
        let keep = pick_loop rounds (i + 1) (or_kept kept k) in
        if refused k.id then skip else if sitting k.id then keep else some (k, false)
  ]

unfoldable pub pick :
    Option KeyPicker → ℕ → List UpstreamKey → (ℕ → Bool) → ℕ → Option KeyPicker × Choice
unfolding pick_loop sitting_out first_unrefused
pick p upstream_id [] refused now = (p, none)
pick none upstream_id (k ∷ ks) refused now = (none, first_unrefused refused (k ∷ ks))
pick (some p) upstream_id (k ∷ ks) refused now =
    let start = next_or_zero (Assoc.get ℕ_discrete upstream_id p.next) in
    (
      some (record p { next = Assoc.put ℕ_discrete upstream_id ((start + 1) % 2 ^ 64) p.next }),
      pick_loop (k ∷ ks) refused (λ id. sitting_out p id now) start (length (k ∷ ks)) 0 none,
    )

abbrev pub nil_sitting_out : Option KeyPicker → ℕ → ℕ → Bool
nil_sitting_out none id now = false
nil_sitting_out (some p) id now = sitting_out p id now

unfoldable pub has_fresh : Option KeyPicker → List UpstreamKey → (ℕ → Bool) → ℕ → Bool
has_fresh p [] refused now = false
has_fresh p (k ∷ ks) refused now =
    (not (refused k.id) && not (nil_sitting_out p k.id now)) || has_fresh p ks refused now

-- How long a refused key waits, by its run of refusals; a Retry-After replaces the doubling.
unfoldable pub cooldown : ℕ → ℕ → ℕ
cooldown refusals retry_after =
    let wait : ℕ =
      if ltb 0 retry_after then retry_after else key_cooldown_base * 2 ^ min (refusals - 1) 5 in
    min wait key_cooldown_max

unfoldable pub bench : Option KeyPicker → ℕ → ℕ → ℕ → Option KeyPicker
unfolding cooldown
bench none key_id retry_after now = none
bench (some p) key_id retry_after now =
    let refusals = Int64.add (bench_or_zero (Assoc.get ℕ_discrete key_id p.benched)).refusals 1 in
    some (record p {
      benched =
          Assoc.put ℕ_discrete key_id
            (record { refusals = refusals; until = now + cooldown refusals retry_after }) p.benched;
    })

unfoldable pub clear : Option KeyPicker → ℕ → Option KeyPicker
clear none key_id = none
clear (some p) key_id = some (record p { benched = Assoc.delete ℕ_discrete key_id p.benched })

-- How long a key still sits out.
unfoldable pub remaining : Option KeyPicker → ℕ → ℕ → ℕ
remaining none key_id now = 0
remaining (some p) key_id now =
    elapsed_since (bench_or_zero (Assoc.get ℕ_discrete key_id p.benched)).until now

unfoldable pub key_refused : ℕ → Bool
key_refused status = status == 401 || status == 403 || status == 429
