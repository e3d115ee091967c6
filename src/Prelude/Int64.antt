-- ===== src/Prelude/Int64.antt =====
-- Go's int64 as its bit pattern, a number below 2 ^ 64: sums, differences and products wrap, and
-- the order reads a pattern from 2 ^ 63 on as negative.
use Prim.Native.Nat.{ℕ, ◌+◌, ◌-◌, ◌*◌, ◌%◌, ◌^◌, ◌≤◌, ◌<◌, min as min_ℕ, max as max_ℕ}
use mathlib.Core.Path.{◌≡◌}
use mathlib.Core.Bool.{Bool}
use native.Mathlib.Omega.{arith}
use native.Mathlib.Nat.{mod-eq_of_lt}
use wildtoken.Prelude.Tests.{ltb, leb, if◌then◌else◌}

-- math.MaxInt64
abbrev pub max_int : ℕ
max_int = 2 ^ 63 - 1

unfoldable pub add : ℕ → ℕ → ℕ
add a b = (a + b) % 2 ^ 64

unfoldable pub sub : ℕ → ℕ → ℕ
sub a b = (a + 2 ^ 64 - b) % 2 ^ 64

unfoldable pub mul : ℕ → ℕ → ℕ
mul a b = a * b % 2 ^ 64

-- The signed order.
unfoldable pub lt : ℕ → ℕ → Bool
lt a b = ltb ((a + 2 ^ 63) % 2 ^ 64) ((b + 2 ^ 63) % 2 ^ 64)

unfoldable pub le : ℕ → ℕ → Bool
le a b = leb ((a + 2 ^ 63) % 2 ^ 64) ((b + 2 ^ 63) % 2 ^ 64)

pub add_lem : (a b : ℕ) → a + b < 2 ^ 64 → add a b ≡ a + b
unfolding add
add_lem a b h = omega arith

pub sub_lem : (a b : ℕ) → a < 2 ^ 64 → b ≤ a → sub a b ≡ a - b
unfolding sub
sub_lem a b h k = omega arith

pub mul_lem : (a b : ℕ) → a * b < 2 ^ 64 → mul a b ≡ a * b
unfolding mul
mul_lem a b h = mod-eq_of_lt h

pub lt_lem : (a b : ℕ) → a ≤ max_int → b ≤ max_int → lt a b ≡ ltb a b
unfolding lt
lt_lem a b h k = ground arith

pub le_lem : (a b : ℕ) → a ≤ max_int → b ≤ max_int → le a b ≡ leb a b
unfolding le
le_lem a b h k = ground arith

-- The built-in min and max.
unfoldable pub min : ℕ → ℕ → ℕ
unfolding lt
min a b = if lt b a then b else a

unfoldable pub max : ℕ → ℕ → ℕ
unfolding lt
max a b = if lt a b then b else a

pub min_lem : (a b : ℕ) → a ≤ max_int → b ≤ max_int → min a b ≡ min_ℕ a b
unfolding min
min_lem a b h k = ground arith

-- max(a - b, 0)
pub max-sub : (a b : ℕ) → a ≤ max_int → b ≤ max_int → max (sub a b) 0 ≡ a - b
unfolding max sub
max-sub a b h k = ground arith

pub max_lem : (a b : ℕ) → a ≤ max_int → b ≤ max_int → max a b ≡ max_ℕ a b
unfolding max
max_lem a b h k = ground arith
