-- ===== src/Prelude/Words.antt =====
-- Machine integers as numbers below their bound, with the checked and saturating operations.
use Prim.Native.Nat.{ℕ, ◌+◌, ◌-◌, ◌<◌, ◌^◌, min}
use mathlib.Core.Path.{◌≡◌}
use mathlib.Core.Option.{Option, none, some}
use native.Mathlib.Omega.{arith}
use omp_remote.Prelude.Tests.{ltb, if◌then◌else◌}

abbrev pub u64_max : ℕ
u64_max = 2 ^ 64 - 1

abbrev pub i64_max : ℕ
i64_max = 2 ^ 63 - 1

-- `u64::checked_add`.
unfoldable pub checked_add : ℕ → ℕ → Option ℕ
checked_add a b = if ltb u64_max (a + b) then none else some (a + b)

-- `u64::saturating_add`.
abbrev pub saturating_add : ℕ → ℕ → ℕ
saturating_add a b = min (a + b) u64_max

pub checked_add-some : (a b : ℕ) → a + b < 2 ^ 64 → checked_add a b ≡ some (a + b)
unfolding checked_add
checked_add-some a b h = ground arith
