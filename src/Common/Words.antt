-- ===== src/Common/Words.antt =====
-- Machine words as native numbers, and memory as a function from an index.
use Prim.Native.Nat.{ℕ, zero, suc, ◌+◌, ◌-◌, ◌%◌, ◌^◌, ◌<◌}
use mathlib.Core.Path.{◌≡◌}
use mathlib.Core.Bool.{false, Bool, true}
use native.Mathlib.Omega.{arith}
use acorn_os.Common.Tests.{◌==◌, if◌then◌else◌}

abbrev pub add32 : ℕ → ℕ → ℕ
add32 a b = (a + b) % 2 ^ 32

-- Unsigned subtraction wraps; `-` on ℕ stops at 0.
abbrev pub sub32 : ℕ → ℕ → ℕ
sub32 a b = (a + 2 ^ 32 - b) % 2 ^ 32

abbrev pub add64 : ℕ → ℕ → ℕ
add64 a b = (a + b) % 2 ^ 64

abbrev pub sub64 : ℕ → ℕ → ℕ
sub64 a b = (a + 2 ^ 64 - b) % 2 ^ 64

-- A store through a pointer.
abbrev pub update {ℓ} : {A : Type ℓ} → (ℕ → A) → ℕ → A → ℕ → A
update f i v j = if i == j then v else f j

-- Whether a check succeeds at each of the numbers under a bound, by running it.
unfoldable pub every : (ℕ → Bool) → ℕ → Bool
every check zero = true
every check (suc bound) = if check bound then every check bound else false

pub every_at :
    (check : ℕ → Bool) (bound i : ℕ) → i < bound → every check bound ≡ true → check i ≡ true
unfolding every
every_at check zero i under good = absurd (omega arith)
every_at check (suc bound) i under good = ground (arith, every_at check bound i)
