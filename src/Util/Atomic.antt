-- ===== src/Util/Atomic.antt =====
-- util/atomic.go.
use metrictank.Common.{ℕ, zero, suc, ◌≡◌, max, true, false, ltb, arith}

-- The loop of `AtomicBumpUint32`, run by one thread: `loc` is the variable, `prev` what the last
-- swap took from it.
unfoldable pub bump_loop : ℕ → ℕ → ℕ → ℕ → ℕ
bump_loop zero loc prev new_val = loc
bump_loop (suc fuel) loc prev new_val = elim (ltb new_val prev) [
  | true ↦ bump_loop fuel prev loc prev
  | false ↦ loc
]

-- `AtomicBumpUint32`: the loop's body runs once at most.
unfoldable pub bump : ℕ → ℕ → ℕ
unfolding bump_loop
bump loc new_val = bump_loop 2 new_val loc new_val

-- The variable ends up with the larger of the two values.
pub bump-eq-max : (loc new_val : ℕ) → bump loc new_val ≡ max loc new_val
unfolding bump
bump-eq-max loc new_val = ground arith
