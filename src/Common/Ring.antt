-- ===== src/Common/Ring.antt =====
-- Facts on positions of a circular buffer of `cap` slots, as unreduced numbers modulo `cap`.
use native.Mathlib.Nat.{mod-add-mod, mod-lt, add-mul-mod_self_left}
use metrictank.Common.{ℕ, ◌*◌, ◌-◌, ◌≤◌, ap, ◌∙◌, ◌+◌, ◌%◌, ◌<◌, ◌≡◌, ◌≢◌, arith}

-- Two positions less than a whole round apart are different slots.
pub mod-ne : (cap a b : ℕ) → a < b → b < a + cap → a % cap ≢ b % cap
mod-ne cap a b h k e = grind arith

pub mod-suc-mod : (cap a : ℕ) → (a % cap + 1) % cap ≡ (a + 1) % cap
mod-suc-mod cap a = mod-add-mod a cap 1

-- Every slot has a position in the round that starts at `k`.
pub round_position :
    (cap k j : ℕ) → 0 < cap → (m : ℕ) × (k ≤ m) × (m < k + cap) × (m % cap ≡ j % cap)
round_position cap k j h =
    let r = (j + (cap * k - k)) % cap in
    (
      r + k,
      omega arith,
      omega (arith, mod-lt (j + (cap * k - k)) h),
      mod-add-mod (j + (cap * k - k)) cap k
          ∙ ap (λ m. m % cap) {x = j + (cap * k - k) + k} {y = j + cap * k} (grind arith)
          ∙ add-mul-mod_self_left j cap k,
    )
