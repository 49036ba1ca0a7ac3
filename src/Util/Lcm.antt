-- ===== src/Util/Lcm.antt =====
-- util/util.go: Min, Max and Lcm of uint32 words.
pub mod First
pub mod Least
use native.Mathlib.Nat.{
  mul_comm, mul_assoc, mul-le-mul_right, mul-le-mul_left, mul-mod_right, mul-mod_left, mod_self,
  mod-eq-zero_of_dvd, dvd_of_mod-eq-zero, dvd-mul_left_of_dvd, dvd-add_iff_left, div-add-mod',
  mod-lt, mod-eq_of_lt,
}
use metrictank.Common.{
  ℕ, zero, suc, ◌+◌, ◌-◌, ◌*◌, ◌/◌, ◌%◌, ◌^◌, ◌<◌, ◌≤◌, ◌≡◌, ◌≢◌, refl, sym, ap, ◌∙◌, false, List,
  [], ◌∷◌, Option, none, some, ltb, ◌==◌, if◌then◌else◌, arith, All, Bool-cases, inl, inr, subst,
}
use metrictank.Common.Words.{mul32}

-- `Max` and `Min`.
unfoldable pub max_of : ℕ → ℕ → ℕ
max_of a b = if ltb b a then a else b

unfoldable pub min_of : ℕ → ℕ → ℕ
min_of a b = if ltb a b then a else b

-- The inner loop of `Lcm`, from factor `j` on, of `n` rounds.
unfoldable pub search : ℕ → ℕ → ℕ → ℕ → ℕ → ℕ
search zero j hi lo out = out
search (suc n) j hi lo out =
    let rest = search n (suc j) hi lo out in if mul32 j hi % lo == 0 then mul32 j hi else rest

-- A round of the outer loop, where neither number is 0.
unfoldable pub lcm_of : ℕ → ℕ → ℕ → ℕ
unfolding search
lcm_of hi lo out = if hi % lo == 0 then hi else search (lo - 1) 2 hi lo out

-- The outer loop; `none` is the panic on a division by 0.
unfoldable pub lcm_from : ℕ → List ℕ → Option ℕ
unfolding lcm_of max_of min_of
lcm_from out [] = some out
lcm_from out (v ∷ vals) =
    let rest = lcm_from (lcm_of (max_of v out) (min_of v out) out) vals in
    if min_of v out == 0 then none else rest

-- `Lcm`; `none` is also the panic on no number.
unfoldable pub lcm : List ℕ → Option ℕ
unfolding lcm_from
lcm [] = none
lcm (v ∷ vals) = lcm_from v vals
