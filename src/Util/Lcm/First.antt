-- ===== src/Util/Lcm/First.antt =====
-- The inner loop of `Lcm` of util/util.go: the least common multiple of two numbers.
use native.Mathlib.Nat.{
  mul_comm, mul_assoc, mul-le-mul_right, mul-mod_right, mul-mod_left, mod-eq-zero_of_dvd,
  dvd_of_mod-eq-zero, dvd-mul_left_of_dvd, dvd-add_iff_left, div-add-mod', mod-lt, mod-eq_of_lt,
}
use metrictank.Common.{
  ℕ, zero, suc, ◌+◌, ◌*◌, ◌/◌, ◌%◌, ◌^◌, ◌<◌, ◌≤◌, ◌≡◌, ◌≢◌, refl, sym, ap, ◌∙◌, ◌==◌, arith,
  Bool-cases, inl, inr, subst,
}
use metrictank.Common.Words.{mul32}
use metrictank.Util.Lcm.{search}

-- The first factor of `hi` that gives a multiple of `lo`.
pub record First (hi lo l : ℕ) : Type 0 where
  pub factor : ℕ
  pub some_factor : 0 < factor
  pub within : factor ≤ lo
  pub is_product : l ≡ factor * hi
  pub divides : (factor * hi) % lo ≡ 0
  pub is_first : (k : ℕ) → 0 < k → k < factor → (k * hi) % lo ≢ 0

-- Products of factors within `lo` do not wrap.
fits : (j hi lo : ℕ) → hi * lo < 2 ^ 32 → j ≤ lo → mul32 j hi ≡ j * hi
fits j hi lo h le = mod-eq_of_lt (omega (arith, h, mul-le-mul_right hi le, mul_comm hi lo))

pub search-First :
    (n j hi lo out : ℕ)
    → hi * lo < 2 ^ 32
    → 0 < j
    → 0 < lo
    → n + j ≡ suc lo
    → ((k : ℕ) → 0 < k → k < j → (k * hi) % lo ≢ 0)
    → First hi lo (search n j hi lo out)
unfolding search
search-First zero j hi lo out h pos lo_pos e none_before =
    absurd (none_before lo lo_pos (omega (arith, e)) (mul-mod_right lo hi))
search-First (suc n) j hi lo out h pos lo_pos e none_before =
    let le : j ≤ lo = omega (arith, e) in
    let w = fits j hi lo h le in
    elim (Bool-cases (j * hi % lo == 0)) [
      | inl z ↦
          rw (search, w, z)
            (record {
              factor = j;
              some_factor = pos;
              within = le;
              is_product = refl;
              divides = ground arith;
              is_first = none_before;
            })
      | inr z ↦
          let here : (j * hi) % lo ≢ 0 = ground arith in
          rw (search, w, z)
            (search-First n (suc j) hi lo out h (omega arith) lo_pos (omega (arith, e)) (λ k p lt.
              elim (Bool-cases (k == j)) [
                | inl s ↦ subst (λ i. (i * hi) % lo ≢ 0) {x = j} {y = k} (ground arith) here
                | inr s ↦ none_before k p (ground arith)
              ]))
    ]

-- The least common multiple of two numbers: a common multiple that divides every other.
pub record IsLcm (a b l : ℕ) : Type 0 where
  pub left : l % a ≡ 0
  pub right : l % b ≡ 0
  pub least : (m : ℕ) → m % a ≡ 0 → m % b ≡ 0 → m % l ≡ 0
  pub some_left : 0 < l
  pub at_most : l ≤ a * b

-- The rest of a multiple behind the multiples of the first.
remainder : (lo k f hi : ℕ) → (f * hi) % lo ≡ 0 → (k * hi) % lo ≡ 0 → (k % f * hi) % lo ≡ 0
remainder lo k f hi df dk =
    let split : k % f * hi + k / f * (f * hi) ≡ k * hi =
      omega (arith, ap (λ t. t * hi) (div-add-mod' k f), mul_assoc (k / f) f hi) in
    let q = dvd-mul_left_of_dvd lo (dvd_of_mod-eq-zero lo {n = f * hi} df) (k / f) in
    mod-eq-zero_of_dvd lo (
      (dvd-add_iff_left lo {m = k % f * hi} {n = k / f * (f * hi)} q).1
        (dvd_of_mod-eq-zero lo (ap (λ t. t % lo) split ∙ dk)))

pub First-IsLcm : (hi lo l : ℕ) → 0 < hi → First hi lo l → IsLcm hi lo l
First-IsLcm hi lo l hi_pos f = subst (IsLcm hi lo) (sym f.is_product) (record {
  left = mul-mod_left f.factor hi;
  right = f.divides;
  least = least;
  some_left = omega (arith, mul-le-mul_right hi f.some_factor, hi_pos);
  at_most = omega (arith, mul-le-mul_right hi f.within, mul_comm hi lo);
})
  where
    least : (m : ℕ) → m % hi ≡ 0 → m % lo ≡ 0 → m % (f.factor * hi) ≡ 0
    least m p q =
        let k = m / hi in
        let e : m ≡ k * hi = omega (arith, div-add-mod' m hi, p) in
        let r = remainder lo k f.factor hi f.divides (ap (λ t. t % lo) (sym e) ∙ q) in
        let lt = mod-lt k {m = f.factor} f.some_factor in
        let none_left : k % f.factor ≡ 0 = elim (Bool-cases (k % f.factor == 0)) [
          | inl z ↦ ground arith
          | inr z ↦ absurd (f.is_first (k % f.factor) (ground arith) lt r)
        ] in
        let factored : k ≡ k / f.factor * f.factor =
          omega (arith, none_left, div-add-mod' k f.factor) in
        let whole : m ≡ k / f.factor * (f.factor * hi) =
          e ∙ ap (λ t. t * hi) factored ∙ mul_assoc (k / f.factor) f.factor hi in
        ap (λ t. t % (f.factor * hi)) whole ∙ mul-mod_left (k / f.factor) (f.factor * hi)
