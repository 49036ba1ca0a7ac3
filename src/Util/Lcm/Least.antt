-- ===== src/Util/Lcm/Least.antt =====
-- `Lcm` of util/util.go over all its numbers.
use native.Mathlib.Nat.{
  mul_comm, mul_assoc, mul-le-mul_right, mul-le-mul_left, mul-mod_left, mod_self, div-add-mod',
}
use metrictank.Common.{
  ℕ, ◌-◌, ◌*◌, ◌/◌, ◌%◌, ◌^◌, ◌<◌, ◌≤◌, ◌≡◌, ◌≢◌, refl, sym, ap, ◌∙◌, false, List, [], ◌∷◌, some,
  ltb, ◌==◌, arith, All, Bool-cases, inl, inr, subst,
}
use metrictank.Util.Lcm.{max_of, min_of, lcm_of, lcm_from, lcm}
use metrictank.Util.Lcm.First.{IsLcm, search-First, First-IsLcm}

lcm_of-IsLcm :
    (hi lo out : ℕ) → 0 < lo → lo ≤ hi → hi * lo < 2 ^ 32 → IsLcm hi lo (lcm_of hi lo out)
unfolding lcm_of
lcm_of-IsLcm hi lo out pos le h = elim (Bool-cases (hi % lo == 0)) [
  | inl e ↦
      rw (lcm_of, e)
        (record {
          left = mod_self hi;
          right = ground arith;
          least = λ m p q. p;
          some_left = omega (arith, pos, le);
          at_most = omega (arith, mul-le-mul_right hi pos, mul_comm hi lo);
        })
  | inr e ↦
      rw (lcm_of, e)
        (First-IsLcm hi lo _ (omega (arith, pos, le)) (
          search-First (lo - 1) 2 hi lo out h (omega arith) pos (omega (arith, pos)) (λ k p lt.
            let one : k ≡ 1 = omega (arith, p, lt) in
            subst (λ i. (i * hi) % lo ≢ 0) (sym one) (only_once e))))
]
  where
    only_once : hi % lo == 0 ≡ false → (1 * hi) % lo ≢ 0
    only_once e = ground arith

IsLcm-flip : (a b l : ℕ) → IsLcm a b l → IsLcm b a l
IsLcm-flip a b l v = record {
  left = v.right;
  right = v.left;
  least = λ m p q. v.least m q p;
  some_left = v.some_left;
  at_most = omega (arith, v.at_most, mul_comm a b);
}

step-IsLcm :
    (out v : ℕ)
    → 0 < out
    → 0 < v
    → out * v < 2 ^ 32
    → IsLcm out v (lcm_of (max_of v out) (min_of v out) out)
unfolding max_of min_of
step-IsLcm out v ho hv h = elim (Bool-cases (ltb out v)) [
  | inl e ↦
      let lt : out < v = ground arith in
      let other : ltb v out ≡ false = ground arith in
      rw (max_of, min_of, e, other)
        (IsLcm-flip v out _
          (lcm_of-IsLcm v out out ho (omega arith) (omega (arith, h, mul_comm v out))))
  | inr e ↦
      let le : v ≤ out = ground arith in
      elim (Bool-cases (ltb v out)) [
        | inl f ↦ rw (max_of, min_of, e, f) (lcm_of-IsLcm out v out hv le h)
        | inr f ↦
            let same : v ≡ out = ground arith in
            rw (max_of, min_of, e, f, same)
              (lcm_of-IsLcm out out out ho (omega arith) (omega (arith, h, ap (λ t. out * t) same)))
      ]
]

-- The product of numbers, and a common multiple of all of them that divides every other.
abbrev pub product : List ℕ → ℕ
product [] = 1
product (v ∷ vals) = v * product vals

pub record LcmOf (vals : List ℕ) (l : ℕ) : Type 0 where
  pub multiple : All (λ v. l % v ≡ 0) vals
  pub least : (m : ℕ) → All (λ v. m % v ≡ 0) vals → m % l ≡ 0

multiple_trans : (a l m : ℕ) → l % a ≡ 0 → m % l ≡ 0 → m % a ≡ 0
multiple_trans a l m e f =
    let p : l ≡ l / a * a = omega (arith, e, div-add-mod' l a) in
    let q : m ≡ m / l * l = omega (arith, f, div-add-mod' m l) in
    let w : m ≡ m / l * (l / a) * a =
      q ∙ ap (λ k. m / l * k) p ∙ sym (mul_assoc (m / l) (l / a) a) in
    ap (λ k. k % a) w ∙ mul-mod_left (m / l * (l / a)) a

min_pos : (v out : ℕ) → 0 < v → 0 < out → min_of v out == 0 ≡ false
unfolding min_of
min_pos v out hv ho = ground arith

pub product_pos : (vals : List ℕ) → All (λ v. 0 < v) vals → 0 < product vals
product_pos [] h = omega arith
product_pos (v ∷ vals) h =
    omega (arith, h.0, mul-le-mul_right (product vals) h.0, product_pos vals h.1)

lcm_from-LcmOf :
    (out : ℕ) (vals : List ℕ)
    → 0 < out
    → All (λ v. 0 < v) vals
    → out * product vals < 2 ^ 32
    → (l : ℕ) × (lcm_from out vals ≡ some l) × LcmOf (out ∷ vals) l
unfolding lcm_from min_of
lcm_from-LcmOf out [] ho hv h =
    (out, refl, record { multiple = (mod_self out, tt); least = λ m p. p.0 })
lcm_from-LcmOf out (v ∷ vals) ho hv h =
    let below : out * v * product vals < 2 ^ 32 =
      omega (arith, h, mul_assoc out v (product vals)) in
    let two : out * v < 2 ^ 32 =
      omega (arith, below, mul-le-mul_left (out * v) (product_pos vals hv.1)) in
    let s = step-IsLcm out v ho hv.0 two in
    let next = lcm_of (max_of v out) (min_of v out) out in
    let (l, run, r) =
      lcm_from-LcmOf next vals s.some_left hv.1
        (omega (arith, below, mul-le-mul_right (product vals) s.at_most)) in
    let some_min : min_of v out == 0 ≡ false = min_pos v out hv.0 ho in
    (
      l,
      rw (lcm_from, some_min) run,
      record {
        multiple = (
          multiple_trans out next l s.left r.multiple.0,
          (multiple_trans v next l s.right r.multiple.0, r.multiple.1),
        );
        least = λ m p. r.least m (s.least m p.0 p.1.0, p.1.1);
      },
    )

-- For numbers other than 0 whose product is below 2^32, `Lcm` returns their least common multiple: a
-- multiple of each that divides every common multiple of theirs.
pub lcm-LcmOf :
    (v : ℕ) (vals : List ℕ)
    → All (λ x. 0 < x) (v ∷ vals)
    → product (v ∷ vals) < 2 ^ 32
    → (l : ℕ) × (lcm (v ∷ vals) ≡ some l) × LcmOf (v ∷ vals) l
unfolding lcm
lcm-LcmOf v vals h p = lcm_from-LcmOf v vals h.0 h.1 p
