-- ===== src/Tsz/SeriesLong/Zeros.antt =====
-- `bits.LeadingZeros64`, `bits.TrailingZeros64` and the significant bits between them.
use native.Mathlib.Nat.{
  pow-suc, one-le-pow, pow-le-pow_right, div-eq_of_lt, div-lt_iff_lt-mul, div-div-eq-div-mul,
  mul-div_cancel, mul_assoc,
}
use metrictank.Common.{
  ℕ, zero, suc, ◌+◌, ◌-◌, ◌*◌, ◌/◌, ◌%◌, ◌^◌, ◌≤◌, ◌<◌, ◌≡◌, ◌≢◌, sym, ap, ◌∙◌, leb, ltb, ◌==◌,
  if◌then◌else◌, arith, Bool-cases, inl, inr, subst,
}
use metrictank.Tsz.Bstream.Write.{pow-add}
use metrictank.Tsz.SeriesLong.{bit_len, leading_zeros, zeros_below, trailing_zeros, clamped_leading}

bit_len-fits : (n x : ℕ) → x < 2 ^ n → (bit_len n x ≤ n) × (x < 2 ^ bit_len n x)
unfolding bit_len
bit_len-fits zero x h = (omega arith, h)
bit_len-fits (suc n) x h =
    let ih = bit_len-fits n (x / 2) (omega (arith, h, pow-suc 2 n)) in
    elim (Bool-cases (x == 0)) [
      | inl e ↦ rw e (omega arith, ground arith)
      | inr e ↦ rw e (omega (arith, ih.0), omega (arith, ih.1, pow-suc 2 (bit_len n (x / 2))))
    ]

twice : (x t : ℕ) → x % 2 ≡ 0 → x / 2 / 2 ^ t * 2 ^ t ≡ x / 2 → x / 2 ^ suc t * 2 ^ suc t ≡ x
twice x t even e =
    let p : 2 ^ suc t ≡ 2 * 2 ^ t = omega (arith, pow-suc 2 t) in
    ap (λ k. x / k * k) p
    ∙ ap (λ q. q * (2 * 2 ^ t)) (sym (div-div-eq-div-mul x 2 (2 ^ t)))
    ∙ omega (arith, e, even)

zeros_below-exact :
    (n x : ℕ) → (zeros_below n x ≤ n) × (x / 2 ^ zeros_below n x * 2 ^ zeros_below n x ≡ x)
unfolding zeros_below
zeros_below-exact zero x = (omega arith, omega arith)
zeros_below-exact (suc n) x =
    let ih = zeros_below-exact n (x / 2) in
    elim (Bool-cases (x % 2 == 1)) [
      | inl e ↦ rw e (omega arith, omega arith)
      | inr e ↦
          let even : x % 2 ≡ 0 = ground arith in
          rw e (omega (arith, ih.0), twice x (zeros_below n (x / 2)) even ih.1)
    ]

clamp : ℕ → ℕ
clamp l = if leb 32 l then 31 else l

clamp-fits :
    (n x : ℕ) → n ≤ 64 → x < 2 ^ n → (clamp (64 - n) ≤ 31) × (x < 2 ^ (64 - clamp (64 - n)))
unfolding clamp
clamp-fits n x le h = elim (Bool-cases (leb 32 (64 - n))) [
  | inl e ↦
      let small : n ≤ 33 = ground arith in
      let grows : 2 ^ n ≤ 2 ^ 33 = pow-le-pow_right {n = 2} (omega arith) {i = n} {j = 33} small in
      rw e (omega arith, omega (arith, h, grows))
  | inr e ↦
      let lt : 64 - n ≤ 31 = ground arith in
      rw e (lt, subst (λ k. x < 2 ^ k) {x = n} {y = 64 - (64 - n)} (omega (arith, le)) h)
]

-- A word lies below its leading zeros, of which at most 31 count.
pub clamped_leading-fits :
    (x : ℕ) → x < 2 ^ 64 → (clamped_leading x ≤ 31) × (x < 2 ^ (64 - clamped_leading x))
unfolding clamped_leading leading_zeros clamp
clamped_leading-fits x h = let b = bit_len-fits 64 x h in clamp-fits (bit_len 64 x) x b.0 b.1

pub trailing_zeros-exact :
    (x : ℕ) → (trailing_zeros x ≤ 64) × (x / 2 ^ trailing_zeros x * 2 ^ trailing_zeros x ≡ x)
unfolding trailing_zeros
trailing_zeros-exact x = zeros_below-exact 64 x

-- A window of a word `x`, `l` bits from its top and `t` from its end, that has all of its bits.
pub record Window (x l t : ℕ) : Type 0 where
  pub inside : l + t < 64
  pub fits : x / 2 ^ t < 2 ^ (64 - l - t)
  pub exact : x / 2 ^ t * 2 ^ t ≡ x

window : (x l t : ℕ) → x ≢ 0 → t ≤ 64 → x < 2 ^ (64 - l) → x / 2 ^ t * 2 ^ t ≡ x → Window x l t
window x l t pos le h e =
    let inside : l + t < 64 = elim (Bool-cases (ltb (l + t) 64)) [
      | inl b ↦ ground arith
      | inr b ↦
          let out : 64 - l ≤ t = ground arith in
          let grows : 2 ^ (64 - l) ≤ 2 ^ t =
            pow-le-pow_right {n = 2} (omega arith) {i = 64 - l} {j = t} out in
          absurd (
            pos
              (sym e ∙ ap (λ q. q * 2 ^ t) (div-eq_of_lt (omega (arith, h, grows))) ∙ omega arith))
    ] in
    let p =
      ap (λ k. 2 ^ k) {x = 64 - l} {y = 64 - l - t + t} (omega (arith, inside))
      ∙ pow-add (64 - l - t) t in
    record {
      inside = inside;
      fits =
          (div-lt_iff_lt-mul {k = 2 ^ t} {x = x} {y = 2 ^ (64 - l - t)}
              (one-le-pow t 2 (omega arith))).1
            (omega (arith, h, p));
      exact = e;
    }

pub own-Window : (x : ℕ) → x ≢ 0 → x < 2 ^ 64 → Window x (clamped_leading x) (trailing_zeros x)
own-Window x pos h =
    let e = trailing_zeros-exact x in
    window x (clamped_leading x) (trailing_zeros x) pos e.0 (clamped_leading-fits x h).1 e.1

coarser : (x t u : ℕ) → t ≤ u → x / 2 ^ u * 2 ^ u ≡ x → x / 2 ^ t * 2 ^ t ≡ x
coarser x t u le e =
    let y = x / 2 ^ u * 2 ^ (u - t) in
    let p : 2 ^ u ≡ 2 ^ (u - t) * 2 ^ t =
      ap (λ k. 2 ^ k) {x = u} {y = u - t + t} (omega (arith, le)) ∙ pow-add (u - t) t in
    let f : y * 2 ^ t ≡ x =
      mul_assoc (x / 2 ^ u) (2 ^ (u - t)) (2 ^ t) ∙ ap (λ k. x / 2 ^ u * k) (sym p) ∙ e in
    ap (λ k. k / 2 ^ t * 2 ^ t) (sym f)
    ∙ ap (λ k. k * 2 ^ t) (mul-div_cancel y (one-le-pow t 2 (omega arith)))
    ∙ f

-- A wider window has all the bits too.
pub wider-Window :
    (x l t : ℕ) → x ≢ 0 → x < 2 ^ 64 → l ≤ clamped_leading x → t ≤ trailing_zeros x → Window x l t
wider-Window x l t pos h hl ht =
    let e = trailing_zeros-exact x in
    let c = clamped_leading-fits x h in
    let grows : 2 ^ (64 - clamped_leading x) ≤ 2 ^ (64 - l) =
      pow-le-pow_right {n = 2} (omega arith) {i = 64 - clamped_leading x} {j = 64 - l}
        (omega (arith, hl)) in
    window x l t pos (omega (arith, ht, e.0)) (omega (arith, c.1, grows))
      (coarser x t (trailing_zeros x) ht e.1)
