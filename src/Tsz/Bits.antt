-- ===== src/Tsz/Bits.antt =====
-- The bits of a number as a list, most significant first, and back.
use native.Mathlib.Nat.{
  div-add-mod', mod-lt, one-le-pow, add-mul-div_right, div-eq_of_lt, zero-add, add_comm,
  div-div-eq-div-mul, add-mul-mod_self_right, mod-eq_of_lt, pow-suc, mul-le-mul_right,
}
use metrictank.Common.{
  ℕ, zero, suc, ◌+◌, ◌*◌, ◌/◌, ◌%◌, ◌^◌, ◌≤◌, ◌<◌, ◌≡◌, refl, sym, ap, ap₂, ◌∙◌, Bool, true, false,
  List, [], ◌∷◌, ◌++◌, length, ◌==◌, arith, Bool-cases, inl, inr,
}
use metrictank.Tsz.Bstream.Write.{pow-add}

-- The low `n` bits of `u`.
abbrev pub bits_of : ℕ → ℕ → List Bool
bits_of zero u = []
bits_of (suc n) u = (u / 2 ^ n % 2 == 1) ∷ bits_of n u

pub length-bits_of : (n u : ℕ) → length (bits_of n u) ≡ n
length-bits_of zero u = refl
length-bits_of (suc n) u = ap suc (length-bits_of n u)

pub length-append {ℓ} : {A : Type ℓ} (xs ys : List A) → length (xs ++ ys) ≡ length xs + length ys
length-append [] ys = omega arith
length-append (x ∷ xs) ys = omega (arith, length-append xs ys)

abbrev pub digit : Bool → ℕ
digit true = 1
digit false = 0

-- The number that bits spell behind `acc`.
abbrev pub spelled : ℕ → List Bool → ℕ
spelled acc [] = acc
spelled acc (b ∷ bs) = spelled (acc * 2 + digit b) bs

pow_pos : (n : ℕ) → 0 < 2 ^ n
pow_pos n = one-le-pow n 2 (omega arith)

-- `u` at bit `n`.
digit_at : (n u : ℕ) → digit (u / 2 ^ n % 2 == 1) ≡ u / 2 ^ n % 2
digit_at n u = elim (Bool-cases (u / 2 ^ n % 2 == 1)) [
  | inl e ↦ rw e (ground arith)
  | inr e ↦ rw e (ground (arith, mod-lt (u / 2 ^ n) {m = 2} (omega arith)))
]

-- The low bits below `n`, with the bit at `n` on top.
mod_pow_suc : (n u : ℕ) → u % 2 ^ suc n ≡ u / 2 ^ n % 2 * 2 ^ n + u % 2 ^ n
mod_pow_suc n u =
    let top = u / 2 ^ n % 2 in
    let low = u % 2 ^ n in
    let half = div-add-mod' (u / 2 ^ n) 2 in
    let whole = div-add-mod' u (2 ^ n) in
    let split : u ≡ top * 2 ^ n + low + u / 2 ^ n / 2 * 2 ^ suc n =
      rw (pow-suc 2 n) (omega (arith, whole, ap (λ q. q * 2 ^ n) half)) in
    let small : top * 2 ^ n + low < 2 ^ suc n =
      rw (pow-suc 2 n)
        (omega (arith, mul-le-mul_right (2 ^ n) (top_bit u), mod-lt u (pow_pos n))) in
    ap (λ v. v % 2 ^ suc n) split
    ∙ add-mul-mod_self_right (top * 2 ^ n + low) (u / 2 ^ n / 2) (2 ^ suc n)
    ∙ mod-eq_of_lt small
  where
    top_bit : (v : ℕ) → v / 2 ^ n % 2 ≤ 1
    top_bit v = omega (arith, mod-lt (v / 2 ^ n) {m = 2} (omega arith))

spelled-bits_of : (n u acc : ℕ) → spelled acc (bits_of n u) ≡ acc * 2 ^ n + u % 2 ^ n
spelled-bits_of zero u acc = omega arith
spelled-bits_of (suc n) u acc =
    spelled-bits_of n u (acc * 2 + digit (u / 2 ^ n % 2 == 1))
    ∙ rw (digit_at n u, mod_pow_suc n u, pow-suc 2 n) (omega arith)

-- Only the low bits count.
pub bits_of-add : (n a y : ℕ) → bits_of n (a * 2 ^ n + y) ≡ bits_of n y
bits_of-add zero a y = refl
bits_of-add (suc n) a y =
    let e : a * 2 ^ suc n + y ≡ a * 2 * 2 ^ n + y = rw (pow-suc 2 n) (omega arith) in
    let head : (a * 2 * 2 ^ n + y) / 2 ^ n % 2 ≡ y / 2 ^ n % 2 =
      ap (λ k. k % 2)
        (ap (λ k. k / 2 ^ n) (add_comm (a * 2 * 2 ^ n) y) ∙ add-mul-div_right y (a * 2) (pow_pos n))
      ∙ omega arith in
    rw e (ap₂ (λ (b : ℕ) bs. (b == 1) ∷ bs) head (bits_of-add n (a * 2) y))

pub bits_of-mod : (n u : ℕ) → bits_of n (u % 2 ^ n) ≡ bits_of n u
bits_of-mod n u =
    sym (bits_of-add n (u / 2 ^ n) (u % 2 ^ n)) ∙ ap (bits_of n) (div-add-mod' u (2 ^ n))

-- The bits of two numbers put together.
pub bits_of-append :
    (m n x y : ℕ) → y < 2 ^ n → bits_of (m + n) (x * 2 ^ n + y) ≡ bits_of m x ++ bits_of n y
bits_of-append zero n x y lt =
    ap (λ k. bits_of k (x * 2 ^ n + y)) {x = 0 + n} {y = n} (omega arith) ∙ bits_of-add n x y
bits_of-append (suc m) n x y lt =
    let e : suc m + n ≡ suc (m + n) = omega arith in
    let whole : (x * 2 ^ n + y) / 2 ^ n ≡ x =
      ap (λ k. k / 2 ^ n) (add_comm (x * 2 ^ n) y)
      ∙ add-mul-div_right y x (pow_pos n)
      ∙ ap (λ k. k + x) (div-eq_of_lt lt)
      ∙ zero-add x in
    let head : (x * 2 ^ n + y) / 2 ^ (m + n) ≡ x / 2 ^ m =
      ap (λ p. (x * 2 ^ n + y) / p) (ap (λ k. 2 ^ k) (add_comm m n) ∙ pow-add n m)
      ∙ sym (div-div-eq-div-mul (x * 2 ^ n + y) (2 ^ n) (2 ^ m))
      ∙ ap (λ k. k / 2 ^ m) whole in
    rw e (ap₂ (λ (b : ℕ) bs. (b % 2 == 1) ∷ bs) head (bits_of-append m n x y lt))

append_inj {ℓ} :
    {A : Type ℓ} (xs ys us vs : List A)
    → length xs ≡ length ys
    → xs ++ us ≡ ys ++ vs
    → (xs ≡ ys) × (us ≡ vs)
append_inj [] [] us vs l e = (refl, e)
append_inj [] (y ∷ ys) us vs l e = absurd (omega (arith, l))
append_inj (x ∷ xs) [] us vs l e = absurd (omega (arith, l))
append_inj (x ∷ xs) (y ∷ ys) us vs l e =
    let t : xs ++ us ≡ ys ++ vs = cc in
    let rest = append_inj xs ys us vs (omega (arith, l)) t in
    let h : x ≡ y = cc in (ap₂ (◌∷◌) h rest.0, rest.1)

-- What is spelled by as many bits is determined.
pub bits_of-inj :
    (n u v : ℕ) (us vs : List Bool)
    → bits_of n u ++ us ≡ bits_of n v ++ vs
    → (u % 2 ^ n ≡ v % 2 ^ n) × (us ≡ vs)
bits_of-inj n u v us vs e =
    let (h, t) =
      append_inj (bits_of n u) (bits_of n v) us vs (length-bits_of n u ∙ sym (length-bits_of n v))
        e in
    (omega (arith, sym (spelled-bits_of n u 0) ∙ ap (spelled 0) h ∙ spelled-bits_of n v 0), t)
