-- ===== src/Tsz/Xor.antt =====
-- `^` on words: the same word twice cancels.
use Prim.Native.Nat.{bit_xor, bit_xor-bitwise, digits, differ, bitwise}
use native.Mathlib.Nat.{mod-lt, pow-suc}
use metrictank.Common.{
  ℕ, zero, suc, ◌+◌, ◌*◌, ◌/◌, ◌%◌, ◌^◌, ◌≤◌, ◌<◌, ◌≡◌, refl, sym, ap, ◌∙◌, arith,
}

abbrev xor_digits : ℕ → ℕ → ℕ → ℕ
xor_digits = digits (λ b. b) differ

-- Any count of digits that is enough gives the same.
enough_digits : (n m a b : ℕ) → a ≤ n → a ≤ m → xor_digits n a b ≡ xor_digits m a b
enough_digits zero zero a b hn hm = refl
enough_digits zero (suc m) zero b hn hm = refl
enough_digits (suc n) zero zero b hn hm = refl
enough_digits (suc n) (suc m) zero b hn hm = refl
enough_digits zero m (suc a) b hn hm = absurd (omega arith)
enough_digits (suc n) zero (suc a) b hn hm = absurd (omega arith)
enough_digits (suc n) (suc m) (suc a) b hn hm =
    ap (λ k. k * 2 + differ (suc a % 2) (b % 2))
      (enough_digits n m (suc a / 2) (b / 2) (omega arith) (omega arith))

differ_small : (x y : ℕ) → x < 2 → y < 2 → differ x y < 2
differ_small zero y hx hy = hy
differ_small (suc x) zero hx hy = hx
differ_small (suc zero) (suc zero) hx hy = omega arith
differ_small (suc x) (suc (suc y)) hx hy = absurd (omega arith)
differ_small (suc (suc x)) (suc zero) hx hy = absurd (omega arith)

differ_twice : (x y : ℕ) → x < 2 → y < 2 → differ y (differ x y) ≡ x
differ_twice zero zero hx hy = refl
differ_twice zero (suc zero) hx hy = refl
differ_twice (suc zero) zero hx hy = refl
differ_twice (suc zero) (suc zero) hx hy = refl
differ_twice (suc (suc x)) y hx hy = absurd (omega arith)
differ_twice x (suc (suc y)) hx hy = absurd (omega arith)

-- The lowest digit of an exclusive or, and the others.
halves :
    (a b : ℕ)
    → (bitwise (λ b. b) differ a b % 2 ≡ differ (a % 2) (b % 2))
      × (bitwise (λ b. b) differ a b / 2 ≡ bitwise (λ b. b) differ (a / 2) (b / 2))
halves zero b = (refl, refl)
halves (suc a) b =
    let d = differ (suc a % 2) (b % 2) in
    let lt : d < 2 = differ_small (suc a % 2) (b % 2) (omega arith) (omega arith) in
    let e = enough_digits a (suc a / 2) (suc a / 2) (b / 2) (omega arith) (omega arith) in
    (omega (arith, lt), omega (arith, lt, e))

bit_xor-halves :
    (a b : ℕ)
    → (bit_xor a b % 2 ≡ differ (a % 2) (b % 2)) × (bit_xor a b / 2 ≡ bit_xor (a / 2) (b / 2))
bit_xor-halves a b =
    let e : bit_xor a b ≡ bitwise (λ b. b) differ a b = λ i. bit_xor-bitwise a b i in
    let f : bit_xor (a / 2) (b / 2) ≡ bitwise (λ b. b) differ (a / 2) (b / 2) =
      λ i. bit_xor-bitwise (a / 2) (b / 2) i in
    let h = halves a b in (ap (λ k. k % 2) e ∙ h.0, ap (λ k. k / 2) e ∙ h.1 ∙ sym f)

-- The exclusive or with a word undoes that with the same word.
pub bit_xor-cancel : (n v s : ℕ) → v < 2 ^ n → s < 2 ^ n → bit_xor s (bit_xor v s) ≡ v
bit_xor-cancel zero v s hv hs =
    let z : v ≡ 0 = omega arith in let y : s ≡ 0 = omega arith in rw (z, y) refl
bit_xor-cancel (suc n) v s hv hs =
    let x = bit_xor v s in
    let inner = bit_xor-halves v s in
    let outer = bit_xor-halves s x in
    let high : bit_xor s x / 2 ≡ v / 2 =
      outer.1
      ∙ ap (bit_xor (s / 2)) inner.1
      ∙ bit_xor-cancel n (v / 2) (s / 2) (omega (arith, hv, pow-suc 2 n))
          (omega (arith, hs, pow-suc 2 n)) in
    let low : bit_xor s x % 2 ≡ v % 2 =
      outer.0
      ∙ ap (differ (s % 2)) inner.0
      ∙ differ_twice (v % 2) (s % 2) (omega arith) (omega arith) in
    omega (arith, high, low)

pub bit_xor-fits : (n v s : ℕ) → v < 2 ^ n → s < 2 ^ n → bit_xor v s < 2 ^ n
bit_xor-fits zero v s hv hs =
    let z : v ≡ 0 = omega arith in let y : s ≡ 0 = omega arith in rw (z, y) (omega arith)
bit_xor-fits (suc n) v s hv hs =
    let h = bit_xor-halves v s in
    let ih =
      bit_xor-fits n (v / 2) (s / 2) (omega (arith, hv, pow-suc 2 n))
        (omega (arith, hs, pow-suc 2 n)) in
    omega (arith, h.1, ih, pow-suc 2 n, mod-lt (bit_xor v s) {m = 2} (omega arith))

differ_none : (x : ℕ) → x < 2 → differ x 0 ≡ x
differ_none zero h = refl
differ_none (suc zero) h = refl
differ_none (suc (suc x)) h = absurd (omega arith)

bit_xor-none : (n s : ℕ) → s < 2 ^ n → bit_xor s 0 ≡ s
bit_xor-none zero s hs = let z : s ≡ 0 = omega arith in rw z refl
bit_xor-none (suc n) s hs =
    let h = bit_xor-halves s 0 in
    let ih = bit_xor-none n (s / 2) (omega (arith, hs, pow-suc 2 n)) in
    omega (arith, h.0, h.1, ih, differ_none (s % 2) (omega arith))

-- Different words have a digit in which they differ.
pub bit_xor-zero : (n v s : ℕ) → v < 2 ^ n → s < 2 ^ n → bit_xor v s ≡ 0 → v ≡ s
bit_xor-zero n v s hv hs e =
    sym (bit_xor-cancel n v s hv hs) ∙ ap (bit_xor s) e ∙ bit_xor-none n s hs
