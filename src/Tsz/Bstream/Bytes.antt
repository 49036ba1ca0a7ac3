-- ===== src/Tsz/Bstream/Bytes.antt =====
-- The arithmetic of a byte that is filled from the top.
use Prim.Native.Nat.{bit_or}
use metrictank.Common.{
  ℕ, zero, suc, ◌+◌, ◌-◌, ◌*◌, ◌/◌, ◌%◌, ◌^◌, ◌≤◌, ◌<◌, ◌≡◌, refl, sym, ap₂, ◌≢◌, ◌∙◌, Bool, true,
  ◌&&◌, ◌==◌, arith, ==_iff,
}

unfoldable pub all_bytes : ℕ → (ℕ → Bool) → Bool
all_bytes zero p = true
all_bytes (suc n) p = p n && all_bytes n p

pub all_bytes_sound : (n : ℕ) (p : ℕ → Bool) (x : ℕ) → all_bytes n p ≡ true → x < n → p x ≡ true
unfolding all_bytes
all_bytes_sound zero p x h lt = absurd (omega arith)
all_bytes_sound (suc n) p x h lt = ground (arith, all_bytes_sound n p x)

-- Joining bits onto free bits adds them: all bytes, at a split after `c` bits.
joined : ℕ → ℕ → Bool
joined c z = bit_or (z / 2 ^ c * 2 ^ c) (z % 2 ^ c) == z

-- A claim on the number of free bits holds if it holds at each of the nine.
pub by_count :
    (P : ℕ → Type 0) → P 0 → P 1 → P 2 → P 3 → P 4 → P 5 → P 6 → P 7 → P 8 → (c : ℕ) → c ≤ 8 → P c
by_count P a b d e f g h i j zero l = a
by_count P a b d e f g h i j (suc zero) l = b
by_count P a b d e f g h i j (suc (suc zero)) l = d
by_count P a b d e f g h i j (suc (suc (suc zero))) l = e
by_count P a b d e f g h i j (suc (suc (suc (suc zero)))) l = f
by_count P a b d e f g h i j (suc (suc (suc (suc (suc zero))))) l = g
by_count P a b d e f g h i j (suc (suc (suc (suc (suc (suc zero)))))) l = h
by_count P a b d e f g h i j (suc (suc (suc (suc (suc (suc (suc zero))))))) l = i
by_count P a b d e f g h i j (suc (suc (suc (suc (suc (suc (suc (suc zero)))))))) l = j
by_count P a b d e f g h i j (suc (suc (suc (suc (suc (suc (suc (suc (suc c))))))))) l =
    absurd (omega arith)

joined_all : (c : ℕ) → c ≤ 8 → all_bytes 256 (joined c) ≡ true
unfolding all_bytes joined
joined_all =
    by_count (λ c. all_bytes 256 (joined c) ≡ true) refl refl refl refl refl refl refl refl refl

abbrev pub Splits : ℕ → Type 0
Splits c =
    (x y : ℕ)
    → x < 256
    → x % 2 ^ c ≡ 0
    → y < 2 ^ c
    → (x + y < 256) × ((x + y) / 2 ^ c * 2 ^ c ≡ x) × ((x + y) % 2 ^ c ≡ y)

pub splits : (c : ℕ) → c ≤ 8 → Splits c
splits =
    by_count Splits (λ x y p q r. omega arith) (λ x y p q r. omega arith) (λ x y p q r. omega arith)
      (λ x y p q r. omega arith) (λ x y p q r. omega arith) (λ x y p q r. omega arith)
      (λ x y p q r. omega arith) (λ x y p q r. omega arith) (λ x y p q r. omega arith)

-- `|=` of bits that are free.
pub bit_or-free : (c x y : ℕ) → c ≤ 8 → x < 256 → x % 2 ^ c ≡ 0 → y < 2 ^ c → bit_or x y ≡ x + y
unfolding joined
bit_or-free c x y hc hx hf hy =
    let (lt, hi, lo) = splits c hc x y hx hf hy in
    sym (ap₂ bit_or hi lo)
    ∙ (==_iff _ _).0 (all_bytes_sound 256 (joined c) (x + y) (joined_all c hc) lt)

-- The arithmetic of one bit, and of one byte, behind a last byte with `c` free bits.
abbrev pub BitStep : ℕ → Type 0
BitStep c =
    (f x b : ℕ)
    → x < 256
    → x % 2 ^ c ≡ 0
    → b < 2
    → c ≢ 0
    → ((f * 256 + (x + b * 2 ^ (c - 1))) / 2 ^ (c - 1) ≡ (f * 256 + x) / 2 ^ c * 2 + b)
      × ((x + b * 2 ^ (c - 1)) % 2 ^ (c - 1) ≡ 0)
      × (x + b * 2 ^ (c - 1) < 256)
      × (b * 2 ^ (c - 1) < 2 ^ c)

pub bit_step : (c : ℕ) → c ≤ 8 → BitStep c
bit_step =
    by_count BitStep (λ f x b p q r n. absurd (n refl)) (λ f x b p q r n. omega arith)
      (λ f x b p q r n. omega arith) (λ f x b p q r n. omega arith) (λ f x b p q r n. omega arith)
      (λ f x b p q r n. omega arith) (λ f x b p q r n. omega arith) (λ f x b p q r n. omega arith)
      (λ f x b p q r n. omega arith)

abbrev pub ByteStep : ℕ → Type 0
ByteStep c =
    (f x y : ℕ)
    → x < 256
    → x % 2 ^ c ≡ 0
    → y < 256
    → (((f * 256 + (x + y / 2 ^ (8 - c))) * 256 + y * 2 ^ c % 256) / 2 ^ c
        ≡ (f * 256 + x) / 2 ^ c * 256 + y)
      × (y * 2 ^ c % 256 % 2 ^ c ≡ 0)
      × (y / 2 ^ (8 - c) < 2 ^ c)

pub byte_step : (c : ℕ) → c ≤ 8 → ByteStep c
byte_step =
    by_count ByteStep (λ f x y p q r. omega arith) (λ f x y p q r. omega arith)
      (λ f x y p q r. omega arith) (λ f x y p q r. omega arith) (λ f x y p q r. omega arith)
      (λ f x y p q r. omega arith) (λ f x y p q r. omega arith) (λ f x y p q r. omega arith)
      (λ f x y p q r. omega arith)
