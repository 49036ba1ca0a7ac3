-- ===== src/Tsz/Breader/Content.antt =====
-- The bits that a reader has before it, and the arithmetic of its first bytes.
use metrictank.Common.{
  ℕ, ◌+◌, ◌-◌, ◌*◌, ◌/◌, ◌%◌, ◌^◌, ◌≤◌, ◌<◌, ◌≡◌, ◌⊎◌, refl, Bool, true, ◌&&◌, ◌||◌, not, List, [],
  ◌∷◌, ◌++◌, ltb, ◌==◌, arith, All,
}
use metrictank.Tsz.Bits.{bits_of}
use metrictank.Tsz.Breader.{Breader}
use metrictank.Tsz.Bstream.Bytes.{all_bytes, all_bytes_sound}

-- The bits of whole bytes, and those of a stream.
abbrev pub bytes_bits : List ℕ → List Bool
bytes_bits [] = []
bytes_bits (x ∷ xs) = bits_of 8 x ++ bytes_bits xs

abbrev pub stream_bits : List ℕ → ℕ → List Bool
stream_bits [] c = []
stream_bits (x ∷ xs) c = bits_of c (x / 2 ^ (8 - c)) ++ bytes_bits xs

abbrev pub content : Breader → List Bool
content b = stream_bits b.stream b.count

-- The bits of the first byte that are read are shifted out, unless the byte was read as a whole.
abbrev pub FirstFree : List ℕ → ℕ → Type 0
FirstFree [] c = Unit
FirstFree (x ∷ xs) c = (c ≡ 0) ⊎ (x % 2 ^ (8 - c) ≡ 0)

pub record IsValid (b : Breader) : Type 0 where
  pub count_le : b.count ≤ 8
  pub bytes : All (λ x. x < 256) b.stream
  pub free : FirstFree b.stream b.count

-- A byte `x` of which `c` bits are left, before and after `n` of them are shifted out.
shifted : ℕ → ℕ → ℕ → Bool
shifted c n x =
    let x' = x * 2 ^ n % 256 in
    ltb c n
    || (x / 2 ^ (8 - c) == x / 2 ^ (8 - n) * 2 ^ (c - n) + x' / 2 ^ (8 - (c - n))
        && ltb (x' / 2 ^ (8 - (c - n))) (2 ^ (c - n))
        && ltb (x / 2 ^ (8 - n)) (2 ^ n)
        && (not (x % 2 ^ (8 - c) == 0) || x' % 2 ^ (8 - (c - n)) == 0))

shifted_all : all_bytes 9 (λ c. all_bytes 9 (λ n. all_bytes 256 (λ x. shifted c n x))) ≡ true
unfolding all_bytes shifted
shifted_all = refl

pub record Shifts (c n x : ℕ) : Type 0 where
  pub split : x / 2 ^ (8 - c) ≡ x / 2 ^ (8 - n) * 2 ^ (c - n) + x * 2 ^ n % 256 / 2 ^ (8 - (c - n))
  pub low : x * 2 ^ n % 256 / 2 ^ (8 - (c - n)) < 2 ^ (c - n)
  pub top : x / 2 ^ (8 - n) < 2 ^ n
  pub free : x % 2 ^ (8 - c) ≡ 0 → x * 2 ^ n % 256 % 2 ^ (8 - (c - n)) ≡ 0

pub shift_out-Shifts : (c n x : ℕ) → c ≤ 8 → n ≤ c → x < 256 → Shifts c n x
unfolding shifted
shift_out-Shifts c n x hc hn hx =
    let by_c =
      all_bytes_sound 9 (λ c. all_bytes 9 (λ n. all_bytes 256 (λ x. shifted c n x))) c shifted_all
        (omega arith) in
    let by_n = all_bytes_sound 9 (λ n. all_bytes 256 (λ x. shifted c n x)) n by_c (omega arith) in
    let by_x : shifted c n x ≡ true = all_bytes_sound 256 (λ x. shifted c n x) x by_n hx in
    record {
      split = ground (arith, by_x);
      low = ground (arith, by_x);
      top = ground (arith, by_x);
      free = λ h. ground (arith, by_x, h);
    }

-- Two bytes of which the first has `c` bits left, joined to one, with `c` bits of the second left.
joins : ℕ → ℕ → Bool
joins c y =
    let y' = y * 2 ^ (8 - c) % 256 in
    y' / 2 ^ (8 - c) == y % 2 ^ c
    && y' % 2 ^ (8 - c) == 0
    && ltb (y / 2 ^ c) (2 ^ (8 - c))
    && ltb (y % 2 ^ c) (2 ^ c)
    && y == y / 2 ^ c * 2 ^ c + y % 2 ^ c

joins_all : all_bytes 9 (λ c. all_bytes 256 (λ y. joins c y)) ≡ true
unfolding all_bytes joins
joins_all = refl

pub record Joins (c y : ℕ) : Type 0 where
  pub rest : y * 2 ^ (8 - c) % 256 / 2 ^ (8 - c) ≡ y % 2 ^ c
  pub free : y * 2 ^ (8 - c) % 256 % 2 ^ (8 - c) ≡ 0
  pub high : y / 2 ^ c < 2 ^ (8 - c)
  pub low : y % 2 ^ c < 2 ^ c
  pub split : y ≡ y / 2 ^ c * 2 ^ c + y % 2 ^ c

pub join_bytes-Joins : (c y : ℕ) → c ≤ 8 → y < 256 → Joins c y
unfolding joins
join_bytes-Joins c y hc hy =
    let by_c = all_bytes_sound 9 (λ c. all_bytes 256 (λ y. joins c y)) c joins_all (omega arith) in
    let by_y : joins c y ≡ true = all_bytes_sound 256 (λ y. joins c y) y by_c hy in
    record {
      rest = ground (arith, by_y);
      free = ground (arith, by_y);
      high = ground (arith, by_y);
      low = ground (arith, by_y);
      split = ground (arith, by_y);
    }
