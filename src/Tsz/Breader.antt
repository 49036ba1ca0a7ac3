-- ===== src/Tsz/Breader.antt =====
-- mdata/chunk/tsz/bstream.go, the reading half: bits taken off the front of a slice of bytes.
-- The bytes are shifted in place, so the model's stream is the reader's own copy.
pub mod Content
pub mod Steps
pub mod Reads
pub mod Yields
use Prim.Native.Nat.{bit_or}
use metrictank.Common.{
  ℕ, zero, suc, ◌+◌, ◌-◌, ◌*◌, ◌/◌, ◌%◌, ◌^◌, Bool, List, [], ◌∷◌, ltb, ◌==◌, if◌then◌else◌,
}

-- A read: its result, the end of the stream (`io.EOF`), or a panic on an empty stream.
pub data Read {ℓ} (A : Type ℓ) : Type ℓ where
  ok : A → Read A
  eof : Read A
  panic : Read A

infixl 5 ◌>>=◌
abbrev pub ◌>>=◌ {ℓ κ} : {A : Type ℓ} {B : Type κ} → Read A → (A → Read B) → Read B
ok a >>= f = f a
eof >>= f = eof
panic >>= f = panic

-- `bstream` as a reader: `count` is the number of bits of the first byte that are not read yet.
pub record Breader : Type 0 where
  pub stream : List ℕ
  pub count : ℕ

-- `newBReader`.
unfoldable pub new_breader : List ℕ → Breader
new_breader b = record { stream = b; count = 8 }

-- The first lines of `readBit` and `readByte`: the next byte where the first one is used up.
unfoldable pub refill : List ℕ → ℕ → Read Breader
refill [] count = eof
refill (x ∷ []) zero = eof
refill (x ∷ y ∷ ys) zero = ok (record { stream = y ∷ ys; count = 8 })
refill (x ∷ xs) (suc c) = ok (record { stream = x ∷ xs; count = suc c })

-- `readBit`.
unfoldable pub read_bit : Breader → Read (Bool × Breader)
unfolding refill
read_bit b = refill b.stream b.count >>= λ r. elim r.stream [
  | [] ↦ panic
  | x ∷ xs ↦ ok (x / 2 ^ 7 == 1, record { stream = (x * 2 % 256) ∷ xs; count = r.count - 1 })
]

-- The end of `readByte`, for a byte that is partly used up.
unfoldable pub join_bytes : ℕ → List ℕ → ℕ → Read (ℕ × Breader)
join_bytes x [] c = eof
join_bytes x (y ∷ ys) c =
    ok (bit_or x (y / 2 ^ c), record { stream = (y * 2 ^ (8 - c) % 256) ∷ ys; count = c })

-- `readByte`.
unfoldable pub read_byte : Breader → Read (ℕ × Breader)
unfolding refill join_bytes
read_byte b = refill b.stream b.count >>= λ r. elim r.stream [
  | [] ↦ panic
  | x ∷ xs ↦
      if r.count == 8
      then ok (x, record { stream = x ∷ xs; count = 0 })
      else join_bytes x xs r.count
]

-- The loop `for nbits >= 8` of `readBits`, of `n` rounds.
unfoldable pub read_bytes : ℕ → ℕ → Breader → Read (ℕ × Breader)
unfolding read_byte
read_bytes zero u b = ok (u, b)
read_bytes (suc n) u b = read_byte b >>= λ r. read_bytes n (u * 2 ^ 8 % 2 ^ 64 + r.0) r.1

-- The end of `readBits`, for `n` bits of the first byte.
unfoldable pub read_top : ℕ → ℕ → List ℕ → ℕ → Read (ℕ × Breader)
read_top u n [] c = panic
read_top u n (x ∷ xs) c = ok (
  u * 2 ^ n % 2 ^ 64 + x / 2 ^ (8 - n),
  record { stream = (x * 2 ^ n % 256) ∷ xs; count = c - n },
)

-- The lines of `readBits` behind the loop, for `n` bits. The bits that `|` joins are free.
unfoldable pub read_rest : ℕ → ℕ → List ℕ → ℕ → Read (ℕ × Breader)
unfolding read_top
read_rest u n [] c = panic
read_rest u n (x ∷ []) c = if ltb c n then eof else read_top u n (x ∷ []) c
read_rest u n (x ∷ y ∷ ys) c =
    if ltb c n
    then read_top (u * 2 ^ c % 2 ^ 64 + x / 2 ^ (8 - c)) (n - c) (y ∷ ys) 8
    else read_top u n (x ∷ y ∷ ys) c

-- `readBits`.
unfoldable pub read_bits : Breader → ℕ → Read (ℕ × Breader)
unfolding read_bytes read_rest
read_bits b nbits = read_bytes (nbits / 8) 0 b >>= λ r.
    if nbits % 8 == 0 then ok r else read_rest r.0 (nbits % 8) r.1.stream r.1.count
