-- ===== src/Tsz/Bstream.antt =====
-- mdata/chunk/tsz/bstream.go, the writing half: a stream of bits packed into bytes.
pub mod Bytes
pub mod Value
pub mod Write
use Prim.Native.Nat.{bit_or}
use metrictank.Common.{
  ℕ, zero, suc, ◌+◌, ◌-◌, ◌*◌, ◌/◌, ◌%◌, ◌^◌, Bool, List, [], ◌∷◌, ◌==◌, if◌then◌else◌,
}

-- `bstream`. The head of the list is the back of the byte slice; `count` is the number of bits of
-- the last byte that are not written yet.
pub record Bstream : Type 0 where
  pub stream : List ℕ
  pub count : ℕ

abbrev pub empty : Bstream
empty = record { stream = []; count = 0 }

-- The first lines of `writeBit` and `writeByte`: a fresh byte where the last one is full.
unfoldable pub room : Bstream → Bstream
room b = if b.count == 0 then record { stream = 0 ∷ b.stream; count = 8 } else b

-- `b.stream[i] |= x` at the last byte.
unfoldable pub or_last : ℕ → List ℕ → List ℕ
or_last x [] = []
or_last x (y ∷ ys) = bit_or y x ∷ ys

-- `writeBit`.
unfoldable pub write_bit : Bstream → Bool → Bstream
unfolding room or_last
write_bit b bit =
    let r = room b in
    record {
      stream = if bit then or_last (2 ^ (r.count - 1)) r.stream else r.stream;
      count = r.count - 1;
    }

-- `writeByte`; the new byte is the low eight bits of `byt << b.count`.
unfoldable pub write_byte : Bstream → ℕ → Bstream
unfolding room or_last
write_byte b byt =
    let r = room b in
    record {
      stream = (byt * 2 ^ r.count % 256) ∷ or_last (byt / 2 ^ (8 - r.count)) r.stream;
      count = r.count;
    }

-- The loop `for nbits >= 8` of `writeBits`, of `n` rounds; it leaves the bits of `u` to write.
unfoldable pub write_bytes : ℕ → Bstream → ℕ → Bstream × ℕ
unfolding write_byte
write_bytes zero b u = (b, u)
write_bytes (suc n) b u = write_bytes n (write_byte b (u / 2 ^ 56)) (u * 2 ^ 8 % 2 ^ 64)

-- The loop `for nbits > 0`.
unfoldable pub write_rest : ℕ → Bstream → ℕ → Bstream
unfolding write_bit
write_rest zero b u = b
write_rest (suc n) b u = write_rest n (write_bit b (u / 2 ^ 63 == 1)) (u * 2 % 2 ^ 64)

-- `writeBits`: the low `nbits` bits of `u`, most significant first. `nbits` is at most 64.
unfoldable pub write_bits : Bstream → ℕ → ℕ → Bstream
unfolding write_bytes write_rest
write_bits b u nbits =
    let (b', u') = write_bytes (nbits / 8) b (u * 2 ^ (64 - nbits) % 2 ^ 64) in
    write_rest (nbits % 8) b' u'
