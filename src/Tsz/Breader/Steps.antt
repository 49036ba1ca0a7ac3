-- ===== src/Tsz/Breader/Steps.antt =====
-- `readBit` and `readByte` take the bits at the front.
use Prim.Native.Nat.{bit_or}
use native.Mathlib.Nat.{div-add-mod'}
use metrictank.Common.{
  ℕ, zero, suc, ◌+◌, ◌-◌, ◌*◌, ◌/◌, ◌%◌, ◌^◌, ◌≤◌, ◌<◌, ◌≡◌, ◌≢◌, refl, sym, ap, ap₂, ◌∙◌, inl, inr,
  Bool, List, [], ◌∷◌, ◌++◌, length, ◌==◌, arith, append_assoc, append-nil, subst, Bool-cases,
}
use metrictank.Tsz.Bits.{bits_of, bits_of-append, length-bits_of}
use metrictank.Tsz.Bstream.Bytes.{bit_or-free, splits}
use metrictank.Tsz.Breader.{Breader, ok, ◌>>=◌, refill, read_bit, read_byte, join_bytes}
use metrictank.Tsz.Breader.Content.{
  content, stream_bits, bytes_bits, IsValid, shift_out-Shifts, join_bytes-Joins,
}

-- A read of `n` bits that spell `u`.
pub record Reads (b : Breader) (n u : ℕ) (b' : Breader) : Type 0 where
  pub valid : IsValid b'
  pub fits : u < 2 ^ n
  pub bits_lem : content b ≡ bits_of n u ++ content b'

-- A first byte that has bits left.
record Refills (xs : List ℕ) (c : ℕ) : Type 0 where
  x : ℕ
  tail : List ℕ
  left : ℕ
  refill_lem : refill xs c ≡ ok (record { stream = x ∷ tail; count = left })
  same : stream_bits xs c ≡ stream_bits (x ∷ tail) left
  some_left : left ≢ 0
  aligned : x % 2 ^ (8 - left) ≡ 0
  valid : IsValid (record { stream = x ∷ tail; count = left })

refill-Refills :
    (xs : List ℕ) (c : ℕ)
    → IsValid (record { stream = xs; count = c })
    → 0 < length (stream_bits xs c)
    → Refills xs c
unfolding refill
refill-Refills [] c v h = absurd (omega (arith, h))
refill-Refills (x ∷ []) zero v h = absurd (omega (arith, h))
refill-Refills (x ∷ y ∷ ys) zero v h = record {
  x = y;
  tail = ys;
  left = 8;
  refill_lem = refl;
  same = ap (λ z. bits_of 8 z ++ bytes_bits ys) {x = y} {y = y / 2 ^ (8 - 8)} (omega arith);
  some_left = omega arith;
  aligned = omega arith;
  valid = record { count_le = omega arith; bytes = v.bytes.1; free = inr (omega arith) };
}
refill-Refills (x ∷ xs) (suc c) v h = record {
  x = x;
  tail = xs;
  left = suc c;
  refill_lem = refl;
  same = refl;
  some_left = omega arith;
  aligned = elim v.free [ inl e ↦ absurd (omega (arith, e)) | inr e ↦ e ];
  valid = v;
}

-- Shifting out the top `n` bits of the first byte.
pub stream_bits_shift :
    (c n x : ℕ) (xs : List ℕ)
    → c ≤ 8
    → n ≤ c
    → x < 256
    → stream_bits (x ∷ xs) c
      ≡ bits_of n (x / 2 ^ (8 - n)) ++ stream_bits ((x * 2 ^ n % 256) ∷ xs) (c - n)
stream_bits_shift c n x xs hc hn hx =
    let s = shift_out-Shifts c n x hc hn hx in
    let low = x * 2 ^ n % 256 / 2 ^ (8 - (c - n)) in
    ap (λ bs. bs ++ bytes_bits xs)
      (ap₂ bits_of {x = c} {y = n + (c - n)} (omega arith) s.split
        ∙ bits_of-append n (c - n) (x / 2 ^ (8 - n)) low s.low)
    ∙ append_assoc (bits_of n (x / 2 ^ (8 - n))) (bits_of (c - n) low) (bytes_bits xs)

-- `readBit` of a stream that has a bit left.
pub read_bit-Reads :
    (b : Breader)
    → IsValid b
    → 0 < length (content b)
    → (bit : Bool) × (b' : Breader) × (read_bit b ≡ ok (bit, b'))
      × (content b ≡ bit ∷ content b')
      × IsValid b'
unfolding read_bit
read_bit-Reads b v h =
    let r = refill-Refills b.stream b.count v h in
    let one : 1 ≤ r.left = omega (arith, r.some_left) in
    let s = shift_out-Shifts r.left 1 r.x r.valid.count_le one r.valid.bytes.0 in
    let b' : Breader = record { stream = (r.x * 2 % 256) ∷ r.tail; count = r.left - 1 } in
    let top : r.x / 2 ^ 7 / 2 ^ 0 % 2 ≡ r.x / 2 ^ 7 = omega (arith, s.top) in
    (
      r.x / 2 ^ 7 == 1,
      b',
      rw (r.refill_lem, ◌>>=◌) refl,
      r.same
          ∙ stream_bits_shift r.left 1 r.x r.tail r.valid.count_le one r.valid.bytes.0
          ∙ ap (λ z. (z == 1) ∷ content b') top,
      record {
        count_le = omega (arith, r.valid.count_le);
        bytes = (omega arith, r.valid.bytes.1);
        free = inr (s.free r.aligned);
      },
    )

joined :
    (x c : ℕ) (xs : List ℕ)
    → IsValid (record { stream = x ∷ xs; count = c })
    → x % 2 ^ (8 - c) ≡ 0
    → c < 8
    → 8 ≤ length (stream_bits (x ∷ xs) c)
    → (z : ℕ) × (b' : Breader) × (join_bytes x xs c ≡ ok (z, b'))
      × Reads (record { stream = x ∷ xs; count = c }) 8 z b'
unfolding join_bytes
joined x c [] v al lt h = absurd (
    omega (
      arith,
      h,
      ap length (append-nil (bits_of c (x / 2 ^ (8 - c)))),
      length-bits_of c (x / 2 ^ (8 - c)),
    ))
joined x c (y ∷ ys) v al lt h =
    let j = join_bytes-Joins c y v.count_le v.bytes.1.0 in
    let hx = x / 2 ^ (8 - c) in
    let b' : Breader = record { stream = (y * 2 ^ (8 - c) % 256) ∷ ys; count = c } in
    let whole : bit_or x (y / 2 ^ c) ≡ hx * 2 ^ (8 - c) + y / 2 ^ c =
      bit_or-free (8 - c) x (y / 2 ^ c) (omega arith) v.bytes.0 al j.high
      ∙ omega (arith, al, div-add-mod' x (2 ^ (8 - c))) in
    let second : bits_of 8 y ≡ bits_of (8 - c) (y / 2 ^ c) ++ bits_of c (y % 2 ^ c) =
      ap₂ bits_of {x = 8} {y = 8 - c + c} (omega arith) j.split
      ∙ bits_of-append (8 - c) c (y / 2 ^ c) (y % 2 ^ c) j.low in
    let first : bits_of 8 (bit_or x (y / 2 ^ c)) ≡ bits_of c hx ++ bits_of (8 - c) (y / 2 ^ c) =
      ap₂ bits_of {x = 8} {y = c + (8 - c)} (omega arith) whole
      ∙ bits_of-append c (8 - c) hx (y / 2 ^ c) j.high in
    (
      bit_or x (y / 2 ^ c),
      b',
      refl,
      record {
        valid = record {
          count_le = v.count_le;
          bytes = (omega arith, v.bytes.1.1);
          free = inr j.free;
        };
        fits =
            let fit = splits (8 - c) (omega arith) x (y / 2 ^ c) v.bytes.0 al j.high in
            omega (arith, fit.0, whole, al, div-add-mod' x (2 ^ (8 - c)));
        bits_lem =
            let hi = bits_of c hx in
            let mid = bits_of (8 - c) (y / 2 ^ c) in
            let lo = bits_of c (y % 2 ^ c) in
            ap (λ bs. hi ++ bs)
              (ap (λ bs. bs ++ bytes_bits ys) second ∙ append_assoc mid lo (bytes_bits ys))
            ∙ sym (append_assoc hi mid (lo ++ bytes_bits ys))
            ∙ ap₂ (λ bs w. bs ++ (bits_of c w ++ bytes_bits ys)) (sym first) (sym j.rest);
      },
    )

pub stream_bits_whole :
    (c x : ℕ) (xs : List ℕ) → c ≡ 8 → stream_bits (x ∷ xs) c ≡ bits_of 8 x ++ bytes_bits xs
stream_bits_whole c x xs e =
    ap (λ k. stream_bits (x ∷ xs) k) e
    ∙ ap (λ z. bits_of 8 z ++ bytes_bits xs) {x = x / 2 ^ (8 - 8)} {y = x} (omega arith)

-- `readByte` of a stream that has eight bits left.
pub read_byte-Reads :
    (b : Breader)
    → IsValid b
    → 8 ≤ length (content b)
    → (x : ℕ) × (b' : Breader) × (read_byte b ≡ ok (x, b')) × Reads b 8 x b'
unfolding read_byte
read_byte-Reads b v h =
    let r = refill-Refills b.stream b.count v (omega (arith, h)) in
    elim (Bool-cases (r.left == 8)) [
      | inl e ↦
          let z : r.left ≡ 8 = ground arith in
          (
            r.x,
            record { stream = r.x ∷ r.tail; count = 0 },
            rw (r.refill_lem, ◌>>=◌, e) refl,
            record {
              valid = record { count_le = omega arith; bytes = r.valid.bytes; free = inl refl };
              fits = r.valid.bytes.0;
              bits_lem = r.same ∙ stream_bits_whole r.left r.x r.tail z;
            },
          )
      | inr e ↦
          let below : r.left < 8 = ground (arith, r.valid.count_le) in
          let (z, b', run, reads) =
            joined r.x r.left r.tail r.valid r.aligned below
              (subst (λ bs. 8 ≤ length bs) r.same h) in
          (
            z,
            b',
            rw (r.refill_lem, ◌>>=◌, e) run,
            record { valid = reads.valid; fits = reads.fits; bits_lem = r.same ∙ reads.bits_lem },
          )
    ]
