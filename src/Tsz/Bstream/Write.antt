-- ===== src/Tsz/Bstream/Write.antt =====
-- `writeBits` of mdata/chunk/tsz/bstream.go, as arithmetic on a stream and a word.
use metrictank.Common.{
  ℕ, zero, suc, ◌+◌, ◌-◌, ◌*◌, ◌/◌, ◌%◌, ◌^◌, ◌≤◌, ◌<◌, ◌≡◌, sym, ap, ◌∙◌, ◌==◌, arith, dec_lt,
}
use native.Mathlib.Nat.{
  pow-suc, mul_assoc, mod-lt, div-add-mod', one-le-pow, add-mul-mod_self_right, mod-eq_of_lt,
  mul-lt-mul_of_pos_right,
}
use metrictank.Tsz.Bstream.{Bstream, write_bit, write_byte, write_bytes, write_rest, write_bits}
use metrictank.Tsz.Bstream.Value.{
  IsValid, Writes, value, size, bit_number, write_bit-Writes, write_byte-Writes,
}

pub pow-add : (m n : ℕ) → 2 ^ (m + n) ≡ 2 ^ m * 2 ^ n
pow-add m zero = let e : m + 0 ≡ m = omega arith in rw e (omega arith)
pow-add m (suc n) =
    let e : m + suc n ≡ suc (m + n) = omega arith in
    rw (e, pow-suc 2 (m + n), pow-suc 2 n, pow-add m n) (mul_assoc (2 ^ m) (2 ^ n) 2)

-- The stream and the word that is still to be written, as one number: each step only shifts it.
record Shifts (b : Bstream) (u : ℕ) (b' : Bstream) (u' n : ℕ) : Type 0 where
  valid : IsValid b'
  word : u' < 2 ^ 64
  total : value b' * 2 ^ 64 + u' ≡ (value b * 2 ^ 64 + u) * 2 ^ n
  size_lem : size b' ≡ size b + n

Shifts-trans :
    {a b c : Bstream} {u v w : ℕ} (m n : ℕ)
    → Shifts a u b v m
    → Shifts b v c w n
    → Shifts a u c w (m + n)
Shifts-trans {a} {u = u} m n s t = record {
  valid = t.valid;
  word = t.word;
  total =
      t.total
      ∙ ap (λ k. k * 2 ^ n) s.total
      ∙ mul_assoc (value a * 2 ^ 64 + u) (2 ^ m) (2 ^ n)
      ∙ ap (λ k. (value a * 2 ^ 64 + u) * k) (sym (pow-add m n));
  size_lem = omega (arith, s.size_lem, t.size_lem);
}

byte-Shifts :
    (b : Bstream) (u : ℕ)
    → IsValid b
    → u < 2 ^ 64
    → Shifts b u (write_byte b (u / 2 ^ 56)) (u * 2 ^ 8 % 2 ^ 64) 8
byte-Shifts b u v lt =
    let w = write_byte-Writes b (u / 2 ^ 56) v (omega arith) in
    record {
      valid = w.valid;
      word = omega arith;
      total = omega (arith, w.value_lem);
      size_lem = w.size_lem;
    }

top_bit : (u : ℕ) → u < 2 ^ 64 → bit_number (u / 2 ^ 63 == 1) ≡ u / 2 ^ 63
top_bit u lt = ground arith

bit-Shifts :
    (b : Bstream) (u : ℕ)
    → IsValid b
    → u < 2 ^ 64
    → Shifts b u (write_bit b (u / 2 ^ 63 == 1)) (u * 2 % 2 ^ 64) 1
bit-Shifts b u v lt =
    let w = write_bit-Writes b (u / 2 ^ 63 == 1) v in
    record {
      valid = w.valid;
      word = omega arith;
      total = omega (arith, w.value_lem, top_bit u lt);
      size_lem = w.size_lem;
    }

write_bytes-Shifts :
    (n : ℕ) (b : Bstream) (u : ℕ)
    → IsValid b
    → u < 2 ^ 64
    → let (b', u') = write_bytes n b u in Shifts b u b' u' (8 * n)
unfolding write_bytes
write_bytes-Shifts zero b u v lt = record {
  valid = v;
  word = lt;
  total = omega arith;
  size_lem = omega arith;
}
write_bytes-Shifts (suc n) b u v lt =
    let s = byte-Shifts b u v lt in
    let e : 8 * suc n ≡ 8 + 8 * n = omega arith in
    rw e (
      Shifts-trans 8 (8 * n) s
        (write_bytes-Shifts n (write_byte b (u / 2 ^ 56)) (u * 2 ^ 8 % 2 ^ 64) s.valid s.word))

write_rest-Shifts :
    (n : ℕ) (b : Bstream) (u : ℕ)
    → IsValid b
    → u < 2 ^ 64
    → (u' : ℕ) × Shifts b u (write_rest n b u) u' n
unfolding write_rest
write_rest-Shifts zero b u v lt =
    (u, record { valid = v; word = lt; total = omega arith; size_lem = omega arith })
write_rest-Shifts (suc n) b u v lt =
    let s = bit-Shifts b u v lt in
    let (u', t) =
      write_rest-Shifts n (write_bit b (u / 2 ^ 63 == 1)) (u * 2 % 2 ^ 64) s.valid s.word in
    let e : suc n ≡ 1 + n = omega arith in (u', rw e (Shifts-trans 1 n s t))

-- What `u <<= 64 - nbits` keeps of a word.
shifted : (u p q : ℕ) → 0 < q → p * q ≡ 2 ^ 64 → u * q % 2 ^ 64 ≡ u % p * q
shifted u p q pos e =
    let split : u * q ≡ u % p * q + u / p * 2 ^ 64 =
      omega (arith, ap (λ t. t * q) (div-add-mod' u p), ap (λ t. u / p * t) e) in
    rw split (add-mul-mod_self_right (u % p * q) (u / p) (2 ^ 64) ∙ mod-eq_of_lt small)
  where
    small : u % p * q < 2 ^ 64
    small = rw (← e) (mul-lt-mul_of_pos_right {k = q} (mod-lt u p_pos) pos)
      where
        p_pos : 0 < p
        p_pos = elim (dec_lt 0 p) [
          | yes h ↦ h
          | no h ↦ let z : p ≡ 0 = omega arith in absurd (omega (arith, sym e ∙ ap (λ t. t * q) z))
        ]

-- `writeBits` of at most 64 bits appends exactly the low `nbits` bits of the word, most
-- significant first, to a valid stream, and leaves a valid stream.
pub write_bits-Writes :
    (b : Bstream) (u nbits : ℕ)
    → IsValid b
    → nbits ≤ 64
    → Writes b (write_bits b u nbits) nbits (u % 2 ^ nbits)
unfolding write_bits
write_bits-Writes b u nbits v le =
    let p = 2 ^ nbits in
    let q = 2 ^ (64 - nbits) in
    let u0 = u * q % 2 ^ 64 in
    let s = write_bytes-Shifts (nbits / 8) b u0 v (mod-lt (u * q) (omega arith)) in
    let (left, t) =
      write_rest-Shifts (nbits % 8) (write_bytes (nbits / 8) b u0).0
        (write_bytes (nbits / 8) b u0).1 s.valid s.word in
    let st = Shifts-trans (8 * (nbits / 8)) (nbits % 8) s t in
    let n : 8 * (nbits / 8) + nbits % 8 ≡ nbits = omega arith in
    let total : value (write_bits b u nbits) * 2 ^ 64 + left ≡ (value b * 2 ^ 64 + u0) * p =
      st.total ∙ ap (λ k. (value b * 2 ^ 64 + u0) * 2 ^ k) n in
    record {
      valid = st.valid;
      value_lem = omega (
        arith,
        st.word,
        total,
        ap (λ k. k * p) (shifted u p q (one-le-pow (64 - nbits) 2 (omega arith)) pq),
        ap (λ k. u % p * k) pq,
      );
      size_lem = st.size_lem ∙ ap (λ k. size b + k) n;
    }
  where
    pq : 2 ^ nbits * 2 ^ (64 - nbits) ≡ 2 ^ 64
    pq =
        sym (pow-add nbits (64 - nbits))
        ∙ ap (λ k. 2 ^ k) {x = nbits + (64 - nbits)} {y = 64} (omega arith)
