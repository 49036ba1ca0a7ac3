-- ===== src/Tsz/SeriesLong/Append.antt =====
-- What `SeriesLong.Push` and `Finish` do to the stream and to the fields that callers read.
use Prim.Native.Nat.{bit_xor}
use metrictank.Common.{
  ℕ, ◌+◌, ◌-◌, ◌*◌, ◌/◌, ◌%◌, ◌^◌, ◌≤◌, ◌<◌, ◌≡◌, refl, sym, ap, ◌∙◌, Bool, true, false, ◌==◌,
  arith, if-elim, if◌then◌else◌,
}
use metrictank.Common.Words.{sub32}
use metrictank.Tsz.Bstream.{Bstream, write_bit, write_bits}
use metrictank.Tsz.Bstream.Value.{IsValid, Writes, value, size, write_bit-Writes}
use native.Mathlib.Nat.{
  add_comm, zero-add, add-mul-div_right, div-eq_of_lt, one-le-pow, div-div-eq-div-mul, mod-lt,
}
use metrictank.Tsz.Bstream.Write.{write_bits-Writes, pow-add}
use metrictank.Tsz.SeriesLong.{
  SeriesLong, push, write_dod, write_value, in_range, sign_extend, clamped_leading, trailing_zeros,
}

-- A stream that has grown by between `lo` and `hi` bits, what was written before being unchanged.
pub record Appends (b b' : Bstream) (lo hi : ℕ) : Type 0 where
  pub valid : IsValid b'
  pub bits : ℕ
  pub at_least : lo ≤ bits
  pub at_most : bits ≤ hi
  pub kept : value b' / 2 ^ bits ≡ value b
  pub size_lem : size b' ≡ size b + bits

Writes-Appends : {b b' : Bstream} (n u : ℕ) → u < 2 ^ n → Writes b b' n u → Appends b b' n n
Writes-Appends {b} n u lt w = record {
  valid = w.valid;
  bits = n;
  at_least = omega arith;
  at_most = omega arith;
  kept =
      ap (λ k. k / 2 ^ n) (w.value_lem ∙ add_comm (value b * 2 ^ n) u)
      ∙ add-mul-div_right u (value b) (one-le-pow n 2 (omega arith))
      ∙ ap (λ k. k + value b) (div-eq_of_lt lt)
      ∙ zero-add (value b);
  size_lem = w.size_lem;
}

Appends-trans :
    {a b c : Bstream} {k l m n : ℕ}
    → Appends a b k l
    → Appends b c m n
    → Appends a c (k + m) (l + n)
Appends-trans {a} {b} {c} s t = record {
  valid = t.valid;
  bits = s.bits + t.bits;
  at_least = omega (arith, s.at_least, t.at_least);
  at_most = omega (arith, s.at_most, t.at_most);
  kept =
      ap (λ p. value c / p) (ap (λ n. 2 ^ n) (add_comm s.bits t.bits) ∙ pow-add t.bits s.bits)
      ∙ sym (div-div-eq-div-mul (value c) (2 ^ t.bits) (2 ^ s.bits))
      ∙ ap (λ k. k / 2 ^ s.bits) t.kept
      ∙ s.kept;
  size_lem = omega (arith, s.size_lem, t.size_lem);
}

pub Appends-weaken :
    {a b : Bstream} {k l m n : ℕ} → m ≤ k → l ≤ n → Appends a b k l → Appends a b m n
Appends-weaken h i s = record {
  valid = s.valid;
  bits = s.bits;
  at_least = omega (arith, s.at_least);
  at_most = omega (arith, s.at_most);
  kept = s.kept;
  size_lem = s.size_lem;
}

bit-Appends : (b : Bstream) (bit : Bool) → IsValid b → Appends b (write_bit b bit) 1 1
bit-Appends b true v = Writes-Appends 1 1 (omega arith) (write_bit-Writes b true v)
bit-Appends b false v = Writes-Appends 1 0 (omega arith) (write_bit-Writes b false v)

pub bits-Appends : (b : Bstream) (u n : ℕ) → IsValid b → n ≤ 64 → Appends b (write_bits b u n) n n
bits-Appends b u n v le =
    Writes-Appends n (u % 2 ^ n) (mod-lt u (one-le-pow n 2 (omega arith)))
      (write_bits-Writes b u n v le)

two_words :
    (b : Bstream) (x m y n : ℕ)
    → IsValid b
    → m ≤ 64
    → n ≤ 64
    → Appends b (write_bits (write_bits b x m) y n) (m + n) (m + n)
two_words b x m y n v hm hn =
    let s = bits-Appends b x m v hm in
    Appends-trans s (bits-Appends (write_bits b x m) y n s.valid hn)

write_dod-Appends : (b : Bstream) (dod : ℕ) → IsValid b → Appends b (write_dod b dod) 1 37
unfolding write_dod
write_dod-Appends b dod v = if-elim P (dod == 0) (widen (bit-Appends b false v) (omega arith)) (
    if-elim P (in_range 63 64 dod)
      (widen (two_words b 2 2 (sign_extend dod) 7 v (omega arith) (omega arith)) (omega arith))
      (if-elim P (in_range 255 256 dod)
        (widen (two_words b 6 3 (sign_extend dod) 9 v (omega arith) (omega arith)) (omega arith))
        (if-elim P (in_range 2047 2048 dod)
          (widen (two_words b 0x0e 4 (sign_extend dod) 12 v (omega arith) (omega arith))
            (omega arith))
          (widen (two_words b 0x1e 5 (sign_extend dod) 32 v (omega arith) (omega arith))
            (omega arith)))))
  where
    P : Bstream → Type 0
    P b' = Appends b b' 1 37

    widen : {b' : Bstream} {k : ℕ} → Appends b b' k k → (1 ≤ k) × (k ≤ 37) → Appends b b' 1 37
    widen s h = Appends-weaken h.0 h.1 s

-- The value part of a push, and the fields that callers read.
abbrev Valued : SeriesLong → Bstream → ℕ → SeriesLong → Type 0
Valued s bw v s' =
    Appends bw s'.bw 1 77
    × (s'.val ≡ v)
    × (s'.t ≡ s.t)
    × (s'.t0 ≡ s.t0)
    × (s'.finished ≡ s.finished)

write_value-Valued :
    (s : SeriesLong) (bw : Bstream) (v : ℕ) → IsValid bw → Valued s bw v (write_value s bw v)
unfolding write_value
write_value-Valued s bw v ok =
    if-elim (Valued s bw v) (bit_xor v s.val == 0)
      (Appends-weaken (omega arith) (omega arith) (bit-Appends bw false ok), refl, refl, refl, refl)
      (if-elim (Valued s bw v) _
        (
          let c = control false in
              Appends-weaken (omega arith) (omega arith) (
                Appends-trans c
                  (bits-Appends _ _ (64 - s.leading - s.trailing) c.valid (omega arith))),
          refl,
          refl,
          refl,
          refl,
        )
        (
          let c = control true in
              let l = bits-Appends _ (clamped_leading (bit_xor v s.val)) 5 c.valid (omega arith) in
              let m =
                bits-Appends _
                  (64 - clamped_leading (bit_xor v s.val) - trailing_zeros (bit_xor v s.val)) 6
                  l.valid (omega arith) in
              Appends-weaken (omega arith) (omega arith) (
                Appends-trans (Appends-trans (Appends-trans c l) m) (
                  bits-Appends _ _
                    (64 - clamped_leading (bit_xor v s.val) - trailing_zeros (bit_xor v s.val))
                    m.valid (omega arith))),
          refl,
          refl,
          refl,
          refl,
        ))
  where
    control : (b : Bool) → Appends bw (write_bit (write_bit bw true) b) 2 2
    control b =
        let one = bit-Appends bw true ok in
        Appends-trans one (bit-Appends (write_bit bw true) b one.valid)

-- `Push` to a series with a valid stream appends between 2 and 114 bits to it and keeps what was
-- written before; it sets the last timestamp and value, and leaves T0 and the finished flag.
pub push-Appends :
    (s : SeriesLong) (t v : ℕ)
    → IsValid s.bw
    → Appends s.bw (push s t v).bw 2 114
      × ((push s t v).t ≡ t)
      × ((push s t v).val ≡ v)
      × ((push s t v).t0 ≡ s.t0)
      × ((push s t v).finished ≡ s.finished)
unfolding push
push-Appends s t v ok =
    if-elim Pushed (s.t == 0)
      (
        Appends-weaken (omega arith) (omega arith)
            (Appends-trans time (bits-Appends bw v 64 time.valid (omega arith))),
        refl,
        refl,
        refl,
        refl,
      )
      (let (a, val, ts, t0, fin) = write_value-Valued moved bw v time.valid in
        (Appends-weaken (omega arith) (omega arith) (Appends-trans time a), ts, val, t0, fin))
  where
    Pushed : SeriesLong → Type 0
    Pushed s' =
        Appends s.bw s'.bw 2 114
        × (s'.t ≡ t)
        × (s'.val ≡ v)
        × (s'.t0 ≡ s.t0)
        × (s'.finished ≡ s.finished)

    t_delta : ℕ
    t_delta = if s.t == 0 then sub32 t s.t0 else sub32 t s.t

    bw : Bstream
    bw = write_dod s.bw (sub32 t_delta s.t_delta)

    moved : SeriesLong
    moved = record s { t_delta = t_delta; t = t }

    time : Appends s.bw bw 1 37
    time = write_dod-Appends s.bw (sub32 t_delta s.t_delta) ok
