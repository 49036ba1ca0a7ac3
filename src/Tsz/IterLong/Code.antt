-- ===== src/Tsz/IterLong/Code.antt =====
-- The bits that `SeriesLong.Push` and `Finish` append.
use Prim.Native.Nat.{bit_xor}
use native.Mathlib.Nat.{mod-lt, one-le-pow}
use metrictank.Common.{
  ℕ, ◌-◌, ◌/◌, ◌%◌, ◌^◌, ◌≤◌, ◌<◌, ◌≡◌, ap, ap₂, ◌∙◌, Bool, true, false, ◌&&◌, not, List, [], ◌∷◌,
  ◌++◌, leb, ◌==◌, if◌then◌else◌, arith, append_assoc,
}
use metrictank.Common.Words.{sub32}
use metrictank.Tsz.Bits.{bits_of, bits_of-append, bits_of-mod}
use metrictank.Tsz.Bstream.{Bstream, write_bit, write_bits}
use metrictank.Tsz.Bstream.Value.{IsValid, Writes, value, size, write_bit-Writes}
use metrictank.Tsz.Bstream.Write.{write_bits-Writes}
use metrictank.Tsz.SeriesLong.{
  SeriesLong, push, write_dod, write_value, in_range, sign_extend, clamped_leading, trailing_zeros,
  finish_v2,
}

-- The bits of a stream that is written.
abbrev pub written : Bstream → List Bool
written b = bits_of (size b) (value b)

-- A valid stream to which bits have been appended.
pub record Wrote (b b' : Bstream) (bits : List Bool) : Type 0 where
  pub valid : IsValid b'
  pub bits_lem : written b' ≡ written b ++ bits

Writes-Wrote : {b b' : Bstream} (n u : ℕ) → u < 2 ^ n → Writes b b' n u → Wrote b b' (bits_of n u)
Writes-Wrote {b} n u lt w = record {
  valid = w.valid;
  bits_lem = ap₂ bits_of w.size_lem w.value_lem ∙ bits_of-append (size b) n (value b) u lt;
}

Wrote-trans :
    {a b c : Bstream} (us vs : List Bool) → Wrote a b us → Wrote b c vs → Wrote a c (us ++ vs)
Wrote-trans {a} us vs s t = record {
  valid = t.valid;
  bits_lem = t.bits_lem ∙ ap (λ bs. bs ++ vs) s.bits_lem ∙ append_assoc (written a) us vs;
}

pub write_bits-Wrote :
    (b : Bstream) (u n : ℕ) → IsValid b → n ≤ 64 → Wrote b (write_bits b u n) (bits_of n u)
write_bits-Wrote b u n v le =
    let w =
      Writes-Wrote n (u % 2 ^ n) (mod-lt u (one-le-pow n 2 (omega arith)))
        (write_bits-Writes b u n v le) in
    record { valid = w.valid; bits_lem = w.bits_lem ∙ ap (λ bs. written b ++ bs) (bits_of-mod n u) }

pub write_bit-Wrote : (b : Bstream) (bit : Bool) → IsValid b → Wrote b (write_bit b bit) (bit ∷ [])
write_bit-Wrote b true v = Writes-Wrote 1 1 (omega arith) (write_bit-Writes b true v)
write_bit-Wrote b false v = Writes-Wrote 1 0 (omega arith) (write_bit-Writes b false v)

-- The code of a delta of deltas.
abbrev pub dod_code : ℕ → List Bool
dod_code dod =
    if dod == 0
    then false ∷ []
    else if in_range 63 64 dod
    then bits_of 2 0x02 ++ bits_of 7 (sign_extend dod)
    else if in_range 255 256 dod
    then bits_of 3 0x06 ++ bits_of 9 (sign_extend dod)
    else if in_range 2047 2048 dod
    then bits_of 4 0x0e ++ bits_of 12 (sign_extend dod)
    else bits_of 5 0x1e ++ bits_of 32 (sign_extend dod)

two_words :
    (b : Bstream) (x m y n : ℕ)
    → IsValid b
    → m ≤ 64
    → n ≤ 64
    → Wrote b (write_bits (write_bits b x m) y n) (bits_of m x ++ bits_of n y)
two_words b x m y n v hm hn =
    let s = write_bits-Wrote b x m v hm in
    Wrote-trans (bits_of m x) (bits_of n y) s (write_bits-Wrote (write_bits b x m) y n s.valid hn)

-- Both branches, on both sides.
either :
    {A B : Type 0} (P : A → B → Type 0) (c : Bool) {a a' : A} {b b' : B}
    → P a b
    → P a' b'
    → P (if c then a else a') (if c then b else b')
either P true p q = p
either P false p q = q

pub write_dod-Wrote : (b : Bstream) (dod : ℕ) → IsValid b → Wrote b (write_dod b dod) (dod_code dod)
unfolding write_dod
write_dod-Wrote b dod v =
    let x = sign_extend dod in
    either (Wrote b) (dod == 0) (write_bit-Wrote b false v) (
      either (Wrote b) (in_range 63 64 dod) (two_words b 2 2 x 7 v (omega arith) (omega arith)) (
        either (Wrote b) (in_range 255 256 dod) (two_words b 6 3 x 9 v (omega arith) (omega arith))
          (either (Wrote b) (in_range 2047 2048 dod)
            (two_words b 0x0e 4 x 12 v (omega arith) (omega arith))
            (two_words b 0x1e 5 x 32 v (omega arith) (omega arith)))))

-- The code of a value that is not the first, and the window for the significant bits behind it.
abbrev pub reuses : SeriesLong → ℕ → Bool
reuses s v_delta =
    not (s.leading == 255)
    && leb s.leading (clamped_leading v_delta)
    && leb s.trailing (trailing_zeros v_delta)

abbrev pub value_code : SeriesLong → ℕ → List Bool
value_code s v =
    let v_delta = bit_xor v s.val in
    let leading = clamped_leading v_delta in
    let trailing = trailing_zeros v_delta in
    let sigbits = 64 - leading - trailing in
    if v_delta == 0
    then false ∷ []
    else if reuses s v_delta
    then true ∷ false ∷ bits_of (64 - s.leading - s.trailing) (v_delta / 2 ^ s.trailing)
    else true
      ∷ true
      ∷ (bits_of 5 leading ++ (bits_of 6 sigbits ++ bits_of sigbits (v_delta / 2 ^ trailing)))

at_most_word : (a b : ℕ) → 64 - a - b ≤ 64
at_most_word a b = omega arith

two_bits :
    (b : Bstream) (x y : Bool) → IsValid b → Wrote b (write_bit (write_bit b x) y) (x ∷ y ∷ [])
two_bits b x y v =
    let s = write_bit-Wrote b x v in
    Wrote-trans (x ∷ []) (y ∷ []) s (write_bit-Wrote (write_bit b x) y s.valid)

reused :
    (b : Bstream) (y n : ℕ)
    → IsValid b
    → n ≤ 64
    → Wrote b (write_bits (write_bit (write_bit b true) false) y n) (true ∷ false ∷ bits_of n y)
reused b y n v le =
    let s = two_bits b true false v in
    Wrote-trans (true ∷ false ∷ []) (bits_of n y) s (write_bits-Wrote _ y n s.valid le)

windowed :
    (b : Bstream) (l k y n : ℕ)
    → IsValid b
    → n ≤ 64
    → Wrote b
        (write_bits (write_bits (write_bits (write_bit (write_bit b true) true) l 5) k 6) y n)
        (true ∷ true ∷ (bits_of 5 l ++ (bits_of 6 k ++ bits_of n y)))
windowed b l k y n v le =
    let s = two_bits b true true v in
    let t = write_bits-Wrote (write_bit (write_bit b true) true) l 5 s.valid (omega arith) in
    let u =
      write_bits-Wrote (write_bits (write_bit (write_bit b true) true) l 5) k 6 t.valid
        (omega arith) in
    Wrote-trans (true ∷ true ∷ []) (bits_of 5 l ++ (bits_of 6 k ++ bits_of n y)) s (
      Wrote-trans (bits_of 5 l) (bits_of 6 k ++ bits_of n y) t
        (Wrote-trans (bits_of 6 k) (bits_of n y) u (write_bits-Wrote _ y n u.valid le)))

pub write_value-Wrote :
    (s : SeriesLong) (bw : Bstream) (v : ℕ)
    → IsValid bw
    → Wrote bw (write_value s bw v).bw (value_code s v)
unfolding write_value
write_value-Wrote s bw v ok =
    let d = bit_xor v s.val in
    let leading = clamped_leading d in
    let trailing = trailing_zeros d in
    let n = 64 - leading - trailing in
    let P = λ (s' : SeriesLong) (bs : List Bool). Wrote bw s'.bw bs in
    either P (d == 0) (write_bit-Wrote bw false ok) (
      either P (reuses s d)
        (reused bw (d / 2 ^ s.trailing) (64 - s.leading - s.trailing) ok
          (at_most_word s.leading s.trailing))
        (windowed bw leading n (d / 2 ^ trailing) n ok (at_most_word leading trailing)))

-- The code of a point.
abbrev pub push_code : SeriesLong → ℕ → ℕ → List Bool
push_code s t v =
    let first = s.t == 0 in
    let t_delta = if first then sub32 t s.t0 else sub32 t s.t in
    dod_code (sub32 t_delta s.t_delta) ++ (if first then bits_of 64 v else value_code s v)

pub push-Wrote :
    (s : SeriesLong) (t v : ℕ) → IsValid s.bw → Wrote s.bw (push s t v).bw (push_code s t v)
unfolding push
push-Wrote s t v ok =
    let first = s.t == 0 in
    let t_delta = if first then sub32 t s.t0 else sub32 t s.t in
    let dod = sub32 t_delta s.t_delta in
    let d = write_dod-Wrote s.bw dod ok in
    let s' = record s { t_delta = t_delta; t = t } in
    either (λ (s' : SeriesLong) bs. Wrote s.bw s'.bw (dod_code dod ++ bs)) first
      (Wrote-trans (dod_code dod) (bits_of 64 v) d
        (write_bits-Wrote (write_dod s.bw dod) v 64 d.valid (omega arith)))
      (Wrote-trans (dod_code dod) (value_code s v) d
        (write_value-Wrote s' (write_dod s.bw dod) v d.valid))

pub finish_v2-Wrote : (b : Bstream) → IsValid b → Wrote b (finish_v2 b) (bits_of 5 0x1f)
unfolding finish_v2
finish_v2-Wrote b v = write_bits-Wrote b 0x1f 5 v (omega arith)
