-- ===== src/Tsz/IterLong/Window.antt =====
-- The significant bits of a value, read back in their window.
use Prim.Native.Nat.{bit_xor}
use native.Mathlib.Nat.{mod-eq_of_lt}
use metrictank.Common.{
  ℕ, ◌+◌, ◌-◌, ◌*◌, ◌/◌, ◌%◌, ◌^◌, ◌≤◌, ◌<◌, ◌≡◌, ◌≢◌, refl, ap, ap₂, ◌∙◌, Bool, true, List, ◌++◌,
  ◌==◌, if◌then◌else◌, arith, Bool-cases, inl, inr, some,
}
use metrictank.Tsz.Bits.{bits_of}
use metrictank.Tsz.SeriesLong.Zeros.{Window}
use metrictank.Tsz.Breader.{Breader, ok, ◌>>=◌, read_bits}
use metrictank.Tsz.Breader.Content.{content, IsValid}
use metrictank.Tsz.Breader.Yields.{Yields, read_bits-Yields}
use metrictank.Tsz.IterLong.{IterLong, read_mantissa, read_lengths, read_window}

-- An iterator that has read a value, and else only moved on in its stream.
pub record Valued (it it' : IterLong) (v l t : ℕ) (rest : List Bool) : Type 0 where
  pub val : it'.val ≡ v
  pub leading : it'.leading ≡ l
  pub trailing : it'.trailing ≡ t
  pub t_lem : it'.t ≡ it.t
  pub t_delta : it'.t_delta ≡ it.t_delta
  pub t0 : it'.t0 ≡ it.t0
  pub err : it'.err ≡ it.err
  pub finished : it'.finished ≡ it.finished
  pub valid : IsValid it'.br
  pub bits_lem : content it'.br ≡ rest

-- The significant bits `x / 2 ^ t` of a word `x` in its window.
pub read_mantissa-Valued :
    (it : IterLong) (x l t : ℕ) (rest : List Bool)
    → IsValid it.br
    → it.leading ≡ l
    → it.trailing ≡ t
    → x < 2 ^ 64
    → Window x l t
    → content it.br ≡ bits_of (64 - l - t) (x / 2 ^ t) ++ rest
    → (it' : IterLong) × (read_mantissa it ≡ some (it', true))
      × Valued it it' (bit_xor it.val x) l t rest
unfolding read_mantissa Yields
read_mantissa-Valued it x l t rest v hl ht hx w e =
    let n = 64 - l - t in
    let q : (64 + 2 * 256 - it.leading - it.trailing) % 256 ≡ n = omega (arith, hl, ht, w.inside) in
    let (b, run, bits, ok_b) = read_bits-Yields it.br n (x / 2 ^ t) rest v (omega arith) e in
    let m : x / 2 ^ t % 2 ^ n ≡ x / 2 ^ t = mod-eq_of_lt w.fits in
    let back : x / 2 ^ t % 2 ^ n * 2 ^ it.trailing % 2 ^ 64 ≡ x =
      ap₂ (λ a c. a * 2 ^ c % 2 ^ 64) m ht ∙ ap (λ a. a % 2 ^ 64) w.exact ∙ mod-eq_of_lt hx in
    (
      record it { br = b; val = bit_xor it.val (x / 2 ^ t % 2 ^ n * 2 ^ it.trailing % 2 ^ 64) },
      rw (ap (read_bits it.br) q ∙ run, read_mantissa) refl,
      record {
        val = ap (bit_xor it.val) back;
        leading = hl;
        trailing = ht;
        t_lem = refl;
        t_delta = refl;
        t0 = refl;
        err = refl;
        finished = refl;
        valid = ok_b;
        bits_lem = bits;
      },
    )

read_lengths-Yields :
    (b : Breader) (l n : ℕ) (rest : List Bool)
    → IsValid b
    → l < 2 ^ 5
    → content b ≡ bits_of 5 l ++ (bits_of 6 n ++ rest)
    → (b' : Breader) × (read_lengths b ≡ ok (l, n % 2 ^ 6, b')) × (content b' ≡ rest) × IsValid b'
unfolding read_lengths Yields
read_lengths-Yields b l n rest v hl e =
    let (c, run, bits, vc) = read_bits-Yields b 5 l (bits_of 6 n ++ rest) v (omega arith) e in
    let (d, run', bits', vd) = read_bits-Yields c 6 n rest vc (omega arith) bits in
    (d, rw (run, ◌>>=◌, run', mod-eq_of_lt hl) refl, bits', vd)

-- Six bits tell the number of significant bits, where none stands for 64.
six_bits : (n : ℕ) → 0 < n → n ≤ 64 → (if n % 2 ^ 6 == 0 then 64 else n % 2 ^ 6) ≡ n
six_bits n pos le = elim (Bool-cases (n % 2 ^ 6 == 0)) [
  | inl e ↦ let z : n % 2 ^ 6 ≡ 0 = ground arith in rw e (omega (arith, z))
  | inr e ↦ let z : n % 2 ^ 6 ≢ 0 = ground arith in rw e (omega (arith, z))
]

pub read_window-Valued :
    (it : IterLong) (x l t : ℕ) (rest : List Bool)
    → IsValid it.br
    → x < 2 ^ 64
    → l < 2 ^ 5
    → Window x l t
    → content it.br
      ≡ bits_of 5 l ++ (bits_of 6 (64 - l - t) ++ (bits_of (64 - l - t) (x / 2 ^ t) ++ rest))
    → (it' : IterLong) × (read_window it ≡ some (it', true))
      × Valued it it' (bit_xor it.val x) l t rest
unfolding read_window
read_window-Valued it x l t rest v hx hl w e =
    let n = 64 - l - t in
    let (b, run, bits, vb) = read_lengths-Yields it.br l n _ v hl e in
    let sig = if n % 2 ^ 6 == 0 then 64 else n % 2 ^ 6 in
    let s : sig ≡ n = six_bits n (omega (arith, w.inside)) (omega arith) in
    let q : (64 + 256 - l - sig) % 256 ≡ t = omega (arith, s, w.inside) in
    let mid : IterLong = record it { br = b; leading = l; trailing = (64 + 256 - l - sig) % 256 } in
    let (it', run', val) = read_mantissa-Valued mid x l t rest vb refl q hx w bits in
    (
      it',
      rw (run, read_window) run',
      record {
        val = val.val;
        leading = val.leading;
        trailing = val.trailing;
        t_lem = val.t_lem;
        t_delta = val.t_delta;
        t0 = val.t0;
        err = val.err;
        finished = val.finished;
        valid = val.valid;
        bits_lem = val.bits_lem;
      },
    )
