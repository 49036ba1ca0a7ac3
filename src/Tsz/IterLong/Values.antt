-- ===== src/Tsz/IterLong/Values.antt =====
-- The iterator reads the values that the value part of `Push` writes.
use Prim.Native.Nat.{bit_xor}
use metrictank.Common.{
  ℕ, ◌+◌, ◌-◌, ◌/◌, ◌^◌, ◌≤◌, ◌<◌, ◌≡◌, ◌≢◌, refl, sym, ap, ◌∙◌, Bool, true, false, List, ◌∷◌, ◌++◌,
  ◌==◌, if◌then◌else◌, arith, Option, some, append_assoc, leb, not, ◌&&◌,
}
use metrictank.Tsz.Bits.{bits_of}
use metrictank.Tsz.Bstream.{Bstream, write_bit, write_bits}
use metrictank.Tsz.Xor.{bit_xor-cancel, bit_xor-fits, bit_xor-zero}
use metrictank.Tsz.SeriesLong.{SeriesLong, write_value, clamped_leading, trailing_zeros}
use metrictank.Tsz.SeriesLong.Zeros.{Window, clamped_leading-fits, own-Window, wider-Window}
use metrictank.Tsz.Breader.{Breader}
use metrictank.Tsz.Breader.Content.{content, IsValid}
use metrictank.Tsz.Breader.Yields.{Yields, read_bit-Yields}
use metrictank.Tsz.IterLong.{IterLong, read_changed, read_value}
use metrictank.Tsz.IterLong.Code.{value_code, reuses}
use metrictank.Tsz.IterLong.Window.{Valued, read_mantissa-Valued, read_window-Valued}

-- Both have the same window, once the series has one.
abbrev pub SameWindow : IterLong → SeriesLong → Type 0
SameWindow it s =
    s.leading ≢ 255
    → (it.leading ≡ s.leading) × (it.trailing ≡ s.trailing) × (s.leading + s.trailing < 64)

-- What a series writes under a test, and what it is afterwards.
by_write :
    {S : Type 0} (P : S → Type 0) (c : Bool) (xs ys rest out : List Bool) (s s' : S)
    → out ≡ (if c then xs else ys) ++ rest
    → (c ≡ true → out ≡ xs ++ rest → P s)
    → (c ≡ false → out ≡ ys ++ rest → P s')
    → P (if c then s else s')
by_write P true xs ys rest out s s' e yes_case no_case = yes_case refl e
by_write P false xs ys rest out s s' e yes_case no_case = no_case refl e

-- A value is read: the iterator agrees with the series that wrote it.
pub record Agrees (it it' : IterLong) (s' : SeriesLong) (rest : List Bool) : Type 0 where
  pub val : it'.val ≡ s'.val
  pub window : SameWindow it' s'
  pub t_lem : it'.t ≡ it.t
  pub t_delta : it'.t_delta ≡ it.t_delta
  pub t0 : it'.t0 ≡ it.t0
  pub err : it'.err ≡ it.err
  pub finished : it'.finished ≡ it.finished
  pub valid : IsValid it'.br
  pub bits_lem : content it'.br ≡ rest

abbrev pub ReadsValue : Option (IterLong × Bool) → IterLong → List Bool → SeriesLong → Type 0
ReadsValue r it rest s' = (it' : IterLong) × (r ≡ some (it', true)) × Agrees it it' s' rest

Valued-Agrees :
    (it mid it' : IterLong) (v x l t : ℕ) (rest : List Bool) (s' : SeriesLong) (br : Breader)
    → mid ≡ record it { br = br }
    → Valued mid it' x l t rest
    → x ≡ v
    → s'.val ≡ v
    → SameWindow it' s'
    → Agrees it it' s' rest
Valued-Agrees it mid it' v x l t rest s' br m a e f w = record {
  val = a.val ∙ e ∙ sym f;
  window = w;
  t_lem = a.t_lem ∙ ap (λ (i : IterLong). i.t) m;
  t_delta = a.t_delta ∙ ap (λ (i : IterLong). i.t_delta) m;
  t0 = a.t0 ∙ ap (λ (i : IterLong). i.t0) m;
  err = a.err ∙ ap (λ (i : IterLong). i.err) m;
  finished = a.finished ∙ ap (λ (i : IterLong). i.finished) m;
  valid = a.valid;
  bits_lem = a.bits_lem;
}

is_zero : (d : ℕ) → d == 0 ≡ true → d ≡ 0
is_zero d e = ground arith

not_zero : (d : ℕ) → d == 0 ≡ false → d ≢ 0
not_zero d e = ground arith

module _ (it : IterLong) (x l t : ℕ) (s' : SeriesLong) (rest : List Bool) (ok_br : IsValid it.br)
    (hx : x < 2 ^ 64) (w : Window x l t) (back : bit_xor it.val x ≡ s'.val) (hl : s'.leading ≡ l)
    (ht : s'.trailing ≡ t) where
  with_window :
      (mid it' : IterLong) (br : Breader)
      → mid ≡ record it { br = br }
      → Valued mid it' (bit_xor it.val x) l t rest
      → Agrees it it' s' rest
  with_window mid it' br m a =
      Valued-Agrees it mid it' s'.val (bit_xor it.val x) l t rest s' br m a back refl
        (λ h. (a.leading ∙ sym hl, a.trailing ∙ sym ht, omega (arith, w.inside, hl, ht)))

  -- The significant bits in the window of the value before.
  reused-ReadsValue :
      it.leading ≡ l
      → it.trailing ≡ t
      → content it.br ≡ true ∷ false ∷ (bits_of (64 - l - t) (x / 2 ^ t) ++ rest)
      → ReadsValue (read_value it) it rest s'
  unfolding read_value read_changed Yields
  reused-ReadsValue il iu e =
      let (b, run, bits, vb) = read_bit-Yields it.br true _ ok_br e in
      let (c, run_c, bits_c, vc) = read_bit-Yields b false _ vb bits in
      let mid : IterLong = record it { br = c } in
      let (it', run', val) = read_mantissa-Valued mid x l t rest vc il iu hx w bits_c in
      (it', rw (run, read_value, run_c, read_changed) run', with_window mid it' c refl val)

  -- The significant bits in a window of their own.
  windowed-ReadsValue :
      l < 2 ^ 5
      → content it.br
        ≡ true
          ∷ true
          ∷ (bits_of 5 l ++ (bits_of 6 (64 - l - t) ++ (bits_of (64 - l - t) (x / 2 ^ t) ++ rest)))
      → ReadsValue (read_value it) it rest s'
  unfolding read_value read_changed Yields
  windowed-ReadsValue small e =
      let (b, run, bits, vb) = read_bit-Yields it.br true _ ok_br e in
      let (c, run_c, bits_c, vc) = read_bit-Yields b true _ vb bits in
      let mid : IterLong = record it { br = c } in
      let (it', run', val) = read_window-Valued mid x l t rest vc hx small w bits_c in
      (it', rw (run, read_value, run_c, read_changed) run', with_window mid it' c refl val)

-- The tests under which the window is used again.
reuses-holds :
    (s : SeriesLong) (d : ℕ)
    → reuses s d ≡ true
    → (s.leading ≢ 255) × (s.leading ≤ clamped_leading d) × (s.trailing ≤ trailing_zeros d)
reuses-holds s d e = tests s.leading (clamped_leading d) s.trailing (trailing_zeros d) e
  where
    tests :
        (a b c d : ℕ) → not (a == 255) && leb a b && leb c d ≡ true → (a ≢ 255) × (a ≤ b) × (c ≤ d)
    tests a b c d h = ground arith

-- The value behind the timestamp of a point that is not the first.
pub read_value-ReadsValue :
    (it : IterLong) (s : SeriesLong) (bw : Bstream) (v : ℕ) (rest : List Bool)
    → IsValid it.br
    → it.val ≡ s.val
    → SameWindow it s
    → v < 2 ^ 64
    → s.val < 2 ^ 64
    → content it.br ≡ value_code s v ++ rest
    → ReadsValue (read_value it) it rest (write_value s bw v)
unfolding read_value read_changed write_value Yields
read_value-ReadsValue it s bw v rest ok_br hval hw hv hs e =
    let d = bit_xor v s.val in
    let fits = bit_xor-fits 64 v s.val hv hs in
    let back : bit_xor it.val d ≡ v =
      ap (λ k. bit_xor k d) hval ∙ bit_xor-cancel 64 v s.val hv hs in
    by_write (ReadsValue (read_value it) it rest) (d == 0) _ _ rest (content it.br) _ _ e
      (λ z f.
        let (b, run, bits, vb) = read_bit-Yields it.br false rest ok_br f in
        let n : d ≡ 0 = is_zero d z in
        (
          record it { br = b },
          rw (run, read_value) refl,
          record {
            val = hval ∙ sym (bit_xor-zero 64 v s.val hv hs n);
            window = hw;
            t_lem = refl;
            t_delta = refl;
            t0 = refl;
            err = refl;
            finished = refl;
            valid = vb;
            bits_lem = bits;
          },
        ))
      (λ z f.
        by_write (ReadsValue (read_value it) it rest) (reuses s d) _ _ rest (content it.br) _ _ f
          (λ r g.
            let (has, le, le') = reuses-holds s d r in
            let (il, iu, inside) = hw has in
            reused-ReadsValue it d s.leading s.trailing
              (record s {
                bw =
                    write_bits (write_bit (write_bit bw true) false) (d / 2 ^ s.trailing)
                      (64 - s.leading - s.trailing);
                val = v;
              })
              rest ok_br fits (wider-Window d s.leading s.trailing (not_zero d z) fits le le') back
              refl refl il iu g)
          (λ r g.
            let l = clamped_leading d in
            let t = trailing_zeros d in
            windowed-ReadsValue it d l t _ rest ok_br fits (own-Window d (not_zero d z) fits) back
              refl refl (omega (arith, (clamped_leading-fits d fits).0))
              (g ∙ flat l (64 - l - t) (d / 2 ^ t))))
  where
    flat :
        (l n y : ℕ)
        → (true ∷ true ∷ (bits_of 5 l ++ (bits_of 6 n ++ bits_of n y))) ++ rest
          ≡ true ∷ true ∷ (bits_of 5 l ++ (bits_of 6 n ++ (bits_of n y ++ rest)))
    flat l n y =
        ap (λ bs. true ∷ true ∷ bs)
          (append_assoc (bits_of 5 l) (bits_of 6 n ++ bits_of n y) rest
            ∙ ap (λ bs. bits_of 5 l ++ bs) (append_assoc (bits_of 6 n) (bits_of n y) rest))
