-- ===== src/Tsz/IterLong/Point.antt =====
-- `Next` reads the point that `Push` writes.
use Prim.Native.Nat.{bit_xor}
use native.Mathlib.Nat.{mod-eq_of_lt}
use metrictank.Common.{
  ℕ, ◌%◌, ◌^◌, ◌<◌, ◌≡◌, refl, sym, ap, ap₂, ◌∙◌, Bool, true, false, List, ◌||◌, ◌++◌, ◌==◌,
  if◌then◌else◌, arith, none, some, append_assoc, if-elim,
}
use metrictank.Common.Words.{add32, sub32}
use metrictank.Tsz.Bits.{bits_of}
use metrictank.Tsz.Bstream.{Bstream, write_bits}
use metrictank.Tsz.SeriesLong.{SeriesLong, push, write_value, write_dod}
use metrictank.Tsz.Breader.{Breader, ok, read_bits}
use metrictank.Tsz.Breader.Content.{content, IsValid}
use metrictank.Tsz.Breader.Yields.{Yields, read_bits-Yields}
use metrictank.Tsz.IterLong.{IterLong, read_first, read_value, read_point, next, read_dod}
use metrictank.Tsz.IterLong.Code.{dod_code, value_code, push_code}
use metrictank.Tsz.IterLong.Dod.{read_dod-Yields, read_marker-Yields}
use metrictank.Tsz.IterLong.Values.{SameWindow, read_value-ReadsValue}

-- An iterator that has read all that a series has written.
pub record Tracks (it : IterLong) (s : SeriesLong) : Type 0 where
  pub t_lem : it.t ≡ s.t
  pub t0 : it.t0 ≡ s.t0
  pub t_delta : it.t_delta ≡ s.t_delta
  pub val : it.val ≡ s.val
  pub window : SameWindow it s
  pub err : it.err ≡ false
  pub finished : it.finished ≡ false
  pub valid : IsValid it.br
  pub t_lt : s.t < 2 ^ 32
  pub t0_lt : s.t0 < 2 ^ 32
  pub t_delta_lt : s.t_delta < 2 ^ 32
  pub val_lt : s.val < 2 ^ 64

-- `Next` yields a point and keeps track of the series.
abbrev pub Reads : IterLong → SeriesLong → List Bool → Type 0
Reads it s' rest =
    (it' : IterLong) × (next it ≡ some (it', true)) × Tracks it' s' × (content it'.br ≡ rest)

add-sub : (a b : ℕ) → a < 2 ^ 32 → b < 2 ^ 32 → add32 a (sub32 b a) ≡ b
add-sub a b ha hb = omega arith

sub_lt : (a b : ℕ) → sub32 a b < 2 ^ 32
sub_lt a b = omega arith

Kept : SeriesLong → ℕ → SeriesLong → Type 0
Kept s v s' = (s'.t ≡ s.t) × (s'.t0 ≡ s.t0) × (s'.t_delta ≡ s.t_delta) × (s'.val ≡ v)

write_value-Kept : (s : SeriesLong) (bw : Bstream) (v : ℕ) → Kept s v (write_value s bw v)
unfolding write_value Kept
write_value-Kept s bw v =
    if-elim (Kept s v) (bit_xor v s.val == 0) (refl, refl, refl, refl)
      (if-elim (Kept s v) _ (refl, refl, refl, refl) (refl, refl, refl, refl))

-- `Next` of an iterator that has met neither an error nor the end.
next-goes :
    (it : IterLong) (first : Bool)
    → it.err ≡ false
    → it.finished ≡ false
    → it.t == 0 ≡ first
    → next it ≡ read_point first (if first then record it { t = it.t0 } else it)
unfolding next
next-goes it first err fin z =
    ap₂
      (λ (e f : Bool).
        if e || f
        then some (it, false)
        else read_point (it.t == 0) (if it.t == 0 then record it { t = it.t0 } else it))
      err fin
    ∙ ap (λ c. read_point c (if c then record it { t = it.t0 } else it)) z

abbrev moved : IterLong → ℕ → Breader → IterLong
moved it dod br = record it {
  br = br;
  t_delta = add32 it.t_delta dod;
  t = add32 it.t (add32 it.t_delta dod);
}

read_point-goes :
    (first : Bool) (it : IterLong) (dod : ℕ) (br : Breader)
    → read_dod it.br ≡ ok (some dod, br)
    → read_point first it
      ≡ (if first then read_first (moved it dod br) else read_value (moved it dod br))
unfolding read_point
read_point-goes first it dod br run = rw (run, read_point) refl

read_point-ends :
    (first : Bool) (it : IterLong) (br : Breader)
    → read_dod it.br ≡ ok (none, br)
    → read_point first it ≡ some (record it { br = br; finished = true }, false)
unfolding read_point
read_point-ends first it br run = rw (run, read_point) refl

read_first-goes :
    (it : IterLong) (v : ℕ) (br : Breader)
    → read_bits it.br 64 ≡ ok (v, br)
    → read_first it ≡ some (record it { br = br; val = v }, true)
unfolding read_first
read_first-goes it v br run = rw (run, read_first) refl

module _ (it : IterLong) (s : SeriesLong) (t v : ℕ) (rest : List Bool) (tr : Tracks it s)
    (ht : t < 2 ^ 32) (hv : v < 2 ^ 64) where
  -- The timestamp, from the `base` that the iterator and the series go by.
  timestamp :
      (base : ℕ) (mid : List Bool)
      → base < 2 ^ 32
      → content it.br ≡ dod_code (sub32 (sub32 t base) s.t_delta) ++ mid
      → Yields (read_dod it.br) (some (sub32 (sub32 t base) s.t_delta)) mid
  timestamp base mid hb e = read_dod-Yields it.br _ mid tr.valid (sub_lt _ s.t_delta) e

  first-Reads :
      s.t == 0 ≡ true
      → content it.br ≡ dod_code (sub32 (sub32 t s.t0) s.t_delta) ++ (bits_of 64 v ++ rest)
      → Reads it
          (record s {
            t_delta = sub32 t s.t0;
            t = t;
            bw = write_bits (write_dod s.bw (sub32 (sub32 t s.t0) s.t_delta)) v 64;
            val = v;
          })
          rest
  unfolding Yields
  first-Reads z e =
      let dod = sub32 (sub32 t s.t0) s.t_delta in
      let (b, run, bits, vb) = timestamp s.t0 (bits_of 64 v ++ rest) tr.t0_lt e in
      let (c, run_c, bits_c, vc) = read_bits-Yields b 64 v rest vb (omega arith) bits in
      let delta : add32 it.t_delta dod ≡ sub32 t s.t0 =
        ap (λ k. add32 k dod) tr.t_delta
        ∙ add-sub s.t_delta (sub32 t s.t0) tr.t_delta_lt (sub_lt t s.t0) in
      let z' : it.t == 0 ≡ true = ap (λ k. k == 0) tr.t_lem ∙ z in
      (
        record it {
          br = c;
          t_delta = add32 it.t_delta dod;
          t = add32 it.t0 (add32 it.t_delta dod);
          val = v % 2 ^ 64;
        },
        next-goes it true tr.err tr.finished z'
            ∙ read_point-goes true (record it { t = it.t0 }) dod b run
            ∙ read_first-goes (moved (record it { t = it.t0 }) dod b) (v % 2 ^ 64) c run_c,
        record {
          t_lem = ap₂ add32 tr.t0 delta ∙ add-sub s.t0 t tr.t0_lt ht;
          t0 = tr.t0;
          t_delta = delta;
          val = mod-eq_of_lt hv;
          window = tr.window;
          err = tr.err;
          finished = tr.finished;
          valid = vc;
          t_lt = ht;
          t0_lt = tr.t0_lt;
          t_delta_lt = sub_lt t s.t0;
          val_lt = hv;
        },
        bits_c,
      )

  later-Reads :
      s.t == 0 ≡ false
      → content it.br ≡ dod_code (sub32 (sub32 t s.t) s.t_delta) ++ (value_code s v ++ rest)
      → Reads it
          (write_value
            (record s { t_delta = sub32 t s.t; t = t })
            (write_dod s.bw (sub32 (sub32 t s.t) s.t_delta))
            v)
          rest
  unfolding Yields Kept
  later-Reads z e =
      let dod = sub32 (sub32 t s.t) s.t_delta in
      let (b, run, bits, vb) = timestamp s.t (value_code s v ++ rest) tr.t_lt e in
      let delta : add32 it.t_delta dod ≡ sub32 t s.t =
        ap (λ k. add32 k dod) tr.t_delta
        ∙ add-sub s.t_delta (sub32 t s.t) tr.t_delta_lt (sub_lt t s.t) in
      let z' : it.t == 0 ≡ false = ap (λ k. k == 0) tr.t_lem ∙ z in
      let s' : SeriesLong = record s { t_delta = sub32 t s.t; t = t } in
      let bw = write_dod s.bw dod in
      let mid = moved it dod b in
      let (it', run', a) =
        read_value-ReadsValue mid s' bw v rest vb tr.val tr.window hv tr.val_lt bits in
      let (kt, k0, kd, kv) = write_value-Kept s' bw v in
      (
        it',
        next-goes it false tr.err tr.finished z' ∙ read_point-goes false it dod b run ∙ run',
        record {
          t_lem = a.t_lem ∙ ap₂ add32 tr.t_lem delta ∙ add-sub s.t t tr.t_lt ht ∙ sym kt;
          t0 = a.t0 ∙ tr.t0 ∙ sym k0;
          t_delta = a.t_delta ∙ delta ∙ sym kd;
          val = a.val;
          window = a.window;
          err = a.err ∙ tr.err;
          finished = a.finished ∙ tr.finished;
          valid = a.valid;
          t_lt = omega (arith, kt, ht);
          t0_lt = omega (arith, k0, tr.t0_lt);
          t_delta_lt = omega (arith, kd, sub_lt t s.t);
          val_lt = omega (arith, kv, hv);
        },
        a.bits_lem,
      )

  -- For an iterator that has read all that a series has written, in front of the code of a point and
  -- others behind it, `Next` reads the point, and has then read all that the series has.
  pub next-Reads : content it.br ≡ push_code s t v ++ rest → Reads it (push s t v) rest
  unfolding push
  next-Reads e = by_first (s.t == 0) refl (e ∙ append_assoc _ _ rest)
    where
      by_first :
          (c : Bool)
          → s.t == 0 ≡ c
          → content it.br
            ≡ dod_code (sub32 (if c then sub32 t s.t0 else sub32 t s.t) s.t_delta)
              ++ ((if c then bits_of 64 v else value_code s v) ++ rest)
          → Reads it
              (let t_delta = if c then sub32 t s.t0 else sub32 t s.t in
                let bw = write_dod s.bw (sub32 t_delta s.t_delta) in
                let s' = record s { t_delta = t_delta; t = t } in
                if c then record s' { bw = write_bits bw v 64; val = v } else write_value s' bw v)
              rest
      by_first true z f = first-Reads z f
      by_first false z f = later-Reads z f

-- At the marker `Next` ends with no error.
pub next-ends :
    (it : IterLong) (s : SeriesLong) (rest : List Bool)
    → Tracks it s
    → content it.br ≡ bits_of 5 0x1f ++ rest
    → (it' : IterLong) × (next it ≡ some (it', false)) × (it'.finished ≡ true) × (it'.err ≡ false)
unfolding Yields
next-ends it s rest tr e =
    let (b, run, bits, vb) = read_marker-Yields it.br rest tr.valid e in
    ended (it.t == 0) refl b run
  where
    ended :
        (c : Bool)
        → it.t == 0 ≡ c
        → (b : Breader) → read_dod it.br ≡ ok (none, b)
        → (it' : IterLong) × (next it ≡ some (it', false))
          × (it'.finished ≡ true)
          × (it'.err ≡ false)
    ended true z b run = (
      record it { t = it.t0; br = b; finished = true },
      next-goes it true tr.err tr.finished z ∙ read_point-ends true (record it { t = it.t0 }) b run,
      refl,
      tr.err,
    )
    ended false z b run = (
      record it { br = b; finished = true },
      next-goes it false tr.err tr.finished z ∙ read_point-ends false it b run,
      refl,
      tr.err,
    )
