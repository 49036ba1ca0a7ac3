-- ===== src/Tsz/IterLong.antt =====
-- mdata/chunk/tsz/tszlong.go, the reading half: `IterLong`.
-- A read that fails leaves the iterator's stream and window where they were before the read: from
-- there the next read fails in the same way, and a set error ends every later `Next`. `none` is a panic, a read of several bits of an empty stream.
pub mod Code
pub mod Dod
pub mod Window
pub mod Values
pub mod Point
pub mod Start
pub mod RoundTrip
use Prim.Native.Nat.{bit_xor}
use metrictank.Common.{
  ℕ, zero, suc, ◌+◌, ◌-◌, ◌*◌, ◌/◌, ◌%◌, ◌^◌, Bool, true, false, ◌||◌, List, [], ◌∷◌, Option, none,
  some, ltb, ◌==◌, if◌then◌else◌, reverse,
}
use metrictank.Common.Words.{add32}
use metrictank.Tsz.SeriesLong.{SeriesLong, finish_v2}
use metrictank.Tsz.Breader.{Breader, Read, ok, eof, panic, ◌>>=◌, new_breader, read_bit, read_bits}

-- `IterLong`; `val` is a bit pattern, and `err` tells whether an error is set.
pub record IterLong : Type 0 where
  pub t0 : ℕ
  pub t : ℕ
  pub val : ℕ
  pub br : Breader
  pub leading : ℕ
  pub trailing : ℕ
  pub finished : Bool
  pub t_delta : ℕ
  pub err : Bool

-- `bstreamIteratorLong` and `NewIteratorLong`.
unfoldable pub iterator : ℕ → Breader → IterLong
iterator t0 br = record {
  t0 = t0;
  t = 0;
  val = 0;
  br = record br { count = 8 };
  leading = 0;
  trailing = 0;
  finished = false;
  t_delta = 60;
  err = false;
}

unfoldable pub new_iterator_long : ℕ → List ℕ → IterLong
unfolding iterator new_breader
new_iterator_long t0 b = iterator t0 (new_breader b)

-- `Iter` of `SeriesLong`: a copy of the stream with the end-of-stream marker behind it.
unfoldable pub series_iter : SeriesLong → IterLong
unfolding iterator finish_v2
series_iter s =
    let w = finish_v2 s.bw in iterator s.t0 (record { stream = reverse w.stream; count = w.count })

-- The loop of `dod` over the prefix, of at most `n` rounds.
unfoldable pub read_prefix : ℕ → ℕ → Breader → Read (ℕ × Breader)
read_prefix zero d b = ok (d, b)
read_prefix (suc n) d b = read_bit b >>= λ r.
    let rest = read_prefix n (d * 2 + 1) r.1 in if r.0 then rest else ok (d * 2, r.1)

-- `int32(bits)` of `sz` bits, where more than half of the range is negative.
unfoldable pub narrow : ℕ → ℕ → ℕ
narrow sz bits =
    (if ltb (2 ^ (sz - 1)) bits then (bits + 2 ^ 64 - 2 ^ sz) % 2 ^ 64 else bits) % 2 ^ 32

unfoldable pub read_sized : ℕ → Breader → Read (Option ℕ × Breader)
unfolding narrow
read_sized sz b = read_bits b sz >>= λ r. ok (some (narrow sz r.0), r.1)

-- The switch of `dod`; no delta is the end of the stream.
unfoldable pub dod_by : ℕ → Breader → Read (Option ℕ × Breader)
unfolding read_sized
dod_by d b =
    if d == 0
    then ok (some 0, b)
    else if d == 0x02
    then read_sized 7 b
    else if d == 0x06
    then read_sized 9 b
    else if d == 0x0e
    then read_sized 12 b
    else if d == 0x1e
    then (read_bits b 32 >>= λ r. ok (some (r.0 % 2 ^ 32), r.1))
    else if d == 0x1f
    then ok (none, b)
    else ok (some 0, b)

-- `dod`.
unfoldable pub read_dod : Breader → Read (Option ℕ × Breader)
unfolding read_prefix dod_by
read_dod b = read_prefix 5 0 b >>= λ r. dod_by r.0 r.1

-- `it.err = err` and `return false`.
abbrev pub failed : IterLong → Option (IterLong × Bool)
failed it = some (record it { err = true }, false)

-- The significant bits of a value that has changed.
unfoldable pub read_mantissa : IterLong → Option (IterLong × Bool)
read_mantissa it = elim (read_bits it.br ((64 + 2 * 256 - it.leading - it.trailing) % 256)) [
  | panic ↦ none
  | eof ↦ failed it
  | ok (bits, br) ↦
      some (record it { br = br; val = bit_xor it.val (bits * 2 ^ it.trailing % 2 ^ 64) }, true)
]

-- The number of leading zeros, and that of significant bits.
unfoldable pub read_lengths : Breader → Read (ℕ × ℕ × Breader)
read_lengths b = read_bits b 5 >>= λ l. read_bits l.1 6 >>= λ m. ok (l.0, m.0, m.1)

-- A new window for the significant bits.
unfoldable pub read_window : IterLong → Option (IterLong × Bool)
unfolding read_mantissa read_lengths
read_window it = elim (read_lengths it.br) [
  | panic ↦ none
  | eof ↦ failed it
  | ok (leading, mbits, br) ↦
      let sigbits = if mbits == 0 then 64 else mbits in
      read_mantissa
        (record it { br = br; leading = leading; trailing = (64 + 256 - leading - sigbits) % 256 })
]

-- A value that has changed. Where the bit cannot be read, the source assigns a nil error.
unfoldable pub read_changed : IterLong → Option (IterLong × Bool)
unfolding read_window
read_changed it = elim (read_bit it.br) [
  | panic ↦ none
  | eof ↦ some (it, false)
  | ok (false, br) ↦ read_mantissa (record it { br = br })
  | ok (true, br) ↦ read_window (record it { br = br })
]

-- The value of a point that is not the first, and of the first one.
unfoldable pub read_value : IterLong → Option (IterLong × Bool)
unfolding read_changed
read_value it = elim (read_bit it.br) [
  | panic ↦ none
  | eof ↦ failed it
  | ok (false, br) ↦ some (record it { br = br }, true)
  | ok (true, br) ↦ read_changed (record it { br = br })
]

unfoldable pub read_first : IterLong → Option (IterLong × Bool)
read_first it = elim (read_bits it.br 64) [
  | panic ↦ none
  | eof ↦ failed it
  | ok (v, br) ↦ some (record it { br = br; val = v }, true)
]

-- `Next` behind its first test, for the point that comes first or not.
unfoldable pub read_point : Bool → IterLong → Option (IterLong × Bool)
unfolding read_dod read_value read_first
read_point first it = elim (read_dod it.br) [
  | panic ↦ none
  | eof ↦ failed it
  | ok (none, br) ↦ some (record it { br = br; finished = true }, false)
  | ok (some dod, br) ↦
      let t_delta = add32 it.t_delta dod in
      let it' = record it { br = br; t_delta = t_delta; t = add32 it.t t_delta } in
      if first then read_first it' else read_value it'
]

-- `Next`.
unfoldable pub next : IterLong → Option (IterLong × Bool)
unfolding read_point
next it =
    if it.err || it.finished
    then some (it, false)
    else read_point (it.t == 0) (if it.t == 0 then record it { t = it.t0 } else it)

-- `Values` and `Err`.
abbrev pub values : IterLong → ℕ × ℕ
values it = (it.t, it.val)

-- A point in front of those that are read behind it.
abbrev pub behind_point :
    ℕ × ℕ → Option (List (ℕ × ℕ) × IterLong) → Option (List (ℕ × ℕ) × IterLong)
behind_point p none = none
behind_point p (some (ps, it)) = some (p ∷ ps, it)

-- The loop `for it.Next()` over `Values`, of at most `n` rounds: the points and the iterator behind
-- them; `none` where it panics or does not end.
unfoldable pub read_points : ℕ → IterLong → Option (List (ℕ × ℕ) × IterLong)
unfolding next
read_points zero it = none
read_points (suc n) it = elim (next it) [
  | none ↦ none
  | some (it', false) ↦ some ([], it')
  | some (it', true) ↦ behind_point (values it') (read_points n it')
]
