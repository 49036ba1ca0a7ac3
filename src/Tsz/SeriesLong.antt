-- ===== src/Tsz/SeriesLong.antt =====
-- mdata/chunk/tsz/tszlong.go, the writing half of `SeriesLong`, with `finishV2` of finish.go.
pub mod Append
pub mod Finish
pub mod Zeros
use Prim.Native.Nat.{bit_xor}
use metrictank.Common.{
  ℕ, zero, suc, ◌+◌, ◌-◌, ◌*◌, ◌/◌, ◌%◌, ◌^◌, Bool, true, false, ◌&&◌, ◌||◌, not, List, ltb, leb,
  ◌==◌, if◌then◌else◌, reverse,
}
use metrictank.Common.Words.{sub32, u32_mod}
use metrictank.Tsz.Bstream.{Bstream, empty, write_bit, write_bits}

-- `SeriesLong`; `val` is the bit pattern of the last value.
pub record SeriesLong : Type 0 where
  pub t0 : ℕ
  pub t : ℕ
  pub val : ℕ
  pub bw : Bstream
  pub leading : ℕ
  pub trailing : ℕ
  pub finished : Bool
  pub t_delta : ℕ

-- `NewSeriesLong`.
unfoldable pub new_series : ℕ → SeriesLong
new_series t0 = record {
  t0 = t0;
  t = 0;
  val = 0;
  bw = empty;
  leading = 255;
  trailing = 0;
  finished = false;
  t_delta = 60;
}

-- `Bytes`, first byte first.
unfoldable pub series_bytes : SeriesLong → List ℕ
series_bytes s = reverse s.bw.stream

-- `finishV2`.
unfoldable pub finish_v2 : Bstream → Bstream
finish_v2 w = write_bits w 0x1f 5

-- `Finish`.
unfoldable pub finish_series : SeriesLong → SeriesLong
unfolding finish_v2
finish_series s = if not s.finished then record s { bw = finish_v2 s.bw; finished = true } else s

-- `-lo <= dod && dod <= hi`, for an int32 given by its bit pattern.
abbrev pub in_range : ℕ → ℕ → ℕ → Bool
in_range lo hi dod = leb dod hi || leb (u32_mod - lo) dod

-- `uint64(dod)`, which extends the sign.
abbrev pub sign_extend : ℕ → ℕ
sign_extend dod = if ltb dod (2 ^ 31) then dod else dod + 2 ^ 64 - 2 ^ 32

-- The switch on the delta of deltas.
unfoldable pub write_dod : Bstream → ℕ → Bstream
write_dod bw dod =
    if dod == 0
    then write_bit bw false
    else if in_range 63 64 dod
    then write_bits (write_bits bw 0x02 2) (sign_extend dod) 7
    else if in_range 255 256 dod
    then write_bits (write_bits bw 0x06 3) (sign_extend dod) 9
    else if in_range 2047 2048 dod
    then write_bits (write_bits bw 0x0e 4) (sign_extend dod) 12
    else write_bits (write_bits bw 0x1e 5) (sign_extend dod) 32

-- `bits.LeadingZeros64` and `bits.TrailingZeros64`.
unfoldable pub bit_len : ℕ → ℕ → ℕ
bit_len zero x = 0
bit_len (suc n) x = let rest = bit_len n (x / 2) in if x == 0 then 0 else suc rest

unfoldable pub leading_zeros : ℕ → ℕ
unfolding bit_len
leading_zeros x = 64 - bit_len 64 x

unfoldable pub zeros_below : ℕ → ℕ → ℕ
zeros_below zero x = 0
zeros_below (suc n) x = let rest = zeros_below n (x / 2) in if x % 2 == 1 then 0 else suc rest

unfoldable pub trailing_zeros : ℕ → ℕ
unfolding zeros_below
trailing_zeros x = zeros_below 64 x

-- The number of leading zeros, clamped so that it fits five bits.
unfoldable pub clamped_leading : ℕ → ℕ
unfolding leading_zeros
clamped_leading x = if leb 32 (leading_zeros x) then 31 else leading_zeros x

-- The value part of `Push`, for a value that is not the first.
unfoldable pub write_value : SeriesLong → Bstream → ℕ → SeriesLong
unfolding clamped_leading trailing_zeros
write_value s bw v =
    let v_delta = bit_xor v s.val in
    let leading = clamped_leading v_delta in
    let trailing = trailing_zeros v_delta in
    let sigbits = 64 - leading - trailing in
    if v_delta == 0
    then record s { bw = write_bit bw false; val = v }
    else if not (s.leading == 255) && leb s.leading leading && leb s.trailing trailing
    then record s {
      bw =
          write_bits (write_bit (write_bit bw true) false) (v_delta / 2 ^ s.trailing)
            (64 - s.leading - s.trailing);
      val = v;
    }
    else record s {
      bw =
          write_bits
            (write_bits (write_bits (write_bit (write_bit bw true) true) leading 5) sigbits 6)
            (v_delta / 2 ^ trailing) sigbits;
      leading = leading;
      trailing = trailing;
      val = v;
    }

-- `Push`.
unfoldable pub push : SeriesLong → ℕ → ℕ → SeriesLong
unfolding write_dod write_value
push s t v =
    let first = s.t == 0 in
    let t_delta = if first then sub32 t s.t0 else sub32 t s.t in
    let bw = write_dod s.bw (sub32 t_delta s.t_delta) in
    let s' = record s { t_delta = t_delta; t = t } in
    if first then record s' { bw = write_bits bw v 64; val = v } else write_value s' bw v
