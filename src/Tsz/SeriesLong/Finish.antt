-- ===== src/Tsz/SeriesLong/Finish.antt =====
-- `SeriesLong.Finish` and the marker at the end of the stream.
use metrictank.Common.{◌+◌, ◌*◌, ◌^◌, ◌≡◌, refl, true, false, arith, Bool-cases, inl, inr}
use metrictank.Tsz.Bstream.Value.{IsValid, value}
use metrictank.Tsz.Bstream.Write.{write_bits-Writes}
use metrictank.Tsz.SeriesLong.{SeriesLong, finish_series, finish_v2}
use metrictank.Tsz.SeriesLong.Append.{Appends, Appends-weaken, bits-Appends}

-- `Finish` of a series with a valid stream leaves it finished, with at most five bits appended: those
-- of the end-of-stream marker where it was not finished yet. A second call changes nothing.
finish-Appends :
    (s : SeriesLong)
    → IsValid s.bw
    → Appends s.bw (finish_series s).bw 0 5
      × ((finish_series s).finished ≡ true)
      × (finish_series (finish_series s) ≡ finish_series s)
      × (s.finished ≡ false → value (finish_series s).bw ≡ value s.bw * 2 ^ 5 + 0x1f)
unfolding finish_series finish_v2
finish-Appends s ok = elim (Bool-cases s.finished) [
  | inl e ↦ rw e (none_added, refl, refl, λ h. cc)
  | inr e ↦ rw e (
    Appends-weaken (omega arith) (omega arith) (bits-Appends s.bw 0x1f 5 ok (omega arith)),
    refl,
    refl,
    λ h. (write_bits-Writes s.bw 0x1f 5 ok (omega arith)).value_lem,
  )
]
  where
    none_added : Appends s.bw s.bw 0 5
    none_added = record {
      valid = ok;
      bits = 0;
      at_least = omega arith;
      at_most = omega arith;
      kept = omega arith;
      size_lem = omega arith;
    }
