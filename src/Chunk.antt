-- ===== src/Chunk.antt =====
-- mdata/chunk/chunk.go, encode.go, spans.go and itergen.go: chunks of points and their byte format.
pub mod Spans
pub mod IterGen
pub mod Encoding
pub mod RoundTrip
use metrictank.Common.{
  ℕ, suc, ◌+◌, Bool, true, false, List, [], ◌∷◌, Option, none, some, ltb, ◌==◌, if◌then◌else◌,
}
use metrictank.Mdata.Errors.{Result, ok, err, metric_too_old, metric_new_value_for_timestamp}
use metrictank.Tsz.SeriesLong.{SeriesLong, new_series, finish_series, series_bytes}
use metrictank.Tsz.SeriesLong
use metrictank.Common.Words.{add32}
use Spans.{rev_chunk_spans}

-- `Format`, with its code as the first byte of an encoded chunk.
pub data Format : Type 0 where
  standard_go_tsz standard_go_tsz_with_span go_tsz_long_with_span : Format

abbrev pub format_code : Format → ℕ
format_code standard_go_tsz = 0
format_code standard_go_tsz_with_span = 1
format_code go_tsz_long_with_span = 2

-- `encode`; `none` is the panic on a span that has no code.
unfoldable pub encode : ℕ → Format → List ℕ → Option (List ℕ)
encode span standard_go_tsz content = some (format_code standard_go_tsz ∷ content)
encode span format content = elim (rev_chunk_spans span) [
  | none ↦ none
  | some span_code ↦ some (format_code format ∷ span_code ∷ content)
]

-- `Chunk`.
pub record Chunk : Type 0 where
  pub series : SeriesLong
  pub num_points : ℕ
  pub first : Bool

-- `New` and `NewFirst`.
unfoldable pub new_chunk : ℕ → Chunk
new_chunk t0 = record { series = new_series t0; num_points = 0; first = false }

unfoldable pub new_first : ℕ → Chunk
new_first t0 = record { series = new_series t0; num_points = 0; first = true }

-- `Push`. A refused point leaves the chunk as it is.
unfoldable pub push : Chunk → ℕ → ℕ → Result Chunk
push c t v =
    if t == c.series.t
    then err metric_new_value_for_timestamp
    else if ltb t c.series.t
    then err metric_too_old
    else ok (record c { series = SeriesLong.push c.series t v; num_points = add32 c.num_points 1 })

-- `Finish`.
unfoldable pub finish : Chunk → Chunk
finish c = record c { series = finish_series c.series }

-- `Encode`.
unfoldable pub encode_chunk : Chunk → ℕ → Option (List ℕ)
unfolding encode
encode_chunk c span = encode span go_tsz_long_with_span (series_bytes c.series)
