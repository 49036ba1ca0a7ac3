-- ===== src/Tests/Iterate.antt =====
-- Streams that are read back, on concrete values.
use metrictank.Common.{ℕ, ◌≡◌, refl, List, [], ◌∷◌, some, arith, All}
use metrictank.Tsz.SeriesLong.{new_series, finish_series, series_bytes}
use metrictank.Tsz.IterLong.{IterLong, new_iterator_long, series_iter}
use metrictank.Tsz.IterLong.RoundTrip.{
  push_all, IsPoint, ReadsAll, series_bytes-read_points, series_iter-read_points,
}
use metrictank.Chunk.{Chunk, new_chunk, finish, encode_chunk}
use metrictank.Mdata.Errors
use metrictank.Chunk.IterGen
use metrictank.Chunk.IterGen.{IterGen, new_iter_gen, get, got, iter_long}
use metrictank.Chunk.Spans.{rev_chunk_spans}
use metrictank.Chunk.RoundTrip.{push_points, encode_chunk-read_points}

-- Points whose values are 1, 1 and 3.5 as floats; the second value is the first one's.
abbrev points : List (ℕ × ℕ)
points = (1210, 0x3ff0000000000000) ∷ (1220, 0x3ff0000000000000) ∷ (1229, 0x400c000000000000) ∷ []

points-IsPoint : All IsPoint points
points-IsPoint =
    ((omega arith, omega arith), ((omega arith, omega arith), ((omega arith, omega arith), tt)))

series_bytes-read_points_example :
    ReadsAll
      (new_iterator_long 1200 (series_bytes (finish_series (push_all (new_series 1200) points))))
      points
series_bytes-read_points_example = series_bytes-read_points 1200 points (omega arith) points-IsPoint

series_iter-read_points_example :
    ReadsAll (series_iter (push_all (new_series 1200) points)) points
    × ReadsAll (series_iter (finish_series (push_all (new_series 1200) points))) points
series_iter-read_points_example = series_iter-read_points 1200 points (omega arith) points-IsPoint

ten_minutes : rev_chunk_spans 600 ≡ some 11
unfolding rev_chunk_spans
ten_minutes = refl

encode_chunk-read_points_example :
    (c : Chunk) × (push_points (new_chunk 1200) points ≡ Errors.ok c)
    × (b : List ℕ) × (encode_chunk (finish c) 600 ≡ some b)
    × (ig : IterGen) × (new_iter_gen 1200 10 b ≡ IterGen.ok ig)
    × (it : IterLong) × (get ig ≡ got (iter_long it))
    × ReadsAll it points
encode_chunk-read_points_example =
    encode_chunk-read_points 1200 600 11 10 points (omega arith) points-IsPoint
      (omega arith, (omega arith, (omega arith, tt))) ten_minutes
