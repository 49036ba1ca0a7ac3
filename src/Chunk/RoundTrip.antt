-- ===== src/Chunk/RoundTrip.antt =====
-- The points of a chunk, read back from its encoding (mdata/chunk/chunk.go, encode.go, itergen.go).
use metrictank.Common.{
  ℕ, ◌^◌, ◌<◌, ◌≡◌, ◌≢◌, refl, sym, ap, ◌∙◌, List, [], ◌∷◌, some, length, arith, All, false, ◌==◌,
  ltb, subst, leb,
}
use metrictank.Common.Words.{add32}
use metrictank.Mdata.Errors.{Result, ok, err}
use metrictank.Tsz.SeriesLong.{SeriesLong, new_series, finish_series, series_bytes}
use metrictank.Tsz.SeriesLong
use metrictank.Tsz.SeriesLong.Append.{push-Appends}
use metrictank.Tsz.Bstream.Value.{IsValid}
use metrictank.Tsz.IterLong.{IterLong, new_iterator_long}
use metrictank.Tsz.IterLong.RoundTrip.{
  push_all, IsPoint, ReadsAll, series_bytes-read_points, series_bytes-some,
}
use metrictank.Chunk.{Chunk, go_tsz_long_with_span, encode, encode_chunk, new_chunk, push, finish}
use metrictank.Chunk.Spans.{rev_chunk_spans, chunk_spans}
use metrictank.Chunk.Encoding.{rev_chunk_spans-get}
use metrictank.Chunk.IterGen.{IterGen, new_iter_gen, get, got, iter_long}
use metrictank.Chunk.IterGen

-- Points pushed one behind the other, up to the first that is refused.
abbrev pub push_points : Chunk → List (ℕ × ℕ) → Result Chunk
push_points c [] = ok c
push_points c ((t, v) ∷ ps) = elim (push c t v) [ err e ↦ err e | ok c' ↦ push_points c' ps ]

-- Timestamps that increase, from above `last`.
abbrev pub Increasing : ℕ → List (ℕ × ℕ) → Type 0
Increasing last [] = Unit
Increasing last ((t, v) ∷ ps) = (last < t) × Increasing t ps

push-accepts :
    (c : Chunk) (t v : ℕ)
    → c.series.t < t
    → (c' : Chunk) × (push c t v ≡ ok c') × (c'.series ≡ SeriesLong.push c.series t v)
unfolding push
push-accepts c t v h =
    let ne : t == c.series.t ≡ false = ground arith in
    let nl : ltb t c.series.t ≡ false = ground arith in
    (
      record c { series = SeriesLong.push c.series t v; num_points = add32 c.num_points 1 },
      rw (push, ne, nl) refl,
      refl,
    )

push_points-accepts :
    (c : Chunk) (s : SeriesLong) (ps : List (ℕ × ℕ))
    → c.series ≡ s
    → IsValid s.bw
    → Increasing s.t ps
    → (c' : Chunk) × (push_points c ps ≡ ok c') × (c'.series ≡ push_all s ps)
push_points-accepts c s [] e v h = (c, refl, e)
push_points-accepts c s ((t, x) ∷ ps) e v h =
    let (c', run, e') = push-accepts c t x (subst (λ (s : SeriesLong). s.t < t) (sym e) h.0) in
    let (a, et, ev, e0, ef) = push-Appends s t x v in
    let (d, runs, f) =
      push_points-accepts c' (SeriesLong.push s t x) ps
        (e' ∙ ap (λ (s : SeriesLong). SeriesLong.push s t x) e) a.valid
        (subst (λ k. Increasing k ps) (sym et) h.1) in
    (d, rw (run, push_points) runs, f)

-- What is read of an encoded chunk.
encoded-ReadsAll :
    (t0 span code hint : ℕ) (content : List ℕ) (ps : List (ℕ × ℕ))
    → content ≢ []
    → ReadsAll (new_iterator_long t0 content) ps
    → rev_chunk_spans span ≡ some code
    → (b : List ℕ) × (encode span go_tsz_long_with_span content ≡ some b)
      × (ig : IterGen) × (new_iter_gen t0 hint b ≡ IterGen.ok ig)
      × (it : IterLong) × (get ig ≡ got (iter_long it))
      × ReadsAll it ps
unfolding encode new_iter_gen get
encoded-ReadsAll t0 span code hint [] ps ne reads found = absurd (ne refl)
encoded-ReadsAll t0 span code hint (x ∷ xs) ps ne reads found =
    let b = 2 ∷ code ∷ x ∷ xs in
    let ig : IterGen = record { t0 = t0; interval_hint = hint; b = b } in
    let long : leb (length b) 2 ≡ false = ground arith in
    let known : leb (length chunk_spans) code ≡ false =
      ground (arith, (rev_chunk_spans-get span {code = code} found).0) in
    (
      b,
      rw (encode, found) refl,
      ig,
      rw (new_iter_gen, long, known) refl,
      new_iterator_long t0 (x ∷ xs),
      refl,
      reads,
    )

-- For a start below 2^32, points with increasing timestamps between 1 and 2^32 - 1 and values that
-- are bits of a 64-bit float, and a span that has a code: a fresh chunk accepts all the points; once
-- finished it is encoded; `NewIterGen` accepts the bytes, and the iterator that `Get` makes of them
-- yields exactly these points in their order and ends with no error.
pub encode_chunk-read_points :
    (t0 span code hint : ℕ) (ps : List (ℕ × ℕ))
    → t0 < 2 ^ 32
    → All IsPoint ps
    → Increasing 0 ps
    → rev_chunk_spans span ≡ some code
    → (c : Chunk) × (push_points (new_chunk t0) ps ≡ ok c)
      × (b : List ℕ) × (encode_chunk (finish c) span ≡ some b)
      × (ig : IterGen) × (new_iter_gen t0 hint b ≡ IterGen.ok ig)
      × (it : IterLong) × (get ig ≡ got (iter_long it))
      × ReadsAll it ps
unfolding new_chunk encode_chunk finish new_series
encode_chunk-read_points t0 span code hint ps h0 hps inc found =
    let fresh : IsValid (new_series t0).bw = record {
      count_le = omega arith;
      free = refl;
      bytes = tt;
    } in
    let (c, run, e) = push_points-accepts (new_chunk t0) (new_series t0) ps refl fresh inc in
    let content = λ (s : SeriesLong). series_bytes (finish_series s) in
    let (b, enc, ig, new, it, iter, reads) =
      encoded-ReadsAll t0 span code hint (content c.series) ps
        (subst (λ (s : SeriesLong). content s ≢ []) (sym e) (series_bytes-some t0 ps))
        (subst (λ (s : SeriesLong). ReadsAll (new_iterator_long t0 (content s)) ps) (sym e)
          (series_bytes-read_points t0 ps h0 hps))
        found in
    (c, run, b, enc, ig, new, it, iter, reads)
