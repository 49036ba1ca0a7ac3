-- ===== src/Chunk/IterGen.antt =====
-- mdata/chunk/itergen.go: an encoded chunk with its start.
use metrictank.Common.{
  ℕ, ◌||◌, List, [], ◌∷◌, Option, none, some, get_elem?, leb, ◌==◌, if◌then◌else◌, get_or, length,
}
use metrictank.Common.Words.{add32}
use metrictank.Tsz.IterLong.{IterLong, new_iterator_long}
use metrictank.Chunk.Spans.{chunk_spans}

-- `IterGen`.
pub record IterGen : Type 0 where
  pub t0 : ℕ
  pub interval_hint : ℕ
  pub b : List ℕ

pub data Error : Type 0 where
  unknown_chunk_format unknown_span_code short : Error

pub data Result : Type 0 where
  ok : IterGen → Result
  err : Error → Result

-- `NewIterGen`; it is never called with no bytes, where the source reads out of range.
unfoldable pub new_iter_gen : ℕ → ℕ → List ℕ → Result
new_iter_gen t0 interval_hint b =
    let format = get_or b 0 0 in
    let result = ok (record { t0 = t0; interval_hint = interval_hint; b = b }) in
    if format == 0
    then (if length b == 1 then err short else result)
    else if format == 1 || format == 2
    then (if leb (length b) 2
        then err short
        else if leb (length chunk_spans) (get_or b 1 0)
        then err unknown_span_code
        else result)
    else err unknown_chunk_format

-- `Span` on the bytes: 0 for the format that does not store it. `none` is a panic: no bytes, no
-- code, or a code that no span has.
unfoldable pub span_by : List ℕ → Option ℕ
span_by [] = none
span_by (format ∷ []) = if format == 0 then some 0 else none
span_by (format ∷ code ∷ content) = if format == 0 then some 0 else get_elem? chunk_spans code

-- `Span`.
unfoldable pub gen_span : IterGen → Option ℕ
unfolding span_by
gen_span ig = span_by ig.b

-- `Size`.
unfoldable pub gen_size : IterGen → ℕ
gen_size ig = length ig.b

abbrev pub end_by : ℕ → Option ℕ → Option ℕ
end_by t0 none = none
end_by t0 (some span) = some (add32 t0 span)

-- `EndTs`.
unfoldable pub end_ts : IterGen → Option ℕ
unfolding gen_span
end_ts ig = end_by ig.t0 (gen_span ig)

-- `tsz.Iter`: an iterator over a `Series4h`, by the bytes and the hint that it is made of, or over a
-- `SeriesLong`.
pub data Iter : Type 0 where
  iter_4h : List ℕ → ℕ → Iter
  iter_long : IterLong → Iter

pub data GetResult : Type 0 where
  got : Iter → GetResult
  failed : Error → GetResult
  panic : GetResult

-- `ig.B[2:]`, where `src` is `ig.B[1:]`.
unfoldable pub behind_span : List ℕ → (List ℕ → Iter) → GetResult
behind_span [] iter = panic
behind_span (code ∷ src) iter = got (iter src)

-- `Get` on the bytes.
unfoldable pub get_by : ℕ → ℕ → List ℕ → GetResult
unfolding behind_span new_iterator_long
get_by t0 interval_hint [] = panic
get_by t0 interval_hint (format ∷ src) =
    if format == 0
    then got (iter_4h src interval_hint)
    else if format == 1
    then behind_span src (λ b. iter_4h b interval_hint)
    else if format == 2
    then behind_span src (λ b. iter_long (new_iterator_long t0 b))
    else failed unknown_chunk_format

-- `Get`.
unfoldable pub get : IterGen → GetResult
unfolding get_by
get ig = get_by ig.t0 ig.interval_hint ig.b
