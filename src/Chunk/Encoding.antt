-- ===== src/Chunk/Encoding.antt =====
-- The span of an encoded chunk, written and read back (mdata/chunk/encode.go, spans.go, itergen.go).
use metrictank.Common.{
  ◌-◌, ◌∙◌, ◌==◌, false, get_elem?, ℕ, zero, suc, ◌+◌, ◌≤◌, ◌<◌, ◌≡◌, ◌≢◌, refl, ap, ◌⊎◌, inl, inr,
  List, [], ◌∷◌, some, get_or, length, arith, Option-cases,
}
use metrictank.Common.Words.{add32}
use metrictank.Chunk.{
  Format, standard_go_tsz, standard_go_tsz_with_span, go_tsz_long_with_span, encode,
}
use metrictank.Chunk.Spans.{chunk_spans, position, rev_chunk_spans, extract_chunk_span}
use metrictank.Chunk.IterGen.{IterGen, ok, new_iter_gen, gen_span, span_by, end_by, end_ts}

-- A span that has a position stands there.
position-get :
    (xs : List ℕ) (k span : ℕ) {j : ℕ}
    → position xs k span ≡ some j
    → (k ≤ j) × (j < k + length xs) × (get_or xs (j - k) 0 ≡ span)
unfolding position
position-get [] k span e = cc
position-get (x ∷ xs) k span {j} e = elim (Option-cases (position xs (k + 1) span)) [
  | inl no_later ↦ here (ground arith) (ground arith)
  | inr (i, later) ↦ there (position-get xs (k + 1) span {j = j} (ground arith))
]
  where
    here :
        j ≡ k → x ≡ span → (k ≤ j) × (j < k + suc (length xs)) × (get_or (x ∷ xs) (j - k) 0 ≡ span)
    here at_k same = let z : j - k ≡ 0 = omega arith in (omega arith, omega arith, rw z same)

    there :
        (k + 1 ≤ j) × (j < k + 1 + length xs) × (get_or xs (j - (k + 1)) 0 ≡ span)
        → (k ≤ j) × (j < k + suc (length xs)) × (get_or (x ∷ xs) (j - k) 0 ≡ span)
    there (lo, hi, get) =
        let z : j - k ≡ suc (j - (k + 1)) = omega arith in (omega arith, omega arith, rw z get)

pub rev_chunk_spans-get :
    (span : ℕ) {code : ℕ}
    → rev_chunk_spans span ≡ some code
    → (code < length chunk_spans) × (get_or chunk_spans code 0 ≡ span)
unfolding rev_chunk_spans
rev_chunk_spans-get span {code} e =
    let (lo, hi, get) = position-get chunk_spans 0 span e in
    let z : code - 0 ≡ code = omega arith in (omega (arith, hi), rw z at get)

get_elem?-get_or : (xs : List ℕ) (i : ℕ) → i < length xs → get_elem? xs i ≡ some (get_or xs i 0)
get_elem?-get_or [] i h = absurd (omega (arith, h))
get_elem?-get_or (x ∷ xs) zero h = refl
get_elem?-get_or (x ∷ xs) (suc i) h = get_elem?-get_or xs i (omega (arith, h))

written :
    (span t0 hint format code : ℕ) (content : List ℕ)
    → (format ≡ 1) ⊎ (format ≡ 2)
    → rev_chunk_spans span ≡ some code
    → (extract_chunk_span (format ∷ code ∷ content) ≡ span)
      × (content ≢ []
          → (ig : IterGen) × (new_iter_gen t0 hint (format ∷ code ∷ content) ≡ ok ig)
            × (gen_span ig ≡ some span)
            × (end_ts ig ≡ some (add32 t0 span)))
unfolding extract_chunk_span new_iter_gen gen_span end_ts span_by
written span t0 hint format code [] known found =
    let (lt, get) = rev_chunk_spans-get span found in (ground arith, λ ne. absurd (ne refl))
written span t0 hint format code (x ∷ xs) known found =
    let (lt, get) = rev_chunk_spans-get span found in
    let ig : IterGen = record { t0 = t0; interval_hint = hint; b = format ∷ code ∷ x ∷ xs } in
    let spanned : get_elem? chunk_spans code ≡ some span =
      get_elem?-get_or chunk_spans code lt ∙ ap some get in
    let has_format : (format == 0) ≡ false = ground arith in
    let span_lem : gen_span ig ≡ some span = rw has_format spanned in
    let end_lem : end_ts ig ≡ some (add32 t0 span) = ap (end_by t0) span_lem in
    (ground arith, λ ne. (ig, ground arith, span_lem, end_lem))

-- What `encode` writes for a format with a span is read back: `ExtractChunkSpan` yields the span,
-- and, where the chunk has content, `NewIterGen` accepts the bytes, at any start, and its `Span`
-- and `EndTs` are those of the span.
pub encode-span :
    (span t0 hint : ℕ) (format : Format) (content b : List ℕ)
    → format ≢ standard_go_tsz
    → encode span format content ≡ some b
    → (extract_chunk_span b ≡ span)
      × (content ≢ []
          → (ig : IterGen) × (new_iter_gen t0 hint b ≡ ok ig)
            × (gen_span ig ≡ some span)
            × (end_ts ig ≡ some (add32 t0 span)))
unfolding encode
encode-span span t0 hint standard_go_tsz content b ne e = absurd (ne refl)
encode-span span t0 hint standard_go_tsz_with_span content b ne e =
    elim (Option-cases (rev_chunk_spans span)) [
      | inl bad ↦ absurd (ground arith)
      | inr (code, found) ↦
          let eq : b ≡ 1 ∷ code ∷ content = ground arith in
          rw eq (written span t0 hint 1 code content (inl refl) found)
    ]
encode-span span t0 hint go_tsz_long_with_span content b ne e =
    elim (Option-cases (rev_chunk_spans span)) [
      | inl bad ↦ absurd (ground arith)
      | inr (code, found) ↦
          let eq : b ≡ 2 ∷ code ∷ content = ground arith in
          rw eq (written span t0 hint 2 code content (inr refl) found)
    ]
