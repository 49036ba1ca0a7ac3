-- ===== src/Chunk/Spans.antt =====
-- mdata/chunk/spans.go: the chunk spans that have a code.
use metrictank.Common.{
  ℕ, ◌+◌, ◌*◌, ◌&&◌, not, List, [], ◌∷◌, Option, none, some, leb, ◌==◌, if◌then◌else◌, get_or,
  length,
}

-- `ChunkSpans`: a span's position is its code.
abbrev pub chunk_spans : List ℕ
chunk_spans =
    1
    ∷ 5
    ∷ 10
    ∷ 15
    ∷ 20
    ∷ 30
    ∷ 60
    ∷ 90
    ∷ 2 * 60
    ∷ 3 * 60
    ∷ 5 * 60
    ∷ 10 * 60
    ∷ 15 * 60
    ∷ 20 * 60
    ∷ 30 * 60
    ∷ 45 * 60
    ∷ 3600
    ∷ 90 * 60
    ∷ 2 * 3600
    ∷ 150 * 60
    ∷ 3 * 3600
    ∷ 4 * 3600
    ∷ 5 * 3600
    ∷ 6 * 3600
    ∷ 7 * 3600
    ∷ 8 * 3600
    ∷ 9 * 3600
    ∷ 10 * 3600
    ∷ 12 * 3600
    ∷ 15 * 3600
    ∷ 18 * 3600
    ∷ 24 * 3600
    ∷ []

-- The position of a span in a list that starts at position `k`; of several the last.
unfoldable pub position : List ℕ → ℕ → ℕ → Option ℕ
position [] k span = none
position (x ∷ xs) k span = elim (position xs (k + 1) span) [
  | none ↦ if x == span then some k else none
  | some j ↦ some j
]

-- `RevChunkSpans`, with the codes that `init` gives.
unfoldable pub rev_chunk_spans : ℕ → Option ℕ
unfolding position
rev_chunk_spans span = position chunk_spans 0 span

-- `ExtractChunkSpan`.
unfoldable pub extract_chunk_span : List ℕ → ℕ
extract_chunk_span [] = 0
extract_chunk_span (x ∷ []) = 0
extract_chunk_span (format ∷ code ∷ content) =
    if not (format == 1) && not (format == 2)
    then 0
    else if leb (length chunk_spans) code
    then 0
    else get_or chunk_spans code 0
