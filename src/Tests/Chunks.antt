-- ===== src/Tests/Chunks.antt =====
-- The chunks of mdata/chunk and mdata/aggmetric.go on concrete values.
use metrictank.Common.{
  ℕ, ◌%◌, ◌^◌, ◌≤◌, ◌<◌, ◌≡◌, ◌≢◌, ◌⊎◌, refl, true, false, List, [], ◌∷◌, some, none, arith,
}
use metrictank.Common.Words.{add32}
use metrictank.Schema.Archive.{
  sum, method_code, new_archive, archive_method, archive_span, is_span_valid, new_archive-parts,
}
use metrictank.Tsz.Bstream.{Bstream, write_bits}
use metrictank.Tsz.Bstream.Value.{IsValid, Writes}
use metrictank.Tsz.Bstream.Write.{write_bits-Writes}
use metrictank.Tsz.SeriesLong.{SeriesLong, new_series, push}
use metrictank.Tsz.SeriesLong.Append.{Appends, push-Appends}
use metrictank.Chunk.{standard_go_tsz, go_tsz_long_with_span, encode, new_chunk}
use metrictank.Chunk.Spans.{extract_chunk_span, rev_chunk_spans}
use metrictank.Chunk.IterGen.{IterGen, ok, new_iter_gen, gen_span, end_ts}
use metrictank.Chunk.Encoding.{encode-span}
use metrictank.Mdata.World.{Env, World}
use metrictank.Mdata.AggMetric.{AggMetric, close, persist}
use metrictank.Mdata.AggMetric.Close.{Closed, close-Closed}
use metrictank.Mdata.AggMetric.Persist.{Encodes, Persisted, persist-Persisted}

-- Five bits, 01101, in the first byte.
abbrev five_bits : Bstream
five_bits = record { stream = 0x68 ∷ []; count = 3 }

abbrev five_bits-IsValid : IsValid five_bits
five_bits-IsValid = record {
  count_le = omega arith;
  free = (omega arith, refl);
  bytes = omega arith;
}

write_bits-Writes_example : Writes five_bits (write_bits five_bits 0xabc 12) 12 (0xabc % 2 ^ 12)
write_bits-Writes_example = write_bits-Writes five_bits 0xabc 12 five_bits-IsValid (omega arith)

abbrev series : SeriesLong
series = record (new_series 1200) { bw = five_bits }

push-Appends_example :
    Appends five_bits (push series 1210 77).bw 2 114
    × ((push series 1210 77).t ≡ 1210)
    × ((push series 1210 77).val ≡ 77)
    × ((push series 1210 77).t0 ≡ series.t0)
    × ((push series 1210 77).finished ≡ series.finished)
push-Appends_example = push-Appends series 1210 77 five_bits-IsValid

valid_600 : is_span_valid 600 ≡ true
unfolding is_span_valid
valid_600 = refl

new_archive-parts_example :
    (archive_method (new_archive sum 600) ≡ method_code sum)
    × (archive_span (new_archive sum 600) ≡ 600)
    × (new_archive sum 600 < 2 ^ 16)
new_archive-parts_example = new_archive-parts sum 600 valid_600

code_600 : rev_chunk_spans 600 ≡ some 11
unfolding rev_chunk_spans
code_600 = refl

-- A chunk of ten minutes with three bytes of content.
abbrev three_bytes : List ℕ
three_bytes = 1 ∷ 2 ∷ 3 ∷ []

encoded_600 : encode 600 go_tsz_long_with_span three_bytes ≡ some (2 ∷ 11 ∷ 1 ∷ 2 ∷ 3 ∷ [])
unfolding encode rev_chunk_spans
encoded_600 = refl

long_with_span : go_tsz_long_with_span ≢ standard_go_tsz
long_with_span = λ e. ground arith

encode-span_example :
    (extract_chunk_span (2 ∷ 11 ∷ 1 ∷ 2 ∷ 3 ∷ []) ≡ 600)
    × (three_bytes ≢ []
        → (ig : IterGen) × (new_iter_gen 1200 0 (2 ∷ 11 ∷ 1 ∷ 2 ∷ 3 ∷ []) ≡ ok ig)
          × (gen_span ig ≡ some 600)
          × (end_ts ig ≡ some (add32 1200 600)))
encode-span_example =
    encode-span 600 1200 0 go_tsz_long_with_span three_bytes (2 ∷ 11 ∷ 1 ∷ 2 ∷ 3 ∷ [])
      long_with_span encoded_600

abbrev env : Env
env = record {
  now = 2000;
  is_primary = true;
  enforce_future_tolerance = false;
  has_cache_pusher = false;
}

abbrev world : World
world = record { stored = []; pushed = [] }

-- Two chunks, of which neither is saved; the last save is the chunk of 600.
abbrev metric : AggMetric ℕ
metric = record {
  key = record { mkey = 1; archive = 0 };
  rob = none;
  current_chunk_pos = 1;
  num_chunks = 4;
  chunk_span = 600;
  chunks = new_chunk 1200 ∷ new_chunk 1800 ∷ [];
  aggregators = [];
  drop_first_chunk = false;
  ingest_from_t0 = 0;
  future_tolerance = 0;
  ttl = 86400;
  last_save_start = 600;
  last_write = 1900;
  first_ts = 1210;
}

code_600-Encodes : Encodes metric.chunk_span
code_600-Encodes = (11, code_600)

persist-Persisted_example :
    let c = new_chunk 1800 in
    ((c.series.t0 ≤ 600) × (persist env metric 1 world ≡ some (metric, world)))
    ⊎ ((600 < c.series.t0)
        × ((a' : AggMetric ℕ) × (w' : World) × (persist env metric 1 world ≡ some (a', w'))
            × Persisted env metric 1 c world a' w'))
persist-Persisted_example =
    persist-Persisted env metric 1 (new_chunk 1800) world code_600-Encodes refl (omega arith)

-- The same node with a cache to tell.
abbrev env_with_cache : Env
env_with_cache = record env { has_cache_pusher = true }

close-Closed_example :
    (a' : AggMetric ℕ) × (w' : World) × (close env_with_cache metric 1 (new_chunk 1800) world
      ≡ some (a', w'))
    × Closed env_with_cache metric 1 (new_chunk 1800) world a' w'
close-Closed_example =
    close-Closed env_with_cache metric 1 (new_chunk 1800) world code_600-Encodes (omega arith)
