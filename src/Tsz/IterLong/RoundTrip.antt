-- ===== src/Tsz/IterLong/RoundTrip.antt =====
-- A series is read back as it was pushed.
use metrictank.Common.{
  ℕ, suc, ◌^◌, ◌<◌, ◌≡◌, ◌≢◌, refl, sym, ap, ap₂, ◌∙◌, Bool, true, false, List, [], ◌∷◌, ◌++◌,
  length, arith, subst, some, append_assoc, append-nil, All, reverse, All-reverse,
}
use metrictank.Tsz.Bits.{bits_of, length-append, length-bits_of}
use metrictank.Tsz.Bstream.{Bstream, empty}
use metrictank.Tsz.Bstream.Value.{number, size, value}
use metrictank.Tsz.Bstream.Value as Written
use metrictank.Tsz.SeriesLong.{SeriesLong, new_series, push, finish_v2, finish_series, series_bytes}
use metrictank.Tsz.Breader.{new_breader}
use metrictank.Tsz.Breader.Content.{content, stream_bits}
use metrictank.Tsz.IterLong.{
  IterLong, iterator, behind_point, new_iterator_long, series_iter, next, read_points,
}
use metrictank.Tsz.IterLong.Code.{written, push_code, push-Wrote, finish_v2-Wrote}
use metrictank.Tsz.SeriesLong.Append.{push-Appends}
use metrictank.Tsz.IterLong.Point.{Tracks, next-Reads, next-ends}
use metrictank.Tsz.IterLong.Start.{reader_of, free_start}

-- Points pushed one behind the other, and the bits that they append.
abbrev pub push_all : SeriesLong → List (ℕ × ℕ) → SeriesLong
push_all s [] = s
push_all s ((t, v) ∷ ps) = push_all (push s t v) ps

codes : SeriesLong → List (ℕ × ℕ) → List Bool
codes s [] = []
codes s ((t, v) ∷ ps) = push_code s t v ++ codes (push s t v) ps

push_all-Wrote :
    (s : SeriesLong) (ps : List (ℕ × ℕ))
    → Written.IsValid s.bw
    → Written.IsValid (push_all s ps).bw × (written (push_all s ps).bw ≡ written s.bw ++ codes s ps)
unfolding codes
push_all-Wrote s [] v = (v, sym (append-nil (written s.bw)))
push_all-Wrote s ((t, x) ∷ ps) v =
    let w = push-Wrote s t x v in
    let (v', e) = push_all-Wrote (push s t x) ps w.valid in
    (
      v',
      e
          ∙ ap (λ bs. bs ++ codes (push s t x) ps) w.bits_lem
          ∙ append_assoc (written s.bw) (push_code s t x) (codes (push s t x) ps),
    )

empty-IsValid : Written.IsValid empty
empty-IsValid = record { count_le = omega arith; free = refl; bytes = tt }

-- A 32-bit timestamp, and the bits of a 64-bit float.
abbrev pub IsPoint : ℕ × ℕ → Type 0
IsPoint (t, v) = (t < 2 ^ 32) × (v < 2 ^ 64)

-- What is read up to the end: the points, and an iterator that has met no error.
abbrev pub ReadsAll : IterLong → List (ℕ × ℕ) → Type 0
ReadsAll it ps =
    (it' : IterLong) × (read_points (suc (length ps)) it ≡ some (ps, it'))
    × (it'.finished ≡ true)
    × (it'.err ≡ false)

read_points-goes :
    (n : ℕ) (it it' : IterLong)
    → next it ≡ some (it', true)
    → read_points (suc n) it ≡ behind_point (it'.t, it'.val) (read_points n it')
unfolding read_points
read_points-goes n it it' run = rw (run, read_points) refl

read_points-ends :
    (n : ℕ) (it it' : IterLong)
    → next it ≡ some (it', false)
    → read_points (suc n) it ≡ some ([], it')
unfolding read_points
read_points-ends n it it' run = rw (run, read_points) refl

tracked-ReadsAll :
    (ps : List (ℕ × ℕ)) (it : IterLong) (s : SeriesLong) (rest : List Bool)
    → Written.IsValid s.bw
    → Tracks it s
    → All IsPoint ps
    → content it.br ≡ codes s ps ++ (bits_of 5 0x1f ++ rest)
    → ReadsAll it ps
unfolding codes
tracked-ReadsAll [] it s rest v tr h e =
    let (it', run, fin, err) = next-ends it s rest tr e in
    (it', read_points-ends 0 it it' run, fin, err)
tracked-ReadsAll ((t, x) ∷ ps) it s rest v tr h e =
    let w = push-Wrote s t x v in
    let (it1, run, tr1, e1) =
      next-Reads it s t x (codes (push s t x) ps ++ (bits_of 5 0x1f ++ rest)) tr h.0.0 h.0.1
        (e ∙ append_assoc (push_code s t x) (codes (push s t x) ps) (bits_of 5 0x1f ++ rest)) in
    let (it', runs, fin, err) = tracked-ReadsAll ps it1 (push s t x) rest w.valid tr1 h.1 e1 in
    let (a, et, ev, e0, ef) = push-Appends s t x v in
    (
      it',
      read_points-goes (suc (length ps)) it it1 run
          ∙ ap (behind_point (it1.t, it1.val)) runs
          ∙ ap₂ (λ a b. some ((a, b) ∷ ps, it')) (tr1.t_lem ∙ et) (tr1.val ∙ ev),
      fin,
      err,
    )

-- An iterator at the start of a stream to which points and the marker were written.
started-ReadsAll :
    (t0 : ℕ) (ps : List (ℕ × ℕ)) (b : Bstream) (more : List Bool)
    → t0 < 2 ^ 32
    → All IsPoint ps
    → Written.IsValid b
    → written b ≡ codes (new_series t0) ps ++ (bits_of 5 0x1f ++ more)
    → ReadsAll (iterator t0 (record { stream = reverse b.stream; count = 8 })) ps
unfolding iterator new_series
started-ReadsAll t0 ps b more h0 hps v e =
    let s = new_series t0 in
    let cs = codes s ps in
    let (pad, spells) = reader_of b v in
    tracked-ReadsAll ps _ s (more ++ pad) empty-IsValid
      (record {
        t_lem = refl;
        t0 = refl;
        t_delta = refl;
        val = refl;
        window = λ h. absurd (h refl);
        err = refl;
        finished = refl;
        valid = free_start (reverse b.stream) (All-reverse _ b.stream v.bytes);
        t_lt = omega arith;
        t0_lt = h0;
        t_delta_lt = omega arith;
        val_lt = omega arith;
      })
      hps
      (spells
        ∙ ap (λ bs. bs ++ pad) e
        ∙ append_assoc cs (bits_of 5 0x1f ++ more) pad
        ∙ ap (λ bs. cs ++ bs) (append_assoc (bits_of 5 0x1f) more pad))

push_all-finished :
    (s : SeriesLong) (ps : List (ℕ × ℕ))
    → Written.IsValid s.bw
    → (push_all s ps).finished ≡ s.finished
push_all-finished s [] v = refl
push_all-finished s ((t, x) ∷ ps) v =
    let (a, et, ev, e0, ef) = push-Appends s t x v in
    push_all-finished (push s t x) ps (push-Wrote s t x v).valid ∙ ef

push_all-t0 :
    (s : SeriesLong) (ps : List (ℕ × ℕ)) → Written.IsValid s.bw → (push_all s ps).t0 ≡ s.t0
push_all-t0 s [] v = refl
push_all-t0 s ((t, x) ∷ ps) v =
    let (a, et, ev, e0, ef) = push-Appends s t x v in
    push_all-t0 (push s t x) ps (push-Wrote s t x v).valid ∙ e0

finish-goes : (s : SeriesLong) → s.finished ≡ false → (finish_series s).bw ≡ finish_v2 s.bw
unfolding finish_series
finish-goes s fin = rw (fin, finish_series) refl

-- The bits of the series that has the points.
all_written :
    (t0 : ℕ) (ps : List (ℕ × ℕ))
    → let s = push_all (new_series t0) ps in
      Written.IsValid s.bw
      × (written s.bw ≡ codes (new_series t0) ps)
      × (s.finished ≡ false)
      × (s.t0 ≡ t0)
unfolding new_series
all_written t0 ps =
    let (v, e) = push_all-Wrote (new_series t0) ps empty-IsValid in
    (
      v,
      e,
      push_all-finished (new_series t0) ps empty-IsValid,
      push_all-t0 (new_series t0) ps empty-IsValid,
    )

-- For a start below 2^32 and points whose timestamps are below 2^32 and whose values are bits of a
-- 64-bit float, an iterator over the bytes of the series to which the points were pushed, and which
-- was then finished, yields exactly these points in their order, and ends with no error.
pub series_bytes-read_points :
    (t0 : ℕ) (ps : List (ℕ × ℕ))
    → t0 < 2 ^ 32
    → All IsPoint ps
    → ReadsAll
        (new_iterator_long t0 (series_bytes (finish_series (push_all (new_series t0) ps))))
        ps
unfolding new_iterator_long new_breader series_bytes iterator
series_bytes-read_points t0 ps h0 hps =
    let s = push_all (new_series t0) ps in
    let (v, e, fin, start) = all_written t0 ps in
    let w = finish_v2-Wrote s.bw v in
    subst
      (λ (b : Bstream). ReadsAll (iterator t0 (record { stream = reverse b.stream; count = 8 })) ps)
      (sym (finish-goes s fin))
      (started-ReadsAll t0 ps (finish_v2 s.bw) [] h0 hps w.valid
        (w.bits_lem ∙ ap₂ (λ bs cs. bs ++ cs) e (sym (append-nil (bits_of 5 0x1f)))))

-- A reader of the bits takes the same steps wherever its count was.
iter-ReadsAll :
    (t0 : ℕ) (ps : List (ℕ × ℕ)) (b : Bstream) (t0' : ℕ) (more : List Bool)
    → t0' ≡ t0
    → t0 < 2 ^ 32
    → All IsPoint ps
    → Written.IsValid b
    → written b ≡ codes (new_series t0) ps ++ (bits_of 5 0x1f ++ more)
    → ReadsAll (iterator t0' (record { stream = reverse b.stream; count = b.count })) ps
unfolding iterator
iter-ReadsAll t0 ps b t0' more same h0 hps v e =
    subst (λ k. ReadsAll (iterator k (record { stream = reverse b.stream; count = 8 })) ps)
      (sym same) (started-ReadsAll t0 ps b more h0 hps v e)

-- For a start below 2^32 and points whose timestamps are below 2^32 and whose values are bits of a
-- 64-bit float, the iterator that `Iter` makes of the series to which the points were pushed yields
-- exactly these points in their order and ends with no error, and so does the one that it makes once
-- the series is finished.
pub series_iter-read_points :
    (t0 : ℕ) (ps : List (ℕ × ℕ))
    → t0 < 2 ^ 32
    → All IsPoint ps
    → let s = push_all (new_series t0) ps in
      ReadsAll (series_iter s) ps × ReadsAll (series_iter (finish_series s)) ps
unfolding series_iter finish_series
series_iter-read_points t0 ps h0 hps =
    let s = push_all (new_series t0) ps in
    let (v, e, fin, start) = all_written t0 ps in
    let marker = bits_of 5 0x1f in
    let w = finish_v2-Wrote s.bw v in
    let w' = finish_v2-Wrote (finish_v2 s.bw) w.valid in
    (
      iter-ReadsAll t0 ps (finish_v2 s.bw) s.t0 [] start h0 hps w.valid
          (w.bits_lem ∙ ap₂ (λ bs cs. bs ++ cs) e (sym (append-nil marker))),
      rw fin (
          iter-ReadsAll t0 ps (finish_v2 (finish_v2 s.bw)) s.t0 marker start h0 hps w'.valid (
            w'.bits_lem
            ∙ ap (λ bs. bs ++ marker) (w.bits_lem ∙ ap (λ bs. bs ++ marker) e)
            ∙ append_assoc (codes (new_series t0) ps) marker marker)),
    )

-- The bytes of a finished series are not empty.
pub series_bytes-some :
    (t0 : ℕ) (ps : List (ℕ × ℕ)) → series_bytes (finish_series (push_all (new_series t0) ps)) ≢ []
unfolding series_bytes
series_bytes-some t0 ps none_there =
    let s = push_all (new_series t0) ps in
    let (v, e, fin, start) = all_written t0 ps in
    let w = finish_v2-Wrote s.bw v in
    let (pad, spells) = reader_of (finish_v2 s.bw) w.valid in
    let empty_lem : reverse (finish_v2 s.bw).stream ≡ [] =
      ap (λ (b : Bstream). reverse b.stream) (sym (finish-goes s fin)) ∙ none_there in
    let marker = bits_of 5 0x1f in
    omega (
      arith,
      ap length
          (ap (λ xs. stream_bits xs 8) (sym empty_lem) ∙ spells ∙ ap (λ bs. bs ++ pad) w.bits_lem),
      length-append (written s.bw ++ marker) pad,
      length-append (written s.bw) marker,
      length-bits_of 5 0x1f,
    )
