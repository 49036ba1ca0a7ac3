-- ===== src/Api/Target/Canonical.antt =====
-- `getTarget` of api/dataprocessor.go returns series in canonical form: whatever the archive and
-- the consolidation, the points stand where those of a series of the output's interval stand.
use native.Mathlib.Nat.{mul-sub, mul_comm}
use metrictank.Common.{
  ℕ, ◌+◌, ◌-◌, ◌*◌, ◌<◌, ◌≡◌, ◌≢◌, ◌⊎◌, inl, inr, refl, sym, ap, ap₂, ◌∙◌, List, [], ◌∷◌, some, ltb,
  ◌==◌, arith, Bool-cases, subst,
}
use metrictank.Schema.{Point}
use metrictank.Schema.Archive.{Method}
use metrictank.Schema.Archive
use metrictank.Consolidation.{
  Consolidator, no_consolidation, avg, sum, cnt, consolidate, consolidate_by, get_agg_func,
}
use metrictank.Consolidation
use metrictank.Batch.{BatchOps}
use metrictank.Mdata.AggMetric.{◌>>=◌}
use metrictank.Api.Fix.{divide}
use metrictank.Api.Fix.Align.{multiples_below}
use metrictank.Api.Fix.Slots.{Ascends, grid}
use metrictank.Api.Fix.Grid.{fix-grid}
use metrictank.Api.Request.{Req}
use metrictank.Api.Target.{
  RequestContext, Fetch, get_series_fixed, normalized, get_one, get_average, get_rollup, get_target,
}
use metrictank.Api.Target.Lower.{slot_of, multiples_below-slot_of}
use metrictank.Api.Target.Times.{times, timestamps, timestamps-grid, timestamps-consolidate}
use metrictank.Api.Target.Context.{Planned, Stored, new_request_context-Covers, interval-le}

sub_mul : (a b k : ℕ) → (a - b) * k ≡ a * k - b * k
sub_mul a b k =
    mul_comm (a - b) k
    ∙ mul-sub k a b
    ∙ ap (λ t. t - k * b) (mul_comm k a)
    ∙ ap (λ t. a * k - t) (mul_comm k b)

divide-timestamps :
    (f_div : ℕ → ℕ → ℕ) (ps qs : List Point)
    → timestamps ps ≡ timestamps qs
    → (out : List Point) × (divide f_div ps qs ≡ some out) × (timestamps out ≡ timestamps ps)
unfolding divide
divide-timestamps f_div [] [] e = ([], refl, refl)
divide-timestamps f_div [] (q ∷ qs) e = absurd (no e)
  where
    no : [] ≡ q.ts ∷ timestamps qs → ⊥
    no h = cc
divide-timestamps f_div (p ∷ ps) [] e = absurd (no e)
  where
    no : p.ts ∷ timestamps ps ≡ [] → ⊥
    no h = cc
divide-timestamps f_div (p ∷ ps) (q ∷ qs) e =
    let (out, d, t) = divide-timestamps f_div ps qs (tail e) in
    (record p { val = f_div p.val q.val } ∷ out, rw d refl, ap (λ l. p.ts ∷ l) t)
  where
    tail : p.ts ∷ timestamps ps ≡ q.ts ∷ timestamps qs → timestamps ps ≡ timestamps qs
    tail h = cc

-- For a range that is not empty, points are found, in order of time.
abbrev pub Finds : Fetch → Type 0
Finds fetch =
    (rc : RequestContext)
    → rc.from < rc.to
    → (points : List Point) × (fetch rc ≡ some points) × Ascends points

-- Where the series of a request is read: raw, with a consolidator if there are points to put
-- together, or an archive of its consolidator, or the two archives of an average.
abbrev pub Readable : Req → Type 0
Readable req =
    ((req.archive ≡ 0) × ((req.agg_num ≡ 1) ⊎ (req.consolidator ≢ no_consolidation)))
    ⊎ ((req.consolidator ≡ avg)
        ⊎ ((m : Method) × (Consolidation.archive req.consolidator ≡ some m)))

sum-none : sum ≢ no_consolidation
sum-none e = cc

avg-none : avg ≢ no_consolidation
avg-none e = cc

archive-none : (m : Method) → Consolidation.archive no_consolidation ≢ some m
unfolding Consolidation.archive
archive-none m e = cc

module _ (ops : BatchOps) (fetch : Fetch) (req : Req) (p : Planned req) (finds : Finds fetch) where
  open ops use {nan, f_div}

  -- The slots of the range, and the groups of them.
  first : ℕ
  first = slot_of req.from req.out_interval

  count : ℕ
  count = slot_of req.to req.out_interval - slot_of req.from req.out_interval

  Fixed : List Point → Type 0
  Fixed points =
      timestamps points
      ≡ times ((first * req.agg_num + 1) * req.arch_interval) (count * req.agg_num)
          req.arch_interval

  OutPoints : List Point → Type 0
  OutPoints points =
      timestamps points ≡ times ((first + 1) * req.out_interval) count req.out_interval

  get_series_fixed-Fixed :
      (cons : Consolidator)
      → Stored req cons
      → (points : List Point) × (get_series_fixed ops fetch req cons ≡ some points) × Fixed points
  unfolding get_series_fixed Fixed first count times
  get_series_fixed-Fixed cons stored =
      let (rc, e, from, to, le_to) = new_request_context-Covers req p cons stored in
      let slots : count * req.agg_num
          ≡ slot_of rc.to req.arch_interval - slot_of rc.from req.arch_interval =
        sub_mul (slot_of req.to req.out_interval) first req.agg_num
        ∙ ap₂ (λ a b. a - b) (sym to.slot) (sym from.slot) in
      elim (Bool-cases (rc.from == rc.to)) [
        | inl same ↦
            let same' : rc.from ≡ rc.to = ground arith in
            let z : count * req.agg_num ≡ 0 =
              slots
              ∙ ap (λ t. slot_of t req.arch_interval - slot_of rc.from req.arch_interval)
                  (sym same')
              ∙ omega arith in
            ([], rw (e, ◌>>=◌, same) refl, rw z refl)
        | inr differ ↦
            let some_range : rc.from < rc.to = ground (arith, differ, le_to) in
            let (points, found, asc) = finds rc some_range in
            let le = interval-le req p in
            let grid_of =
              fix-grid nan points rc.from rc.to req.arch_interval asc p.some_interval to.above_zero
                (omega (arith, from.within, p.from_fits, le))
                (omega (arith, to.within, p.to_fits, le)) in
            let start : multiples_below rc.from req.arch_interval ≡ first * req.agg_num + 1 =
              multiples_below-slot_of rc.from req.arch_interval from.above_zero p.some_interval
              ∙ ap (λ t. t + 1) from.slot in
            let end =
              multiples_below-slot_of rc.to req.arch_interval to.above_zero p.some_interval in
            let n : multiples_below rc.to req.arch_interval
                  - multiples_below rc.from req.arch_interval
                ≡ count * req.agg_num =
              omega (arith, end, start, slots, from.slot) in
            (
              grid nan (multiples_below rc.from req.arch_interval * req.arch_interval)
                  (multiples_below rc.to req.arch_interval
                    - multiples_below rc.from req.arch_interval)
                  req.arch_interval points,
              rw (e, ◌>>=◌, differ, found) grid_of,
              timestamps-grid nan req.arch_interval points
                    (multiples_below rc.to req.arch_interval
                      - multiples_below rc.from req.arch_interval)
                    (multiples_below rc.from req.arch_interval * req.arch_interval)
                  ∙ ap₂ (λ a b. times (a * req.arch_interval) b req.arch_interval) start n,
            )
      ]

  -- With more than one point in a group, there is a function for the consolidator.
  HasFunction : Consolidator → Type 0
  HasFunction cons = (req.agg_num ≡ 1) ⊎ ((f : List Point → ℕ) × (get_agg_func ops cons ≡ some f))

  some-HasFunction : (cons : Consolidator) → cons ≢ no_consolidation → HasFunction cons
  unfolding HasFunction get_agg_func
  some-HasFunction no_consolidation ne = absurd (ne refl)
  some-HasFunction cons ne = inr (_, refl)

  normalized-OutPoints :
      (cons : Consolidator) (points : List Point)
      → HasFunction cons
      → Fixed points
      → (out : List Point) × (normalized ops fetch req cons points ≡ some out) × OutPoints out
  unfolding normalized Fixed OutPoints HasFunction consolidate_by
  normalized-OutPoints cons points has fixed = elim (Bool-cases (ltb 1 req.agg_num)) [
    | inl more ↦ elim has [
      | inl one ↦ absurd (ground (arith, more, one))
      | inr (agg_func, picked) ↦
          let (out, e, ts) =
            timestamps-consolidate agg_func count req.agg_num
              ((first * req.agg_num + 1) * req.arch_interval) req.arch_interval points p.some_points
              fixed in
          let pred : req.agg_num * req.arch_interval
              ≡ (req.agg_num - 1) * req.arch_interval + req.arch_interval =
            ap (λ t. t * req.arch_interval) {x = req.agg_num} {y = req.agg_num - 1 + 1}
              (omega (arith, p.some_points))
            ∙ omega arith in
          let start : (first * req.agg_num + 1) * req.arch_interval
                + (req.agg_num - 1) * req.arch_interval
              ≡ (first + 1) * (req.agg_num * req.arch_interval) =
            omega (arith, pred) in
          (
            out,
            rw (more, consolidate_by, picked) e,
            ts
                ∙ ap (λ t. times t count (req.agg_num * req.arch_interval)) start
                ∙ ap (λ o. times ((first + 1) * o) count o) (sym p.out_lem),
          )
    ]
    | inr one ↦
        let one' : req.agg_num ≡ 1 = ground (arith, p.some_points) in
        let same : req.arch_interval ≡ req.out_interval =
          sym (p.out_lem ∙ ap (λ t. t * req.arch_interval) one' ∙ omega arith) in
        let unit_start : first * 1 + 1 ≡ first + 1 = omega arith in
        let unit_count : count * 1 ≡ count = omega arith in
        (
          points,
          rw one refl,
          fixed
              ∙ ap (λ a. times ((first * a + 1) * req.arch_interval) (count * a) req.arch_interval)
                  one'
              ∙ ap₂ (λ a b. times (a * req.arch_interval) b req.arch_interval) unit_start unit_count
              ∙ ap (λ i. times ((first + 1) * i) count i) same,
        )
  ]

  get_one-OutPoints :
      (read cons : Consolidator)
      → HasFunction cons
      → Stored req read
      → (out : List Point) × (get_one ops fetch req read cons ≡ some out) × OutPoints out
  unfolding get_one
  get_one-OutPoints read cons has stored =
      let (points, e, fixed) = get_series_fixed-Fixed read stored in
      let (out, e', ts) = normalized-OutPoints cons points has fixed in (out, rw (e, ◌>>=◌) e', ts)

  one_point : (cons : Consolidator) → req.agg_num ≡ 1 → HasFunction cons
  unfolding HasFunction
  one_point cons one = inl one

  get_average-OutPoints :
      (out : List Point) × (get_average ops fetch req ≡ some out) × OutPoints out
  unfolding get_average Consolidation.archive OutPoints
  get_average-OutPoints =
      let summed : HasFunction sum = some-HasFunction sum (λ e. sum-none e) in
      let (sums, e, fixed) = get_series_fixed-Fixed sum (inr (Archive.sum, refl)) in
      let (counts, e', fixed') = get_series_fixed-Fixed cnt (inr (Archive.cnt, refl)) in
      let (sums', n, ts) = normalized-OutPoints sum sums summed fixed in
      let (counts', n', ts') = normalized-OutPoints sum counts summed fixed' in
      let (out, d, same) = divide-timestamps f_div sums' counts' (ts ∙ sym ts') in
      (out, rw (e, ◌>>=◌, e', n, n') d, same ∙ ts)

  get_rollup-eq-get_one :
      (cons : Consolidator) (m : Method)
      → Consolidation.archive cons ≡ some m
      → get_rollup ops fetch cons req ≡ get_one ops fetch req cons cons
  unfolding get_rollup Consolidation.archive
  get_rollup-eq-get_one avg m e = cc
  get_rollup-eq-get_one no_consolidation m e = refl
  get_rollup-eq-get_one cons m e = refl

  get_target-OutPoints :
      Readable req → (out : List Point) × (get_target ops fetch req ≡ some out) × OutPoints out
  unfolding get_target get_rollup
  get_target-OutPoints readable = elim (Bool-cases (req.archive == 0)) [
    | inl raw ↦
        let z : req.archive ≡ 0 = ground arith in
        rw raw (get_one-OutPoints no_consolidation req.consolidator (raw_function readable) (inl z))
    | inr rollup ↦ elim readable [
      | inl (z, _) ↦ absurd (ground arith)
      | inr (inl mean) ↦ rw rollup (
          subst (λ c. (out : List Point) × (get_rollup ops fetch c req ≡ some out) × OutPoints out)
            (sym mean) average)
      | inr (inr (m, has)) ↦
          rw (rollup, get_rollup-eq-get_one req.consolidator m has)
            (get_one-OutPoints req.consolidator req.consolidator (stored_function m has)
              (inr (m, has)))
    ]
  ]
    where
      stored_function :
          (m : Method)
          → Consolidation.archive req.consolidator ≡ some m
          → HasFunction req.consolidator
      stored_function m has =
          some-HasFunction req.consolidator
            (λ e. archive-none m (ap Consolidation.archive (sym e) ∙ has))

      raw_function : Readable req → HasFunction req.consolidator
      raw_function (inl (z, inl one)) = one_point req.consolidator one
      raw_function (inl (z, inr ne)) = some-HasFunction req.consolidator ne
      raw_function (inr (inl mean)) =
          some-HasFunction req.consolidator (λ e. avg-none (sym mean ∙ e))
      raw_function (inr (inr (m, has))) = stored_function m has

      average : (out : List Point) × (get_rollup ops fetch avg req ≡ some out) × OutPoints out
      average = get_average-OutPoints

-- For a planned request that can be read, whose consolidator has a function if points are put
-- together, and points that are found in order of time for every range that is not empty, `getTarget`
-- returns a series, and its points stand at the multiples of the output's interval from the start of
-- the request on and before its end, one at each, in order: from a raw or a rolled-up archive, of
-- one consolidator or of an average, whether the points are consolidated or not.
pub get_target-canonical :
    (ops : BatchOps) (fetch : Fetch) (req : Req)
    → Planned req
    → Readable req
    → Finds fetch
    → (out : List Point) × (get_target ops fetch req ≡ some out)
      × (timestamps out
          ≡ times
              (multiples_below req.from req.out_interval * req.out_interval)
              (multiples_below req.to req.out_interval - multiples_below req.from req.out_interval)
              req.out_interval)
unfolding OutPoints first count
get_target-canonical ops fetch req p readable finds =
    let (out, e, ts) = get_target-OutPoints ops fetch req p finds readable in
    let out_pos : 0 < req.out_interval = omega (arith, interval-le req p, p.some_interval) in
    let start = multiples_below-slot_of req.from req.out_interval p.after_zero out_pos in
    let end = multiples_below-slot_of req.to req.out_interval (omega (arith, p.ordered)) out_pos in
    (
      out,
      e,
      ts
          ∙ ap₂ (λ a b. times (a * req.out_interval) b req.out_interval) (sym start)
              (omega (arith, start, end)),
    )
