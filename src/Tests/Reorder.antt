-- ===== src/Tests/Reorder.antt =====
-- The reorder buffer of mdata/reorder_buffer.go on concrete values.
use metrictank.Common.{
  ℕ, zero, suc, ◌+◌, ◌*◌, ◌%◌, ◌≤◌, ◌<◌, ◌≡◌, ◌≢◌, ◌↔◌, ◌⊎◌, refl, inl, true, false, List, [], ◌∷◌,
  ◌++◌, arith,
}
use metrictank.Schema.{Point}
use metrictank.Mdata.Errors.{ok, err, metric_too_old}
use metrictank.Mdata.Boundary.{agg_boundary, agg_boundary_bounds}
use metrictank.Mdata.Reorder.{ReorderBuffer, add, get, at, cap, zero_point}
use metrictank.Mdata.Reorder.Invariant.{IsValid, Placed, newest_ts}
use metrictank.Mdata.Reorder.Order.{Ascends, get-Ascends}
use metrictank.Mdata.Reorder.Refuse.{add_too_old, add_near_zero}
use metrictank.Mdata.Reorder.Correct.{add-IsValid, add_ahead, add_within}

abbrev p20 : Point
p20 = record { val = 6; ts = 20 }

abbrev p30 : Point
p30 = record { val = 7; ts = 30 }

abbrev p40 : Point
p40 = record { val = 8; ts = 40 }

abbrev p60 : Point
p60 = record { val = 9; ts = 60 }

-- Three slots of ten seconds that hold the points of 30 and 40.
abbrev two : ReorderBuffer
two = record { newest = 1; interval = 10; buf = p30 ∷ p40 ∷ zero_point ∷ []; allow_update = true }

abbrev two-IsValid : IsValid two
two-IsValid = record {
  interval_pos = omega arith;
  nonempty = omega arith;
  fits = omega arith;
  newest_bounded = omega arith;
  newest_slot = refl;
  newest_aligned = refl;
  slots = placed;
}
  where
    placed : (i : ℕ) → i < 3 → (at two.buf i).ts ≢ 0 → Placed 10 3 40 i (at two.buf i).ts
    placed zero h ne = record {
      aligned = refl;
      in_slot = refl;
      le_top = omega arith;
      in_window = omega arith;
    }
    placed (suc zero) h ne = record {
      aligned = refl;
      in_slot = refl;
      le_top = omega arith;
      in_window = omega arith;
    }
    placed (suc (suc zero)) h ne = absurd (ne refl)
    placed (suc (suc (suc i))) h ne = absurd (omega arith)

-- The buffer after the point of 60.
abbrev ahead : ReorderBuffer
ahead = record two { newest = 0; buf = p60 ∷ p40 ∷ zero_point ∷ [] }

ahead_run : add two 55 9 ≡ ok (p30 ∷ [], ahead)
unfolding add
ahead_run = refl

add-IsValid_example : IsValid ahead
add-IsValid_example =
    add-IsValid two ahead 55 9 (p30 ∷ []) two-IsValid (omega arith) (omega arith) ahead_run

boundary_of_55 : agg_boundary 55 10 ≡ 60
unfolding agg_boundary
boundary_of_55 = refl

add_ahead_example : p30 ∷ get ahead ≡ get two ++ record { val = 9; ts = agg_boundary 55 10 } ∷ []
add_ahead_example =
    add_ahead two ahead 55 9 (p30 ∷ []) two-IsValid (omega arith) (omega arith)
      (rw boundary_of_55 (omega arith)) ahead_run

boundary_of_15 : agg_boundary 15 10 ≡ 20
unfolding agg_boundary
boundary_of_15 = refl

-- The buffer after the point of 20.
abbrev three : ReorderBuffer
three = record two { buf = p30 ∷ p40 ∷ p20 ∷ [] }

within_run : add two 15 6 ≡ ok ([], three)
unfolding add
within_run = refl

abbrev no_points : List Point
no_points = []

add_within_example :
    let p : Point = record { val = 6; ts = agg_boundary 15 10 } in
    (no_points ≡ [])
    × ((xs : List Point) × (ys : List Point) × (get three ≡ xs ++ p ∷ ys)
        × ((get two ≡ xs ++ ys)
            ⊎ ((old : Point) × (old.ts ≡ p.ts) × (true ≡ true) × (get two ≡ xs ++ old ∷ ys))))
add_within_example =
    add_within two three 15 6 [] two-IsValid (omega arith) (omega arith)
      (rw boundary_of_15 (omega arith)) within_run

add_too_old_example :
    (add two 10 1 ≡ err metric_too_old)
    ↔ ((newest_ts two ≢ 0) × (agg_boundary 10 10 + cap two * two.interval ≤ newest_ts two))
add_too_old_example = add_too_old two 10 1 two-IsValid (inl (omega arith))

get-Ascends_example : Ascends 0 (get two)
get-Ascends_example = get-Ascends two two-IsValid

-- A buffer whose newest point is at 10 seconds.
abbrev early : ReorderBuffer
early = record {
  newest = 1;
  interval = 10;
  buf = zero_point ∷ record { val = 5; ts = 10 } ∷ zero_point ∷ [];
  allow_update = false;
}

abbrev early-IsValid : IsValid early
early-IsValid = record {
  interval_pos = omega arith;
  nonempty = omega arith;
  fits = omega arith;
  newest_bounded = omega arith;
  newest_slot = refl;
  newest_aligned = refl;
  slots = placed;
}
  where
    placed : (i : ℕ) → i < 3 → (at early.buf i).ts ≢ 0 → Placed 10 3 10 i (at early.buf i).ts
    placed zero h ne = absurd (ne refl)
    placed (suc zero) h ne = record {
      aligned = refl;
      in_slot = refl;
      le_top = omega arith;
      in_window = omega arith;
    }
    placed (suc (suc zero)) h ne = absurd (ne refl)
    placed (suc (suc (suc i))) h ne = absurd (omega arith)

add_near_zero_example : add early 55 9 ≡ err metric_too_old
add_near_zero_example =
    add_near_zero early 55 9 early-IsValid (λ e. omega (arith, e)) (omega arith)
      (rw boundary_of_55 (omega arith))

agg_boundary_bounds_example :
    (55 ≤ agg_boundary 55 10) × (agg_boundary 55 10 < 55 + 10) × (agg_boundary 55 10 % 10 ≡ 0)
agg_boundary_bounds_example = agg_boundary_bounds 55 10 (omega arith) (omega arith) (omega arith)
