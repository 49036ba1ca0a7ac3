-- ===== src/Mdata/Reorder/Refuse.antt =====
-- The points that `ReorderBuffer.Add` refuses as too old.
use metrictank.Common.{ℕ, ◌+◌, ◌*◌, ◌≤◌, ◌<◌, ◌≡◌, ◌≢◌, ◌⊎◌, ◌↔◌, arith}
use metrictank.Common.Words.{u32_mod}
use metrictank.Mdata.Boundary.{agg_boundary}
use metrictank.Mdata.Errors.{err, metric_too_old}
use metrictank.Mdata.Reorder.{ReorderBuffer, cap, is_too_old, add_at, add}
use metrictank.Mdata.Reorder.Invariant.{IsValid, newest_ts}

-- For a valid buffer with the window at hand, that is with the newest timestamp a window or more after 0 or with an
-- empty buffer, exactly the points a window or more behind the newest are refused as too old.
pub add_too_old :
    (rob : ReorderBuffer) (ts val : ℕ)
    → IsValid rob
    → (cap rob * rob.interval ≤ newest_ts rob) ⊎ (newest_ts rob ≡ 0)
    → (add rob ts val ≡ err metric_too_old) ↔ (
        (newest_ts rob ≢ 0)
        × (agg_boundary ts rob.interval + cap rob * rob.interval ≤ newest_ts rob))
unfolding add add_at is_too_old
add_too_old rob ts val v far =
    (λ e. ground (arith, v.newest_bounded, v.fits), λ h. ground (arith, v.newest_bounded, v.fits))

-- In a valid buffer that is not empty, the unsigned subtraction wraps while the newest timestamp is
-- less than a window after 0: then every point whose boundary, with a window added, is not beyond the
-- newest timestamp by more than 2^32 is refused as too old, newer ones included.
pub add_near_zero :
    (rob : ReorderBuffer) (ts val : ℕ)
    → IsValid rob
    → newest_ts rob ≢ 0
    → newest_ts rob < cap rob * rob.interval
    → agg_boundary ts rob.interval + cap rob * rob.interval ≤ newest_ts rob + u32_mod
    → add rob ts val ≡ err metric_too_old
unfolding add add_at is_too_old
add_near_zero rob ts val v ne near far = ground (arith, v.newest_bounded, v.fits)
