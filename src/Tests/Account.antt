-- ===== src/Tests/Account.antt =====
-- The accounting of the cache on concrete values.
use metrictank.Common.{ℕ, ◌≤◌, ◌≡◌, List, [], ◌∷◌, some}
use metrictank.Schema.{AmKey}
use metrictank.Mdata.Accnt.{
  EvictTarget, FlatAccnt, Event, add_chunk_event, hit_chunk, del_metric, new_flat_accnt, event_loop,
}
use metrictank.Mdata.Accnt.Valid.{IsValid}
use metrictank.Mdata.Accnt.Bounded.{event_loop-bounded}

abbrev key : ℕ → AmKey
key m = record { mkey = m; archive = 0 }

abbrev target : ℕ → ℕ → EvictTarget
target m ts = record { metric = key m; ts = ts }

abbrev events : List Event
events =
    add_chunk_event (key 1) 0 30
    ∷ add_chunk_event (key 2) 0 20
    ∷ hit_chunk (key 1) 0
    ∷ del_metric (key 2)
    ∷ []

event_loop-bounded_example :
    (a : FlatAccnt) × (event_loop (new_flat_accnt 40) events ≡ some a) × IsValid a × (a.used ≤ 40)
event_loop-bounded_example = event_loop-bounded 40 events
