-- ===== src/Historian/Ring/Tests.antt =====
-- The ring's theorems at concrete rings.
use opc_server.Prelude.{ℕ, ◌≡◌, refl, [], ◌∷◌, true, arith}
use opc_server.Historian.Ring.{
  RingHistorian, init, recent, snapshot, snapshot_from, size, record_all,
}
use opc_server.Historian.Ring.Valid.{IsValid}
use opc_server.Historian.Ring.Refine.{record_all_lem}
use opc_server.Historian.Ring.Recent.{recent-snapshot}

-- A ring of two cells that holds 7 and 8.
abbrev two_samples : RingHistorian ℕ
two_samples = record {
  capacity = 2;
  has_metrics = true;
  dropped_metric = 0;
  buffer = 7 ∷ 8 ∷ [];
  head = 0;
  count = 2;
  dropped = 0;
}

two_samples-IsValid : IsValid two_samples
two_samples-IsValid = record {
  storage = refl;
  positive = omega arith;
  head_in = omega arith;
  count_in = omega arith;
}

abbrev three_recorded : RingHistorian ℕ
three_recorded = record_all 0 (init 0 2 true) (7 ∷ 8 ∷ 9 ∷ [])

record_all_lem_example :
    (snapshot 0 three_recorded ≡ 8 ∷ 9 ∷ [])
    × (three_recorded.dropped ≡ 1)
    × (size 0 three_recorded ≡ 2)
record_all_lem_example = record_all_lem 0 2 true (7 ∷ 8 ∷ 9 ∷ [])

recent-snapshot_example : recent 0 two_samples 5 ≡ 8 ∷ 7 ∷ []
unfolding snapshot snapshot_from
recent-snapshot_example = recent-snapshot 0 5 two_samples-IsValid
