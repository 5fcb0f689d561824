-- ===== src/Historian/Ring.antt =====
-- The class RingHistorian of Src/adapters/ring_historian.cpp and .hpp.
pub mod Valid
pub mod Window
pub mod Refine
pub mod Recent
mod Tests
use opc_server.Prelude.{
  ℕ, zero, suc, ◌+◌, ◌-◌, ◌%◌, ◌≡◌, min, List, [], ◌∷◌, Option, none, some, Bool, if◌then◌else◌,
  ◌==◌, get_or, set, replicate,
}

pub record RingHistorian (S : Type 0) : Type 0 where
  pub capacity : ℕ
  pub has_metrics : Bool
  pub dropped_metric : ℕ
  pub buffer : List S
  pub head : ℕ
  pub count : ℕ
  pub dropped : ℕ

-- `blank` is `HistorianSample{}`, of which `resize` makes the cells and which an index out of the
-- buffer would read.
module _ {S : Type 0} (blank : S) where
  pub init : ℕ → Bool → RingHistorian S
  init capacity metrics =
      let cap = if capacity == 0 then 1 else capacity in
      record {
        capacity = cap;
        has_metrics = metrics;
        dropped_metric = 0;
        buffer = replicate cap blank;
        head = 0;
        count = 0;
        dropped = 0;
      }

  pub record_sample : RingHistorian S → S → RingHistorian S
  record_sample r s =
      let full = r.count == r.capacity in
      record r {
        dropped = if full then r.dropped + 1 else r.dropped;
        dropped_metric =
            if full
            then (if r.has_metrics then r.dropped_metric + 1 else r.dropped_metric)
            else r.dropped_metric;
        count = if full then r.count else r.count + 1;
        buffer = set r.buffer r.head s;
        head = (r.head + 1) % r.capacity;
      }

  -- `for (i = 0; i < n; ++i)`, with `n` the rounds left.
  pub recent_from : RingHistorian S → ℕ → ℕ → List S
  recent_from r zero i = []
  recent_from r (suc n) i =
      get_or r.buffer ((r.head + r.capacity - 1 - i) % r.capacity) blank ∷ recent_from r n (i + 1)

  pub recent : RingHistorian S → ℕ → List S
  unfolding recent_from
  recent r max = recent_from r (min max r.count) 0

  pub snapshot_from : RingHistorian S → ℕ → ℕ → ℕ → List S
  snapshot_from r oldest zero i = []
  snapshot_from r oldest (suc n) i =
      get_or r.buffer ((oldest + i) % r.capacity) blank ∷ snapshot_from r oldest n (i + 1)

  pub snapshot : RingHistorian S → List S
  unfolding snapshot_from
  snapshot r = snapshot_from r ((r.head + r.capacity - r.count) % r.capacity) r.count 0

  pub size : RingHistorian S → ℕ
  size r = r.count

  -- What has been recorded in order, and then asked for.
  pub record_all : RingHistorian S → List S → RingHistorian S
  record_all r [] = r
  record_all r (s ∷ ss) = record_all (record_sample r s) ss
