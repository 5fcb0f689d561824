-- ===== src/TagStore/Tests.antt =====
-- The tag store's theorems at a concrete store.
use opc_server.Prelude.{ℕ, ◌≡◌, ◌++◌, List, [], ◌∷◌, arith}
use opc_server.Prelude.Int.{pos}
use opc_server.Prelude.Eq.{nat_eq}
use opc_server.Prelude.Map.{lookup}
use opc_server.Domain.{good, QualityReason, TagValue}
use opc_server.TagStore.{TagStore, Delivery, get, subscribe, mark_stale_before}
use opc_server.TagStore.Laws.{mark_stale_before_lem, IsFresh, Ages, Calls}

abbrev reading : TagValue ℕ
reading = record {
  value = 42;
  quality = good;
  reason = QualityReason.no_reason;
  source_ts = pos 10;
  server_ts = pos 10;
  epoch = 0;
}

-- One value and one subscriber.
abbrev watched : TagStore ℕ ℕ
watched = record {
  values = (5, reading) ∷ [];
  subscribers = (1, 77) ∷ [];
  next_subscription = 2;
  delivered = [];
}

watched-IsFresh : IsFresh watched
unfolding lookup
watched-IsFresh id h = ground arith

abbrev after_stale : TagStore ℕ ℕ
after_stale = mark_stale_before watched (pos 20) QualityReason.stale

mark_stale_before_lem_example :
    ((j : ℕ) → Ages (pos 20) QualityReason.stale (get watched j) (get after_stale j))
    × ((ds : List (Delivery ℕ ℕ)) × (after_stale.delivered ≡ watched.delivered ++ ds)
        × Calls watched.subscribers (pos 20) QualityReason.stale watched.values ds)
    × (after_stale.subscribers ≡ watched.subscribers)
mark_stale_before_lem_example = mark_stale_before_lem watched (pos 20) QualityReason.stale

abbrev subscribed : TagStore ℕ ℕ
subscribed = (subscribe watched 88).1
