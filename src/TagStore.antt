-- ===== src/TagStore.antt =====
-- Src/core/tag_store: the last value of each tag, and the handlers that are told of changes. The
-- mutex makes each access of the maps one step; handlers run after it, on the handlers copied under
-- it. V is the type of scalar values and H that of handlers, which the store only calls:
-- `delivered` lists these calls, the oldest first.
pub mod Laws
mod Tests
use opc_server.Prelude.{
  ℕ, suc, ◌+◌, List, [], ◌∷◌, ◌++◌, map, Option, Bool, ◌&&◌, true, false, if◌then◌else◌,
}
use opc_server.Prelude.Int.{ℤ, ltb_ℤ}
use opc_server.Prelude.Eq.{nat_eq}
use opc_server.Prelude.Map.{lookup, insert, emplace, erase}
use opc_server.Domain.{Quality, good, uncertain, bad, QualityReason, TagValue}

pub record Delivery (V H : Type 0) : Type 0 where
  pub handler : H
  pub id : ℕ
  pub value : TagValue V

pub record TagStore (V H : Type 0) : Type 0 where
  pub values : List (ℕ × TagValue V)
  pub subscribers : List (ℕ × H)
  pub next_subscription : ℕ
  pub delivered : List (Delivery V H)

abbrev pub is_good : Quality → Bool
is_good good = true
is_good _ = false

abbrev pub is_stale : {V : Type 0} → ℤ → TagValue V → Bool
is_stale cutoff v = is_good v.quality && ltb_ℤ v.server_ts cutoff

abbrev pub to_stale : {V : Type 0} → QualityReason → TagValue V → TagValue V
to_stale why v = record v { quality = uncertain; reason = why }

-- The first loop: the values after it, and `changed`.
unfoldable pub stale_pass :
    {V : Type 0}
    → ℤ
    → QualityReason
    → List (ℕ × TagValue V)
    → List (ℕ × TagValue V) × List (ℕ × TagValue V)
stale_pass cutoff why [] = ([], [])
stale_pass cutoff why ((id, v) ∷ m) =
    let (rest, changed) = stale_pass cutoff why m in
    let v' = to_stale why v in
    if is_stale cutoff v then ((id, v') ∷ rest, (id, v') ∷ changed) else ((id, v) ∷ rest, changed)

module _ {V H : Type 0} where
  -- Calls every handler with one value.
  unfoldable pub notify : List (ℕ × H) → ℕ → TagValue V → List (Delivery V H)
  notify [] id v = []
  notify ((_, h) ∷ hs) id v = record { handler = h; id = id; value = v } ∷ notify hs id v

  unfoldable pub publish : TagStore V H → ℕ → TagValue V → TagStore V H
  publish s id v = record s {
    values = insert id v s.values;
    delivered = s.delivered ++ notify s.subscribers id v;
  }

  unfoldable pub get : TagStore V H → ℕ → Option (TagValue V)
  get s id = lookup id s.values

  unfoldable pub subscribe : TagStore V H → H → ℕ × TagStore V H
  subscribe s h = (
    s.next_subscription,
    record s {
      next_subscription = s.next_subscription + 1;
      subscribers = emplace s.next_subscription h s.subscribers;
    },
  )

  unfoldable pub unsubscribe : TagStore V H → ℕ → TagStore V H
  unsubscribe s id = record s { subscribers = erase id s.subscribers }

  -- The second loop.
  unfoldable pub notify_all : List (ℕ × H) → List (ℕ × TagValue V) → List (Delivery V H)
  notify_all hs [] = []
  notify_all hs ((id, v) ∷ changed) = notify hs id v ++ notify_all hs changed

  unfoldable pub mark_stale_before : TagStore V H → ℤ → QualityReason → TagStore V H
  mark_stale_before s cutoff why =
      let (values', changed) = stale_pass cutoff why s.values in
      record s { values = values'; delivered = s.delivered ++ notify_all s.subscribers changed }
