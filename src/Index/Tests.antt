-- ===== src/Index/Tests.antt =====
-- The index's theorem at a project of one device.
use mathlib.Core.Option
use opc_server.Prelude.{
  ℕ, suc, ◌≡◌, map, none, some, if◌then◌else◌, ltb, String, length, get_elem?, arith,
}
use opc_server.Prelude.Int.{ℤ}
use opc_server.Samples.{plant}
use opc_server.Index.{RuntimeIndex, build, find_by_id, find_by_name}
use opc_server.Index.Laws.{build_lem, origin, origins, first_binding}

abbrev built : RuntimeIndex ℤ
built = build plant

build_lem_example :
    (built.project ≡ plant)
    × (map origin built.tags ≡ origins plant.devices)
    × ((i : ℕ)
        → Option.map (λ b. b.id) (get_elem? built.tags i)
          ≡ (if ltb i (length built.tags) then some (suc i) else none))
    × ((i : ℕ) → find_by_id built (suc i) ≡ get_elem? built.tags i)
    × (find_by_id built 0 ≡ none)
    × ((n : String) → find_by_name built n ≡ first_binding n built.tags)
build_lem_example = build_lem plant (omega arith)
