-- ===== src/Doctor/Tests.antt =====
-- The runtime doctor at the sample index, where one tag is Good and two have no value.
use opc_server.Prelude.{ℕ, ◌≡◌, [], ◌∷◌, map}
use opc_server.Prelude.Int.{pos}
use opc_server.Domain.{Quality, QualityReason}
use opc_server.TagStore.{TagStore}
use opc_server.Doctor.{runtime_doctor}
use opc_server.Doctor.Laws.{named, troubles, total, errors, warnings, runtime_doctor_lem}
use opc_server.Samples.{plant_index, empty_store}

abbrev one_good : TagStore ℕ ℕ
one_good = record empty_store {
  values =
      (
        2,
        record {
          value = 5;
          quality = Quality.good;
          reason = QualityReason.no_reason;
          source_ts = pos 9;
          server_ts = pos 9;
          epoch = 0;
        },
      )
      ∷ [];
}

runtime_doctor_lem_example :
    (map named (runtime_doctor plant_index one_good).findings ≡ troubles plant_index.tags one_good)
    × ((runtime_doctor plant_index one_good).error_count
        ≡ total errors (troubles plant_index.tags one_good))
    × ((runtime_doctor plant_index one_good).warning_count
        ≡ total warnings (troubles plant_index.tags one_good))
runtime_doctor_lem_example = runtime_doctor_lem plant_index one_good
