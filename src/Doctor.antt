-- ===== src/Doctor.antt =====
-- Src/core/runtime_doctor: what is wrong with the tags of an index, by the values of the tag store.
-- A count is at most the number of tags, and is a natural number.
pub mod Laws
mod Tests
use opc_server.Prelude.{ℕ, suc, List, [], ◌∷◌, ◌++◌, Option, none, some, String}
use opc_server.Prelude.Text.{concat}
use opc_server.Domain.{Quality, QualityReason, TagValue}
use opc_server.Index.{RuntimeIndex, TagBinding}
use opc_server.TagStore.{TagStore, get}

pub data FindingSeverity : Type 0 where
  error warning : FindingSeverity

pub record RuntimeDoctorFinding : Type 0 where
  pub severity : FindingSeverity
  pub tag_name : String
  pub message : String

pub record RuntimeDoctorReport : Type 0 where
  pub findings : List RuntimeDoctorFinding
  pub warning_count : ℕ
  pub error_count : ℕ

unfoldable pub quality_name : Quality → String
quality_name Quality.good = "Good"
quality_name Quality.uncertain = "Uncertain"
quality_name Quality.bad = "Bad"

unfoldable pub reason_name : QualityReason → String
reason_name QualityReason.no_reason = "None"
reason_name QualityReason.no_communication = "NoCommunication"
reason_name QualityReason.device_failure = "DeviceFailure"
reason_name QualityReason.timeout = "Timeout"
reason_name QualityReason.modbus_exception = "ModbusException"
reason_name QualityReason.decoding_error = "DecodingError"
reason_name QualityReason.stale = "Stale"
reason_name QualityReason.write_pending = "WritePending"
reason_name QualityReason.write_rejected = "WriteRejected"
reason_name QualityReason.out_of_range = "OutOfRange"

unfoldable pub add_finding :
    RuntimeDoctorReport → FindingSeverity → String → String → RuntimeDoctorReport
add_finding report severity tag_name message =
    let counted : RuntimeDoctorReport = elim severity [
      | FindingSeverity.error ↦ record report { error_count = suc report.error_count }
      | FindingSeverity.warning ↦ record report { warning_count = suc report.warning_count }
    ] in
    record counted {
      findings =
          report.findings
          ++ record { severity = severity; tag_name = tag_name; message = message } ∷ [];
    }

abbrev pub quality_message : Quality → QualityReason → String
quality_message q r =
    concat "quality " (concat (quality_name q) (concat " (" (concat (reason_name r) ")")))

-- The loop's body from the test for Good on.
unfoldable pub examine_quality :
    RuntimeDoctorReport → String → Quality → QualityReason → RuntimeDoctorReport
examine_quality report name Quality.good r = report
examine_quality report name Quality.uncertain r =
    add_finding report FindingSeverity.warning name (quality_message Quality.uncertain r)
examine_quality report name Quality.bad r =
    add_finding report FindingSeverity.error name (quality_message Quality.bad r)

-- The loop's body, on what the store has of the tag.
unfoldable pub examine :
    {V : Type 0} → RuntimeDoctorReport → String → Option (TagValue V) → RuntimeDoctorReport
examine report name none =
    add_finding report FindingSeverity.error name "tag never published (missing from TagStore)"
examine report name (some value) = examine_quality report name value.quality value.reason

module _ {F64 V H : Type 0} where
  unfoldable pub examine_all :
      RuntimeDoctorReport → List (TagBinding F64) → TagStore V H → RuntimeDoctorReport
  examine_all report [] store = report
  examine_all report (binding ∷ bindings) store =
      examine_all (examine report binding.tag.name (get store binding.id)) bindings store

  unfoldable pub runtime_doctor : RuntimeIndex F64 → TagStore V H → RuntimeDoctorReport
  runtime_doctor index store =
      examine_all (record { findings = []; warning_count = 0; error_count = 0 }) index.tags store
