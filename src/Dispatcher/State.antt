-- ===== src/Dispatcher/State.antt =====
-- The dispatcher's state and ports. Every transport is named by a number, its pointer; what the
-- transports and the clock do is a parameter, over a world W that they change. Metrics are the
-- list of events that were sent to the port, if one is wired. Spans only report, and are left out.
use opc_server.Prelude.{ℕ, List, [], ◌∷◌, ◌++◌, Option, none, some, Bool, String, if◌then◌else◌}
use opc_server.Prelude.Int.{ℤ}
use opc_server.Prelude.Eq.{◌=?◌, string_eq, nat_eq}
use opc_server.Prelude.Map.{lookup, insert}
use opc_server.Domain.{
  Quality, QualityReason, TagValue, Result, Error, ErrorCode, ScalarValue, with_quality, make_error,
}
use opc_server.Project.{Tag}
use opc_server.Platform.{Floats}
use opc_server.Index.{RuntimeIndex}
use opc_server.TagStore
use opc_server.TagStore.{TagStore}
use opc_server.Translator.Codec.{Scalar}

pub record EndpointAddress : Type 0 where
  pub host : String
  pub port : ℕ

-- IModbusTransport and IClock. The first number is the transport, the next the unit, the address,
-- and the quantity or the value.
pub record Ports (W : Type 0) : Type 0 where
  pub now_ms : W → ℤ × W
  pub is_connected : ℕ → W → Bool
  pub connect : ℕ → EndpointAddress → W → Result (Unit {0}) × W
  pub read_holding_registers : ℕ → ℕ → ℕ → ℕ → W → Result (List ℕ) × W
  pub read_input_registers : ℕ → ℕ → ℕ → ℕ → W → Result (List ℕ) × W
  pub read_coils : ℕ → ℕ → ℕ → ℕ → W → Result (List Bool) × W
  pub read_discrete_inputs : ℕ → ℕ → ℕ → ℕ → W → Result (List Bool) × W
  pub write_single_register : ℕ → ℕ → ℕ → ℕ → W → Result (Unit {0}) × W
  pub write_multiple_registers : ℕ → ℕ → ℕ → List ℕ → W → Result (Unit {0}) × W
  pub write_single_coil : ℕ → ℕ → ℕ → Bool → W → Result (Unit {0}) × W
  pub write_multiple_coils : ℕ → ℕ → ℕ → List ℕ → W → Result (Unit {0}) × W

pub data MetricEvent : Type 0 where
  counter_add : String → MetricEvent
  gauge_set : String → ℕ → MetricEvent
  histogram_observe : String → ℤ → MetricEvent

pub record PendingWrite (V : Type 0) : Type 0 where
  pub tag_id : ℕ
  pub value : V

pub record Dispatcher (fl : Floats) (H W : Type 0) : Type 0 where
  pub index : RuntimeIndex fl.F64
  pub has_tag_store : Bool
  pub has_clock : Bool
  pub has_metrics : Bool
  pub store : TagStore (Scalar fl) H
  pub metrics : List MetricEvent
  pub transports : List (String × Option ℕ)
  pub last_poll_ms : List (String × ℤ)
  pub write_queues : List (String × List (PendingWrite (Scalar fl)))
  pub world : W

abbrev pub dispatcher_error : ErrorCode → String → Error
dispatcher_error code message = make_error code message "core.dispatcher" Bool.false

unfoldable pub transport_error : Error → Error
transport_error e = if e.component =? "" then record e { component = "core.dispatcher" } else e

abbrev pub with_value : {V : Type 0} → Option V → ℤ → TagValue V → TagValue V
with_value none now v = v
with_value (some x) now v = record v { value = x; source_ts = now }

-- The pointer bound to an endpoint, if there is one and it is not null.
abbrev pub join : Option (Option ℕ) → Option ℕ
join none = none
join (some t) = t

-- The platform that the dispatcher runs on: the type of change handlers, the world, the ports, and
-- what reading registers out of range would make of decoding, which C++ leaves undefined.
pub record Env (fl : Floats) : Type 1 where
  pub H : Type 0
  pub W : Type 0
  pub ports : Ports W
  pub undefined : Tag fl.F64 → List ℕ → Result (Scalar fl)

abbrev pub State : {fl : Floats} → Env fl → Type 0
State {fl} env = Dispatcher fl env.H env.W

module _ {fl : Floats} {H W : Type 0} where
  -- A metric event, if a metrics port is wired.
  abbrev pub emit : Dispatcher fl H W → MetricEvent → Dispatcher fl H W
  emit s e = record s { metrics = if s.has_metrics then s.metrics ++ e ∷ [] else s.metrics }

  unfoldable pub publish_quality :
      Dispatcher fl H W → ℕ → Quality → QualityReason → ℤ → Option (Scalar fl) → Dispatcher fl H W
  publish_quality s id q why now v =
      let next =
        with_value v now (with_quality ScalarValue.monostate (TagStore.get s.store id) q why now) in
      record s { store = if s.has_tag_store then TagStore.publish s.store id next else s.store }

  unfoldable pub bind_transport : Dispatcher fl H W → String → Option ℕ → Dispatcher fl H W
  bind_transport s endpoint_id transport = record s {
    transports = insert endpoint_id transport s.transports;
  }

  abbrev pub transport_of : Dispatcher fl H W → String → Option ℕ
  transport_of s endpoint_id = join (lookup endpoint_id s.transports)
