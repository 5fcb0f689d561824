-- ===== src/Dispatcher/PollTag.antt =====
-- poll_tag, and poll_tag_async where the transport completes inline: the result is what `done` is
-- called with.
use opc_server.Prelude.{ℕ, List, none, Bool, not, ◌||◌, if◌then◌else◌, map}
use opc_server.Prelude.Int.{ℤ, pos, ◌-ℤ◌, to_unsigned}
use opc_server.Domain.{good, bad, QualityReason, TagValue, Result, Error, ErrorCode, value_or}
use opc_server.Project.{Tag, TagType, Area}
use opc_server.Platform.{Floats}
use opc_server.Index.{TagBinding}
use opc_server.TagStore
use opc_server.Translator.Codec.{Scalar, decode}
use opc_server.Dispatcher.State.{
  State, Env, MetricEvent, emit, publish_quality, dispatcher_error, transport_error,
}

abbrev pub default_count : TagType → ℕ
default_count TagType.bool = 1
default_count TagType.uint16 = 1
default_count TagType.int16 = 1
default_count TagType.uint32 = 2
default_count TagType.int32 = 2
default_count TagType.float32 = 2
default_count TagType.float64 = 4

unfoldable pub regs_for : {F64 : Type 0} → Tag F64 → ℤ
regs_for tag = value_or tag.quantity (pos (default_count tag.type))

-- The reason that an error of reading registers is published with.
abbrev pub reason_for : ErrorCode → QualityReason
reason_for ErrorCode.timeout = QualityReason.timeout
reason_for ErrorCode.modbus_exception = QualityReason.modbus_exception
reason_for _ = QualityReason.no_communication

abbrev pub as_regs : List Bool → List ℕ
as_regs = map (λ b. if b then 1 else 0)

-- What came of the transport's call: registers, bits read as registers, or why bits were not read.
pub data Reading : Type 0 where
  registers : Result (List ℕ) → Reading
  bits_failed : Error → Reading

abbrev pub of_bits : Result (List Bool) → Reading
of_bits (Result.err e) = bits_failed e
of_bits (Result.ok bs) = registers (Result.ok (as_regs bs))

module _ {fl : Floats} (env : Env fl) where
  open env use {W, ports, undefined}

  unfoldable pub read_area : Area → ℕ → ℕ → ℕ → ℕ → W → Reading × W
  read_area Area.holding t unit addr qty w =
      let (r, w') = ports.read_holding_registers t unit addr qty w in (registers r, w')
  read_area Area.input t unit addr qty w =
      let (r, w') = ports.read_input_registers t unit addr qty w in (registers r, w')
  read_area Area.coil t unit addr qty w =
      let (r, w') = ports.read_coils t unit addr qty w in (of_bits r, w')
  read_area Area.discrete t unit addr qty w =
      let (r, w') = ports.read_discrete_inputs t unit addr qty w in (of_bits r, w')

  -- The clock is read again only for a metrics port.
  unfoldable pub observe_rtt : State env → ℤ → State env
  observe_rtt s t0 =
      let (t1, w) = ports.now_ms s.world in
      emit (record s { world = if s.has_metrics then w else s.world })
        (MetricEvent.histogram_observe "modbus_poll_rtt_ms" (t1 -ℤ t0))

  unfoldable pub decode_regs : Tag fl.F64 → List ℕ → Result (Scalar fl)
  decode_regs tag regs = value_or (decode fl tag regs) (undefined tag regs)

  abbrev pub good_value : ℤ → Scalar fl → TagValue (Scalar fl)
  good_value now v = record {
    value = v;
    quality = good;
    reason = QualityReason.no_reason;
    source_ts = now;
    server_ts = now;
    epoch = 0;
  }

  abbrev pub count_error : State env → State env
  count_error s = emit s (MetricEvent.counter_add "modbus_poll_errors_total")

  unfoldable pub finish_decoded :
      State env → ℕ → ℤ → Result (Scalar fl) → Result (Unit {0}) × State env
  finish_decoded s id now (Result.err e) =
      (Result.err e, publish_quality s id bad QualityReason.decoding_error now none)
  finish_decoded s id now (Result.ok v) =
      (Result.ok tt, record s { store = TagStore.publish s.store id (good_value now v) })

  unfoldable pub finish_reading :
      State env → TagBinding fl.F64 → ℤ → Reading → Result (Unit {0}) × State env
  finish_reading s b now (bits_failed e) = (
    Result.err (transport_error e),
    count_error (publish_quality s b.id bad QualityReason.no_communication now none),
  )
  finish_reading s b now (registers (Result.err e)) = (
    Result.err (transport_error e),
    count_error (publish_quality s b.id bad (reason_for e.code) now none),
  )
  finish_reading s b now (registers (Result.ok regs)) =
      finish_decoded s b.id now (decode_regs b.tag regs)

  unfoldable pub poll_tag : State env → TagBinding fl.F64 → ℕ → ℤ → Result (Unit {0}) × State env
  poll_tag s b transport now =
      let qty = to_unsigned (regs_for b.tag) 0x10000 in
      let addr = to_unsigned b.tag.address 0x10000 in
      let (t0, w0) = ports.now_ms s.world in
      let (reading, w1) = read_area b.tag.area transport b.unit_id addr qty w0 in
      if not s.has_tag_store || not s.has_clock
      then (Result.err (dispatcher_error ErrorCode.internal "missing tag_store/clock"), s)
      else finish_reading (observe_rtt (record s { world = w1 }) t0) b now reading

  -- finish_regs of poll_tag_async, on the state after the read: what is decoded, or why not.
  unfoldable pub store_decoded :
      State env → TagBinding fl.F64 → ℤ → Result (Scalar fl) → Result (Unit {0}) × State env
  store_decoded s b now (Result.err e) =
      (Result.err e, publish_quality s b.id bad QualityReason.decoding_error now none)
  store_decoded s b now (Result.ok decoded) =
      let value : TagValue (Scalar fl) = record {
        value = decoded;
        quality = good;
        reason = QualityReason.no_reason;
        server_ts = now;
        source_ts = now;
        epoch = 0;
      } in
      (Result.ok tt, record s { store = TagStore.publish s.store b.id value })

  unfoldable pub store_regs :
      State env → TagBinding fl.F64 → ℤ → Result (List ℕ) → Result (Unit {0}) × State env
  store_regs s b now (Result.err e) = (
    Result.err (transport_error e),
    count_error (publish_quality s b.id bad (reason_for e.code) now none),
  )
  store_regs s b now (Result.ok regs) = store_decoded s b now (decode_regs b.tag regs)

  unfoldable pub finish_regs :
      State env → TagBinding fl.F64 → ℤ → ℤ → Result (List ℕ) × W → Result (Unit {0}) × State env
  finish_regs s b now t0 (regs, w) =
      let after = record s { world = w } in
      let (t1, w') = ports.now_ms w in
      let timed =
        emit (record after { world = if s.has_metrics then w' else w })
          (MetricEvent.histogram_observe "modbus_poll_rtt_ms" (t1 -ℤ t0)) in
      store_regs timed b now regs

  -- The completion that reading bits has: an error goes to finish_regs, and bits as registers.
  abbrev pub regs_of : Result (List Bool) × W → Result (List ℕ) × W
  regs_of (Result.err e, w) = (Result.err e, w)
  regs_of (Result.ok bs, w) = (Result.ok (as_regs bs), w)

  -- The transport's asynchronous call for an area, which completes inline.
  unfoldable pub async_read :
      Area
      → ℕ
      → ℕ
      → ℕ
      → ℕ
      → W
      → (Result (List ℕ) × W → Result (Unit {0}) × State env)
      → Result (Unit {0}) × State env
  async_read Area.holding t unit addr qty w done =
      done (ports.read_holding_registers t unit addr qty w)
  async_read Area.input t unit addr qty w done = done (ports.read_input_registers t unit addr qty w)
  async_read Area.coil t unit addr qty w done = done (regs_of (ports.read_coils t unit addr qty w))
  async_read Area.discrete t unit addr qty w done =
      done (regs_of (ports.read_discrete_inputs t unit addr qty w))

  unfoldable pub poll_tag_async :
      State env → TagBinding fl.F64 → ℕ → ℤ → Result (Unit {0}) × State env
  poll_tag_async s b transport now =
      let qty = to_unsigned (regs_for b.tag) 0x10000 in
      let addr = to_unsigned b.tag.address 0x10000 in
      let (t0, w0) = ports.now_ms s.world in
      if not s.has_tag_store || not s.has_clock
      then (Result.err (dispatcher_error ErrorCode.internal "missing tag_store/clock"), s)
      else async_read b.tag.area transport b.unit_id addr qty w0 (finish_regs s b now t0)
