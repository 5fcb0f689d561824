-- ===== src/Samples.antt =====
-- Concrete data that the tests run on: integers in place of doubles, a transport that is not
-- connected, reads registers as zeros and times out on all else, and a project of one endpoint.
use opc_server.Prelude.{
  ℕ, refl, [], ◌∷◌, none, some, not, ◌&&◌, true, false, String, replicate, arith,
}
use opc_server.Prelude.Int.{ℤ, pos, ◌+ℤ◌, ◌-ℤ◌, ◌*ℤ◌, ltb_ℤ}
use opc_server.Domain.{Result, Error, ErrorCode, make_error}
use opc_server.Project.{
  Project, Tag, TagType, Area, Device, Endpoint, Transport, SecurityPolicy, SecurityMode,
}
use opc_server.Platform.{Floats, IntegerLaws}
use opc_server.Index.{TagBinding, RuntimeIndex, new_binding}
use opc_server.TagStore.{TagStore}
use opc_server.Dispatcher.State.{Env, State, Ports}

abbrev pub ints : Floats
ints = record {
  F32 = ℤ;
  F64 = ℤ;
  add = λ a b. a +ℤ b;
  sub = λ a b. a -ℤ b;
  mul = λ a b. a *ℤ b;
  div = λ a b. a;
  abs = λ a. a;
  round = λ a. a;
  is_finite = λ a. true;
  less = λ a b. ltb_ℤ a b;
  equal = λ a b. not (ltb_ℤ a b) && not (ltb_ℤ b a);
  of_int = λ a. a;
  to_int = λ a. a;
  widen = λ a. a;
  narrow = λ a. a;
  max_f32 = pos 0;
  bits32 = λ a. 0;
  of_bits32 = λ n. pos n;
  bits64 = λ a. 0;
  of_bits64 = λ n. pos n;
}

pub ints_laws : IntegerLaws ints
unfolding ◌+ℤ◌ ◌-ℤ◌ ◌*ℤ◌
ints_laws = record {
  finite = λ n h. refl;
  rounds = λ n h. refl;
  back = λ n h. refl;
  ordered = λ a b h k. refl;
  one_ne_zero = refl;
  mul_one = λ n h. ground arith;
  add_zero = λ n h. ground arith;
  sub_zero = λ n h. ground arith;
  div_one = λ n h. refl;
}

-- A writable tag with scale 1 and offset 0, of an area, address and type.
abbrev pub tag_of : String → Area → ℕ → TagType → Tag ℤ
tag_of name area address type = record {
  name = name;
  node_path = "";
  area = area;
  address = pos address;
  type = type;
  quantity = none;
  byte_order = "";
  scale = pos 1;
  offset = pos 0;
  unit = "";
  writable = true;
  group = "";
  description = "";
}

-- A float64 tag whose quantity is 2.
abbrev pub short_tag : Tag ℤ
short_tag = record (tag_of "energy" Area.holding 20 TagType.float64) { quantity = some (pos 2) }

abbrev pub level : Tag ℤ
level = tag_of "level" Area.holding 10 TagType.uint16

abbrev pub pump : Tag ℤ
pump = tag_of "pump" Area.coil 5 TagType.bool

-- The coil after `pump`, of a type that an unset value has no encoding for.
abbrev pub valve : Tag ℤ
valve = tag_of "valve" Area.coil 6 TagType.uint16

abbrev pub plc : Device ℤ
plc = record {
  id = "plc";
  endpoint_id = "line";
  unit_id = pos 3;
  profile_id = "";
  description = "";
  tags = level ∷ pump ∷ valve ∷ [];
}

abbrev pub line : Endpoint
line = record {
  id = "line";
  host = "10.0.0.1";
  port = 502;
  transport = Transport.tcp;
  connect_timeout_ms = pos 1000;
  response_timeout_ms = pos 1000;
  reconnect_delay_ms = pos 1000;
}

abbrev pub plant : Project ℤ
plant = record {
  schema_version = pos 1;
  name = "plant";
  description = "";
  address_base = pos 0;
  opcua = record {
    endpoint_url = "";
    application_name = "";
    security_policy = SecurityPolicy.none;
    security_mode = SecurityMode.none;
    namespace_uri = "";
    users = [];
    allow_anonymous = true;
    allow_none_password = false;
    allow_certificate_identity = false;
    allow_none_certificate = false;
  };
  endpoints = line ∷ [];
  device_profiles = [];
  devices = plc ∷ [];
  poll_groups = [];
}

abbrev pub level_binding : TagBinding ℤ
level_binding = new_binding plc 1 level

abbrev pub pump_binding : TagBinding ℤ
pump_binding = new_binding plc 2 pump

abbrev pub valve_binding : TagBinding ℤ
valve_binding = new_binding plc 3 valve

abbrev pub plant_index : RuntimeIndex ℤ
plant_index = record {
  project = plant;
  tags = level_binding ∷ pump_binding ∷ valve_binding ∷ [];
  by_id = (1, 0) ∷ (2, 1) ∷ (3, 2) ∷ [];
  by_name = ("level", 0) ∷ ("pump", 1) ∷ ("valve", 2) ∷ [];
}

abbrev pub no_answer : Error
no_answer = make_error ErrorCode.timeout "no answer" "transport" true

-- A transport that reads registers as zeros, and times out on all else; a clock that stands.
abbrev pub zeros : Ports ℕ
zeros = record {
  now_ms = λ w. (pos 1000, w);
  is_connected = λ t w. false;
  connect = λ t address w. (Result.err no_answer, w);
  read_holding_registers = λ t unit addr qty w. (Result.ok (replicate qty 0), w);
  read_input_registers = λ t unit addr qty w. (Result.ok (replicate qty 0), w);
  read_coils = λ t unit addr qty w. (Result.err no_answer, w);
  read_discrete_inputs = λ t unit addr qty w. (Result.err no_answer, w);
  write_single_register = λ t unit addr v w. (Result.err no_answer, w);
  write_multiple_registers = λ t unit addr vs w. (Result.err no_answer, w);
  write_single_coil = λ t unit addr v w. (Result.err no_answer, w);
  write_multiple_coils = λ t unit addr vs w. (Result.err no_answer, w);
}

abbrev pub bench : Env ints
bench = record { H = ℕ; W = ℕ; ports = zeros; undefined = λ tag regs. Result.err no_answer }

abbrev pub empty_store : {V : Type 0} → TagStore V ℕ
empty_store = record { values = []; subscribers = []; next_subscription = 1; delivered = [] }

abbrev pub started : State bench
started = record {
  index = plant_index;
  has_tag_store = true;
  has_clock = true;
  has_metrics = true;
  store = empty_store;
  metrics = [];
  transports = ("line", some 7) ∷ [];
  last_poll_ms = [];
  write_queues = [];
  world = 0;
}
