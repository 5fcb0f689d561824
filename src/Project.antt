-- ===== src/Project.antt =====
-- Src/project/types.hpp: the project file's data. An `int` is an integer; `scale` and `offset` are
-- values of F64, the platform's double.
pub mod Expand
pub mod Validate
pub mod Accepted
use opc_server.Prelude.{ℕ, Bool, List, Option, String}
use opc_server.Prelude.Int.{ℤ}

pub data Transport : Type 0 where
  tcp udp : Transport

pub data SecurityPolicy : Type 0 where
  none basic256_sha256 : SecurityPolicy

pub data SecurityMode : Type 0 where
  none sign sign_and_encrypt : SecurityMode

pub data Area : Type 0 where
  holding input coil discrete : Area

pub data TagType : Type 0 where
  bool uint16 int16 uint32 int32 float32 float64 : TagType

pub data Priority : Type 0 where
  fast normal slow : Priority

pub record OpcUaUser : Type 0 where
  pub username : String
  pub password : String

pub record OpcUaSettings : Type 0 where
  pub endpoint_url : String
  pub application_name : String
  pub security_policy : SecurityPolicy
  pub security_mode : SecurityMode
  pub namespace_uri : String
  pub users : List OpcUaUser
  pub allow_anonymous : Bool
  pub allow_none_password : Bool
  pub allow_certificate_identity : Bool
  pub allow_none_certificate : Bool

pub record Endpoint : Type 0 where
  pub id : String
  pub host : String
  pub port : ℕ
  pub transport : Transport
  pub connect_timeout_ms : ℤ
  pub response_timeout_ms : ℤ
  pub reconnect_delay_ms : ℤ

pub record Tag (F64 : Type 0) : Type 0 where
  pub name : String
  pub node_path : String
  pub area : Area
  pub address : ℤ
  pub type : TagType
  pub quantity : Option ℤ
  pub byte_order : String
  pub scale : F64
  pub offset : F64
  pub unit : String
  pub writable : Bool
  pub group : String
  pub description : String

pub record DeviceProfile (F64 : Type 0) : Type 0 where
  pub id : String
  pub name : String
  pub vendor : String
  pub description : String
  pub tags : List (Tag F64)

pub record Device (F64 : Type 0) : Type 0 where
  pub id : String
  pub endpoint_id : String
  pub unit_id : ℤ
  pub profile_id : String
  pub description : String
  pub tags : List (Tag F64)

pub record RegisterBlock : Type 0 where
  pub area : Area
  pub start : ℤ
  pub count : ℤ
  pub description : String

pub record PollGroup : Type 0 where
  pub id : String
  pub period_ms : ℤ
  pub priority : Priority
  pub device_id : String
  pub blocks : List RegisterBlock
  pub tag_names : List String

pub record Project (F64 : Type 0) : Type 0 where
  pub schema_version : ℤ
  pub name : String
  pub description : String
  pub address_base : ℤ
  pub opcua : OpcUaSettings
  pub endpoints : List Endpoint
  pub device_profiles : List (DeviceProfile F64)
  pub devices : List (Device F64)
  pub poll_groups : List PollGroup
