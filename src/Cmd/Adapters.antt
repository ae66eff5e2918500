-- ===== src/Cmd/Adapters.antt =====
-- cmd/weron/cmd/{chat,vpn_ip,vpn_ethernet,utility_latency,utility_throughput}.go: the values of the
-- flags, and the adapters that the commands open. Durations and sizes are Go integers.
use weron.Prelude.{String, Bool, List}
use weron.Prelude.Int64.{ℤ}

-- What `viper` holds for the flags.
pub record Flags : Type 0 where
  pub raddr : String
  pub community : String
  pub password : String
  pub key : String
  pub names : List String
  pub channels : List String
  pub ice : List String
  pub ips : List String
  pub id_channel : String
  pub dev : String
  pub mac : String
  pub timeout : ℤ
  pub kicks : ℤ
  pub max_retries : ℤ
  pub parallel : ℤ
  pub packet_length : ℤ
  pub packet_count : ℤ
  pub pause : ℤ
  pub force_relay : Bool
  pub static : Bool
  pub server : Bool

pub data CmdError : Type 0 where
  no_community no_password no_key no_usernames no_ips invalid_cidr invalid_url : CmdError

-- The arguments that every adapter takes.
pub record Dial : Type 0 where
  pub signaler : String
  pub key : String
  pub ice : List String
  pub timeout : ℤ
  pub force_relay : Bool

pub data Adapter : Type 0 where
  chat_adapter : Dial → List String → String → List String → ℤ → Adapter
  ip_adapter : Dial → String → List String → ℤ → ℤ → String → ℤ → Bool → Adapter
  ethernet_adapter : Dial → String → ℤ → String → Adapter
  latency_adapter : Dial → Bool → ℤ → ℤ → Adapter
  throughput_adapter : Dial → Bool → ℤ → ℤ → Adapter

unfoldable pub dial_of : Adapter → Dial
dial_of (chat_adapter d channels id_channel names kicks) = d
dial_of (ip_adapter d dev ips max_retries parallel id_channel kicks static) = d
dial_of (ethernet_adapter d dev parallel mac) = d
dial_of (latency_adapter d server packet_length pause) = d
dial_of (throughput_adapter d server packet_length packet_count) = d
