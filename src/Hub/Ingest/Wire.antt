-- ===== src/Hub/Ingest/Wire.antt =====
-- The messages of proto/sentinel.proto. `LogLine` stands with the agent.
use sentinalysis.Base.{Bool, List, Option, Text, ℕ}
use sentinalysis.Base.Int.{ℤ}
use sentinalysis.Agent.Forward.{LogLine}

-- A `double`: its sign and magnitude, or no finite number.
pub data F64 : Type 0 where
  nan infinite : F64
  finite : Bool → ℕ → F64

pub record MetricPoint : Type 0 where
  pub timestamp_ms : ℤ
  pub cpu_percent : F64
  pub mem_used_bytes : ℕ
  pub mem_total_bytes : ℕ
  pub disk_used_bytes : ℕ
  pub disk_total_bytes : ℕ
  pub load_1m : F64
  pub load_5m : F64
  pub net_rx_bytes_total : ℕ
  pub net_tx_bytes_total : ℕ

pub record ProtoParsedLogEntry : Type 0 where
  pub timestamp_ms : ℤ
  pub level : Text
  pub message : Text
  pub raw_line : Option Text
  pub client_ip : Option Text
  pub request_path : Option Text
  pub status_code : Option ℤ
  pub response_time_ms : Option ℤ
  pub is_noise : Bool
  pub noise_reason : Option Text
  pub threat_level : Text
  pub threat_categories : List Text
  pub service_name : Text
  pub service_unit_type : Text
  pub virtual_host : Option Text

pub record LogsRequest : Type 0 where
  pub lines : List LogLine
  pub parsed_lines : List ProtoParsedLogEntry

pub record Ack : Type 0 where
  pub accepted : Bool
  pub count : ℕ
