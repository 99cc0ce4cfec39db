-- ===== src/Hub/Rest/Rows.antt =====
-- The rows of the tables that src/hub/rest/read.rs reads, and the objects that it answers them as.
-- The cast of a double, the rows' ids and payloads, and the format of a time are parameters.
use sentinalysis.Base.{Bool, List, Option, Text, map, ℕ}
use sentinalysis.Base.Int.{ℤ}
use sentinalysis.Hub.Ingest.Wire.{F64}

-- src/db/repositories/system_metric_repo.rs
pub record BucketedMetric : Type 0 where
  pub bucket : ℤ
  pub cpu_usage_percent : F64
  pub memory_used_bytes : F64
  pub memory_total_bytes : F64
  pub load_avg_1m : F64
  pub load_avg_5m : F64
  pub disk_used_bytes : F64
  pub disk_total_bytes : F64

pub record MetricPointDto : Type 0 where
  pub timestamp : Text
  pub cpu_percent : F64
  pub mem_used_bytes : ℤ
  pub mem_total_bytes : ℤ
  pub load_1m : F64
  pub load_5m : F64
  pub disk_used_bytes : ℤ
  pub disk_total_bytes : ℤ

-- `to_rfc3339_opts`, and `as i64` of a double.
pub record Formats : Type 0 where
  pub to_rfc3339 : ℤ → Text
  pub as_i64 : F64 → ℤ

unfoldable pub metric_point_dto : Formats → BucketedMetric → MetricPointDto
metric_point_dto f b = record {
  timestamp = f.to_rfc3339 b.bucket;
  cpu_percent = b.cpu_usage_percent;
  mem_used_bytes = f.as_i64 b.memory_used_bytes;
  mem_total_bytes = f.as_i64 b.memory_total_bytes;
  load_1m = b.load_avg_1m;
  load_5m = b.load_avg_5m;
  disk_used_bytes = f.as_i64 b.disk_used_bytes;
  disk_total_bytes = f.as_i64 b.disk_total_bytes;
}

-- src/db/repositories/app_event_repo.rs, over the payloads `J`. An id is a number.
pub record AppEventRow (J : Type 0) : Type 0 where
  pub id : ℕ
  pub app_name : Text
  pub event_type : Text
  pub user_id : Option Text
  pub payload : J
  pub timestamp : ℤ

pub record AppEventDto (J : Type 0) : Type 0 where
  pub id : ℕ
  pub app_name : Text
  pub event_type : Text
  pub user_id : Option Text
  pub payload : J
  pub timestamp : Text

unfoldable pub app_event_dto : {J : Type 0} → Formats → AppEventRow J → AppEventDto J
app_event_dto f row = record {
  id = row.id;
  app_name = row.app_name;
  event_type = row.event_type;
  user_id = row.user_id;
  payload = row.payload;
  timestamp = f.to_rfc3339 row.timestamp;
}

pub record EventsResponse (J : Type 0) : Type 0 where
  pub events : List (AppEventDto J)
  pub total : ℤ

unfoldable pub events_response :
    {J : Type 0} → Formats → List (AppEventRow J) × ℤ → EventsResponse J
unfolding app_event_dto
events_response f (rows, total) = record { events = map (app_event_dto f) rows; total = total }

-- src/db/repositories/agent_repo.rs
pub record AgentStatus : Type 0 where
  pub agent_id : Text
  pub hostname : Text
  pub first_seen_at : ℤ
  pub last_seen_at : ℤ
  pub online : Bool

pub record AgentDto : Type 0 where
  pub agent_id : Text
  pub hostname : Text
  pub first_seen_at : Text
  pub last_seen_at : Text
  pub online : Bool

unfoldable pub agent_dto : Formats → AgentStatus → AgentDto
agent_dto f agent = record {
  agent_id = agent.agent_id;
  hostname = agent.hostname;
  first_seen_at = f.to_rfc3339 agent.first_seen_at;
  last_seen_at = f.to_rfc3339 agent.last_seen_at;
  online = agent.online;
}

pub record SystemMetricRow : Type 0 where
  pub id : ℕ
  pub timestamp : ℤ
  pub cpu_usage_percent : F64
  pub memory_used_bytes : ℤ
  pub memory_total_bytes : ℤ
  pub disk_used_bytes : ℤ
  pub disk_total_bytes : ℤ
  pub load_avg_1m : F64
  pub load_avg_5m : F64
  pub network_rx_bytes : ℤ
  pub network_tx_bytes : ℤ
