-- ===== src/Hub/Rest/Summary.antt =====
-- src/hub/rest/read.rs: `get_summary`. Each query is the answer of its table to the interval.
use sentinalysis.Base.{
  Bool, List, Option, Text, [], false, if◌then◌else◌, none, some, ◌*◌, ◌^◌, ◌∷◌,
}
use sentinalysis.Base.Int.{ltb_ℤ, pos, ℤ, ◌-ℤ◌}
use sentinalysis.Base.Dict.{Dict, insert}
use sentinalysis.Base.Results.{Result, ok, ◌>>=◌}
use sentinalysis.Hub.Auth.Permission.{Principal}
use sentinalysis.Hub.Range.{default_range, interval}
use sentinalysis.Hub.Ingest.Wire.{F64, finite}
use sentinalysis.Hub.Rest.Auth.{HttpResponse}
use sentinalysis.Hub.Rest.Read.{as_response, online_window_secs, require_dashboard}
use sentinalysis.Hub.Rest.Rows.{SystemMetricRow}

pub record SummaryTables : Type 0 where
  pub count_active_users : Text → Result Text ℤ
  pub count_total : Text → Result Text ℤ
  pub counts_by_app : Text → Result Text (List (Text × ℤ))
  pub counts_by_type : Text → Result Text (List (Text × ℤ))
  pub latest : Result Text (Option SystemMetricRow)

pub record SummaryResponse : Type 0 where
  pub active_users_24h : ℤ
  pub total_events_24h : ℤ
  pub events_by_app : Dict ℤ
  pub events_by_type : Dict ℤ
  pub server_online : Bool
  pub current_cpu_percent : F64
  pub current_mem_percent : F64

-- `into_iter().collect()`: a later pair replaces an earlier one of its key.
unfoldable pub collect_onto : Dict ℤ → List (Text × ℤ) → Dict ℤ
unfolding insert
collect_onto m [] = m
collect_onto m ((k, n) ∷ pairs) = collect_onto (insert k n m) pairs

abbrev pub zero_f64 : F64
zero_f64 = finite false 0

-- The quotient of two numbers as doubles, times 100.
abbrev pub Percent : Type 0
Percent = ℤ → ℤ → F64

-- The processor, the memory, and whether the server is online.
pub record Current : Type 0 where
  pub cpu : F64
  pub mem_percent : F64
  pub online : Bool

unfoldable pub current_of : Percent → ℤ → Option SystemMetricRow → Current
unfolding ◌-ℤ◌
current_of percent now none = record { cpu = zero_f64; mem_percent = zero_f64; online = false }
current_of percent now (some metric) = record {
  cpu = metric.cpu_usage_percent;
  mem_percent =
      if ltb_ℤ (pos 0) metric.memory_total_bytes
      then percent metric.memory_used_bytes metric.memory_total_bytes
      else zero_f64;
  online = ltb_ℤ (now -ℤ pos (online_window_secs * 10 ^ 9)) metric.timestamp;
}

unfoldable pub summary_of : SummaryTables → Percent → ℤ → Result Text SummaryResponse
unfolding interval collect_onto current_of
summary_of tables percent now = do
  active_users ← tables.count_active_users (interval default_range)
  total ← tables.count_total (interval default_range)
  by_app ← tables.counts_by_app (interval default_range)
  by_type ← tables.counts_by_type (interval default_range)
  latest ← tables.latest
  let current = current_of percent now latest
  ok record {
    active_users_24h = active_users;
    total_events_24h = total;
    events_by_app = collect_onto [] by_app;
    events_by_type = collect_onto [] by_type;
    server_online = current.online;
    current_cpu_percent = current.cpu;
    current_mem_percent = current.mem_percent;
  }

unfoldable pub get_summary : SummaryTables → Percent → ℤ → Principal → HttpResponse SummaryResponse
unfolding require_dashboard summary_of
get_summary tables percent now p = require_dashboard p (as_response (summary_of tables percent now))
