-- ===== src/Hub/Ingest/Check.antt =====
-- src/hub/grpc.rs: the checks of a metric point, of a raw line and of a parsed entry. The clock reads
-- `now` during one of them.
use sentinalysis.Base.{
  Bool, Option, Text, [], codes, false, if◌then◌else◌, is_nil, min, none, not, some, text_eq, ℕ,
  ◌&&◌, ◌-◌, ◌==◌, ◌^◌, ◌||◌,
}
use sentinalysis.Base.Int.{leb_ℤ, ltb_ℤ, negsuc, pos, ℤ}
use sentinalysis.Base.Results.{Result, err, ok, ◌>>=◌}
use sentinalysis.Hub.Validate.{
  Reason, bad_status, client_ip, container, level, negative_response_time, no_service_identity,
  not_finite, request_path, sanitize_message, service_name, short_text, stream, threat_categories,
  threat_level, timestamp, unit_type,
}
use sentinalysis.Hub.Auth.Key.{Matcher}
use sentinalysis.Hub.Ingest.Wire.{F64, MetricPoint, ProtoParsedLogEntry, finite, infinite, nan}
use sentinalysis.LogScanner.Pipeline.{map_some}
use sentinalysis.LogScanner.Entry.{InsertLogEntry}
use sentinalysis.Agent.Forward.{LogLine}

-- The `regex` and `chrono` crates, and the parser of addresses.
pub record Env : Type 0 where
  pub is_match : Matcher
  -- `timestamp_millis_opt(ms).single()`, in nanoseconds
  pub from_millis : ℤ → Option ℤ
  pub parses_ip : Text → Bool

abbrev pub or_now : ℤ → Option ℤ → ℤ
or_now now none = now
or_now now (some t) = t

unfoldable pub ts_from_ms : Env → ℤ → ℤ → ℤ
ts_from_ms env now ms = or_now now (env.from_millis ms)

pub record InsertSystemMetric : Type 0 where
  pub host : Option Text
  pub timestamp : ℤ
  pub cpu_usage_percent : F64
  pub memory_used_bytes : ℤ
  pub memory_total_bytes : ℤ
  pub disk_used_bytes : ℤ
  pub disk_total_bytes : ℤ
  pub load_avg_1m : F64
  pub load_avg_5m : F64
  pub network_rx_bytes : ℤ
  pub network_tx_bytes : ℤ

-- `is_finite() && value >= 0.0`; minus zero is not below zero.
abbrev pub is_nonnegative : F64 → Bool
is_nonnegative nan = false
is_nonnegative infinite = false
is_nonnegative (finite negative n) = not negative || n == 0

unfoldable pub checked_finite : F64 → Text → Result Reason F64
checked_finite value name = if is_nonnegative value then ok value else err (not_finite name)

-- `value.min(i64::MAX as u64) as i64`
abbrev pub clamp_i64 : ℕ → ℤ
clamp_i64 n = pos (min n (2 ^ 63 - 1))

unfoldable pub validate_point : Env → ℤ → Text → MetricPoint → Result Reason InsertSystemMetric
unfolding checked_finite timestamp ts_from_ms
validate_point env now hostname point = do
  let at = ts_from_ms env now point.timestamp_ms
  in_window ← timestamp at now
  cpu ← checked_finite point.cpu_percent (codes "cpu_percent")
  load_1m ← checked_finite point.load_1m (codes "load_1m")
  load_5m ← checked_finite point.load_5m (codes "load_5m")
  ok record {
    host = some hostname;
    timestamp = at;
    cpu_usage_percent = cpu;
    memory_used_bytes = clamp_i64 point.mem_used_bytes;
    memory_total_bytes = clamp_i64 point.mem_total_bytes;
    disk_used_bytes = clamp_i64 point.disk_used_bytes;
    disk_total_bytes = clamp_i64 point.disk_total_bytes;
    load_avg_1m = load_1m;
    load_avg_5m = load_5m;
    network_rx_bytes = clamp_i64 point.net_rx_bytes_total;
    network_tx_bytes = clamp_i64 point.net_tx_bytes_total;
  }

-- A message is never off a boundary, so `none` does not arise.
abbrev pub text_of_option : Option Text → Text
text_of_option none = []
text_of_option (some t) = t

unfoldable pub line_level : Text → Text
unfolding text_eq
line_level stream = if text_eq stream (codes "stderr") then codes "error" else codes "info"

-- The cleaned message.
unfoldable pub cleaned : Text → Text
unfolding sanitize_message
cleaned raw = text_of_option (sanitize_message raw)

unfoldable pub validate_log_line : Env → ℤ → Text → LogLine → Result Reason InsertLogEntry
unfolding container stream timestamp ts_from_ms cleaned line_level
validate_log_line env now hostname line = do
  named ← container env.is_match line.container
  known_stream ← stream line.stream
  let at = ts_from_ms env now line.timestamp_ms
  in_window ← timestamp at now
  let message = cleaned line.message
  ok record {
    service_id = none;
    timestamp = at;
    level = line_level line.stream;
    message = message;
    raw_line = some message;
    client_ip = none;
    request_path = none;
    status_code = none;
    response_time_ms = none;
    is_noise = false;
    noise_reason = none;
    threat_level = codes "none";
    threat_categories = [];
    source_host = some hostname;
  }

-- An entry ready for storage, with the service identity that the agent resolved.
pub record ParsedIngest : Type 0 where
  pub entry : InsertLogEntry
  pub service_name : Text
  pub service_unit_type : Text
  pub virtual_host : Option Text

-- A check of a value that may be absent.
abbrev pub if_some : (Text → Result Reason Unit) → Option Text → Result Reason Unit
if_some check none = ok tt
if_some check (some value) = check value

abbrev pub or_zero : Option ℤ → ℤ
or_zero none = pos 0
or_zero (some n) = n

abbrev pub is_below_zero : Option ℤ → Bool
is_below_zero none = false
is_below_zero (some n) = ltb_ℤ n (pos 0)

unfoldable pub status_code_range : ℤ → Result Reason Unit
status_code_range n =
    if not (leb_ℤ (pos 0) n && leb_ℤ n (pos 599)) then err (bad_status n) else ok tt

unfoldable pub response_time_sign : Option ℤ → Result Reason Unit
response_time_sign ms = if is_below_zero ms then err negative_response_time else ok tt

unfoldable pub service_identity : Text → Text → Result Reason Unit
service_identity name unit = if is_nil name || is_nil unit then err no_service_identity else ok tt

-- The checks of `validate_parsed_entry`, in its order.
unfoldable pub check_parsed : Env → ℤ → ProtoParsedLogEntry → Result Reason Unit
unfolding timestamp ts_from_ms level threat_level threat_categories client_ip request_path
    short_text status_code_range response_time_sign service_identity service_name unit_type
check_parsed env now parsed = do
  in_window ← timestamp (ts_from_ms env now parsed.timestamp_ms) now
  known_level ← level parsed.level
  known_threat ← threat_level parsed.threat_level
  categories_ok ← threat_categories parsed.threat_categories
  ip_ok ← if_some (client_ip env.parses_ip) parsed.client_ip
  path_ok ← if_some request_path parsed.request_path
  reason_ok ← if_some (λ reason. short_text reason (codes "noise_reason")) parsed.noise_reason
  status_ok ← status_code_range (or_zero parsed.status_code)
  time_ok ← response_time_sign parsed.response_time_ms
  identified ← service_identity parsed.service_name parsed.service_unit_type
  name_ok ← service_name env.is_match parsed.service_name
  unit_ok ← unit_type parsed.service_unit_type
  if_some (service_name env.is_match) parsed.virtual_host

-- `i16::try_from(n).ok()`
abbrev pub i16_try_from : ℤ → Option ℤ
i16_try_from n =
    if leb_ℤ (negsuc (2 ^ 15 - 1)) n && leb_ℤ n (pos (2 ^ 15 - 1)) then some n else none

abbrev pub is_zero : ℤ → Bool
is_zero (pos n) = n == 0
is_zero (negsuc n) = false

unfoldable pub stored_status : ℤ → Option ℤ
stored_status n = if is_zero n then none else i16_try_from n

unfoldable pub parsed_ingest : Env → ℤ → Text → ProtoParsedLogEntry → ParsedIngest
unfolding ts_from_ms cleaned stored_status
parsed_ingest env now hostname parsed = record {
  entry = record {
    service_id = none;
    timestamp = ts_from_ms env now parsed.timestamp_ms;
    level = parsed.level;
    message = cleaned parsed.message;
    raw_line = map_some cleaned parsed.raw_line;
    client_ip = parsed.client_ip;
    request_path = parsed.request_path;
    status_code = stored_status (or_zero parsed.status_code);
    response_time_ms = parsed.response_time_ms;
    is_noise = parsed.is_noise;
    noise_reason = parsed.noise_reason;
    threat_level = parsed.threat_level;
    threat_categories = parsed.threat_categories;
    source_host = some hostname;
  };
  service_name = parsed.service_name;
  service_unit_type = parsed.service_unit_type;
  virtual_host = parsed.virtual_host;
}

unfoldable pub validate_parsed_entry :
    Env → ℤ → Text → ProtoParsedLogEntry → Result Reason ParsedIngest
unfolding check_parsed parsed_ingest
validate_parsed_entry env now hostname parsed = do
  checked ← check_parsed env now parsed
  ok (parsed_ingest env now hostname parsed)
