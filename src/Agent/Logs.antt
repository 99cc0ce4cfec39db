-- ===== src/Agent/Logs.antt =====
-- src/agent/logs.rs: the services that the agent knows by name, the wire form of a row, and the sink
-- that sends batches to the hub. Random ids and the client of the hub are parameters.
pub mod Identity
pub mod RoundTrip
use sentinalysis.Base.{
  List, Option, Text, [], codes, if◌then◌else◌, length, map, max, min, none, some, suc, ℕ, ◌++◌,
  ◌/◌, ◌==◌, ◌^◌, ◌∷◌,
}
use sentinalysis.Base.Int.{negsuc, pos, ℤ}
use sentinalysis.Base.Results.{Result, err, ok}
use sentinalysis.Base.Dict.{Dict, insert, lookup}
use sentinalysis.Hub.Validate.{max_lines_per_request}
use sentinalysis.Hub.Ingest.Wire.{Ack, LogsRequest, ProtoParsedLogEntry}
use sentinalysis.LogScanner.Entry.{InsertLogEntry}
use sentinalysis.LogScanner.Scanner.{LogSink}

pub record ServiceMeta : Type 0 where
  pub name : Text
  pub unit_type : Text
  pub virtual_host : Option Text

-- A map from ids, of which only `find_id` reads: a later entry hides an earlier one.
abbrev pub ById : Type 0
ById = List (ℕ × ServiceMeta)

unfoldable pub find_id : ℕ → ById → Option ServiceMeta
find_id id [] = none
find_id id ((i, meta) ∷ m) = if i == id then some meta else find_id id m

-- The two maps, and how many ids were drawn.
pub record AgentServiceResolver : Type 0 where
  pub by_name : Dict ℕ
  pub by_id : ById
  pub drawn : ℕ

abbrev pub new_resolver : AgentServiceResolver
new_resolver = record { by_name = []; by_id = []; drawn = 0 }

unfoldable pub meta_of : AgentServiceResolver → ℕ → Option ServiceMeta
unfolding find_id
meta_of r id = find_id id r.by_id

abbrev pub recorded : AgentServiceResolver → ServiceMeta → ℕ → AgentServiceResolver × ℕ
recorded r meta id = (record r { by_id = (id, meta) ∷ r.by_id }, id)

-- `or_insert_with(Uuid::new_v4)`; `new_v4 n` is the n-th id drawn.
abbrev pub known_or_new :
    (ℕ → ℕ) → AgentServiceResolver → ServiceMeta → Option ℕ → AgentServiceResolver × ℕ
known_or_new new_v4 r meta (some id) = recorded r meta id
known_or_new new_v4 r meta none =
    recorded
      (record r { by_name = insert meta.name (new_v4 r.drawn) r.by_name; drawn = suc r.drawn }) meta
      (new_v4 r.drawn)

-- The answer is always an id.
unfoldable pub resolve : (ℕ → ℕ) → AgentServiceResolver → ServiceMeta → AgentServiceResolver × ℕ
unfolding lookup insert
resolve new_v4 r meta = known_or_new new_v4 r meta (lookup meta.name r.by_name)

-- `DateTime::timestamp_millis` rounds down.
abbrev pub timestamp_millis : ℤ → ℤ
timestamp_millis (pos n) = pos (n / 10 ^ 6)
timestamp_millis (negsuc n) = negsuc (n / 10 ^ 6)

abbrev pub meta_for : AgentServiceResolver → Option ℕ → Option ServiceMeta
meta_for r none = none
meta_for r (some id) = meta_of r id

abbrev pub name_or_empty : Option ServiceMeta → Text
name_or_empty none = []
name_or_empty (some meta) = meta.name

abbrev pub unit_or_empty : Option ServiceMeta → Text
unit_or_empty none = []
unit_or_empty (some meta) = meta.unit_type

abbrev pub vhost_of : Option ServiceMeta → Option Text
vhost_of none = none
vhost_of (some meta) = meta.virtual_host

abbrev pub with_identity : InsertLogEntry → Option ServiceMeta → ProtoParsedLogEntry
with_identity entry meta = record {
  timestamp_ms = timestamp_millis entry.timestamp;
  level = entry.level;
  message = entry.message;
  raw_line = entry.raw_line;
  client_ip = entry.client_ip;
  request_path = entry.request_path;
  status_code = entry.status_code;
  response_time_ms = entry.response_time_ms;
  is_noise = entry.is_noise;
  noise_reason = entry.noise_reason;
  threat_level = entry.threat_level;
  threat_categories = entry.threat_categories;
  service_name = name_or_empty meta;
  service_unit_type = unit_or_empty meta;
  virtual_host = vhost_of meta;
}

unfoldable pub entry_to_proto : AgentServiceResolver → InsertLogEntry → ProtoParsedLogEntry
unfolding meta_of
entry_to_proto r entry = with_identity entry (meta_for r entry.service_id)

-- `send_logs_request` over the state of the connection and the hub.
abbrev pub SendLogs : Type 0 → Type 0
SendLogs C = C → LogsRequest → C × Result Text Ack

abbrev pub forwarded : {A B : Type 0} → A → ℕ → B × Result Text Ack → (A × B) × Result Text ℕ
forwarded r n (c, ok reply) = ((r, c), ok n)
forwarded r n (c, err e) = ((r, c), err (codes "log forward failed: " ++ e))

abbrev pub to_request : AgentServiceResolver → List InsertLogEntry → LogsRequest
to_request r entries = record { lines = []; parsed_lines = map (entry_to_proto r) entries }

-- The sink reads the resolver that the pipeline fills.
unfoldable pub grpc_sink : {C : Type 0} → SendLogs C → LogSink (AgentServiceResolver × C)
unfolding entry_to_proto
grpc_sink send = record {
  insert_batch = λ s entries. forwarded s.0 (length entries) (send s.1 (to_request s.0 entries));
}

-- `clamp(1, MAX_LINES_PER_REQUEST)` of the configured batch size.
unfoldable pub agent_batch_size : ℕ → ℕ
agent_batch_size configured = min (max configured 1) max_lines_per_request
