-- ===== src/Tests/Ingest.antt =====
-- The theorems about the ingestion of logs at concrete inputs.
use sentinalysis.Base.{
  List, Option, Text, [], codes, none, refl, some, split_at_byte, get_range, text_eq, true, ◌∷◌,
  ◌≡◌,
}
use sentinalysis.Base.Dict.{insert, lookup, mem_text}
use sentinalysis.Base.Int.{pos, ◌-ℤ◌}
use sentinalysis.Base.Results.{err, ok}
use sentinalysis.Hub.Auth.Permission.{ApiKeyRow, parse, principal_from_row}
use sentinalysis.Hub.Auth.Cache.{evict, get, insert_verified, new, purge}
use sentinalysis.Hub.Auth.Key.{parse_key_id}
use sentinalysis.Hub.Auth.Service.{World, authenticate, verified, verify_hash}
use sentinalysis.Hub.Ingest.Wire.{LogsRequest}
use sentinalysis.Hub.Ingest.Handlers.{Call, Deps, IngestService, ack, unauthenticated, missing_key}
use sentinalysis.Hub.Ingest.Logs.{accept_logs, ingested, send_logs, store_batch}
use sentinalysis.Hub.Ingest.Trust.{Taken, send_logs-Taken}
use sentinalysis.Hub.Ingest.Refusal.{send_logs-refused}
use sentinalysis.LogScanner.Entry.{InsertLogEntry}
use sentinalysis.Agent.Forward.{LogLine}

abbrev pub agent_row : ApiKeyRow
agent_row = record {
  hash = codes "argon";
  permissions = codes "ingest:logs" ∷ [];
  key_id = codes "0123abcd";
  agent_id = some (codes "a1");
  hostname = some (codes "vps1");
  app_name = none;
}

abbrev pub agent_world : World
agent_world = record {
  is_match = λ pattern s. true;
  find_active_by_key_id = λ k. ok (some agent_row);
  verify_password = λ stored_hash raw. verified;
}

-- A table is the list of its batches; every service has the id 7.
abbrev pub Table : Type 0
Table = List (List InsertLogEntry)

abbrev pub some_deps : Deps Table Unit
some_deps = record {
  env = record {
    is_match = λ pattern s. true;
    from_millis = λ ms. some (pos 5);
    parses_ip = λ s. true;
  };
  world = agent_world;
  check_key = λ l ip. (l, true);
  repos = record {
    get_or_create = λ t service. (t, ok 7);
    upsert_seen = λ t agent host. (t, ok tt);
    insert_metric = λ t metric. (t, ok tt);
    insert_batch = λ t entries. (entries ∷ t, ok tt);
  };
}

abbrev pub some_service : IngestService Table Unit
some_service = record { cache = new; limiter = tt; repo = [] }

abbrev some_line : LogLine
some_line = record {
  timestamp_ms = pos 0;
  container = codes "web";
  stream = codes "stderr";
  message = codes "down\n";
}

abbrev some_call : Option Text → Call LogsRequest
some_call key = record {
  api_key = key;
  remote_addr = none;
  now = 5;
  stored_at = 6;
  clock = λ n. pos 5;
  message = record { lines = some_line ∷ []; parsed_lines = [] };
}

abbrev pub some_key : Text
some_key = codes "snt_0123abcd_secret"

taken :
    send_logs some_deps (some_call (some some_key)) some_service
    ≡ ((send_logs some_deps (some_call (some some_key)) some_service).0, ok (ack 1))
unfolding send_logs authenticate parse_key_id get_range split_at_byte get lookup verify_hash
    accept_logs ingested store_batch insert_verified insert purge evict mem_text text_eq ◌-ℤ◌ parse
    principal_from_row
taken = refl

send_logs-Taken_example :
    Taken some_deps
      (some_call (some some_key))
      some_service
      (send_logs some_deps (some_call (some some_key)) some_service).0
      (ack 1)
send_logs-Taken_example =
    send_logs-Taken some_deps (some_call (some some_key)) some_service
      (send_logs some_deps (some_call (some some_key)) some_service).0 (ack 1) taken

unkeyed : (send_logs some_deps (some_call none) some_service).1 ≡ err (unauthenticated missing_key)
unfolding send_logs
unkeyed = refl

send_logs-refused_example : (send_logs some_deps (some_call none) some_service).0.repo ≡ []
send_logs-refused_example =
    send_logs-refused some_deps (some_call none) some_service (unauthenticated missing_key) unkeyed
      refl
