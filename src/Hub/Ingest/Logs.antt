-- ===== src/Hub/Ingest/Logs.antt =====
-- src/hub/grpc.rs: `send_logs`. Each line is checked, its service is resolved once per request, and
-- the accepted entries are stored in one batch.
use sentinalysis.Base.{
  List, Option, Text, [], codes, if◌then◌else◌, is_nil, leb, length, ltb, none, some, suc, text_eq,
  ℕ, ◌&&◌, ◌++◌, ◌+◌, ◌-◌, ◌^◌, ◌∷◌,
}
use sentinalysis.Base.Int.{ℤ}
use sentinalysis.Base.Results.{Result, err, ok, ok_value, ◌>>=◌}
use sentinalysis.Hub.Validate.{Reason, container, max_lines_per_request}
use sentinalysis.Hub.Auth.Permission.{Principal, ingest_logs}
use sentinalysis.Hub.Ingest.Wire.{Ack, LogsRequest, ProtoParsedLogEntry}
use sentinalysis.Hub.Ingest.Check.{Env, ParsedIngest, validate_log_line, validate_parsed_entry}
use sentinalysis.Hub.Ingest.Handlers.{
  Call, Deps, Handled, IngestService, Repositories, Status, ack, authorize, batch_too_large,
  internal, invalid_argument, of_storage, require_agent, with_repo,
}
use sentinalysis.LogScanner.Entry.{InsertLogEntry}
use sentinalysis.LogScanner.Pipeline.{InsertService}
use sentinalysis.Agent.Forward.{LogLine}

-- `service_cache`: the ids by unit type and name. A failed resolution is kept too. A key is
-- inserted only when it is absent.
abbrev pub ServiceCache : Type 0
ServiceCache = List ((Text × Text) × Option ℕ)

unfoldable pub find_service : Text → Text → ServiceCache → Option (Option ℕ)
unfolding text_eq
find_service unit name [] = none
find_service unit name (((u, n), id) ∷ cache) =
    if text_eq u unit && text_eq n name then some id else find_service unit name cache

-- The loop's state.
pub record Batch (R : Type 0) : Type 0 where
  pub repo : R
  pub service_cache : ServiceCache
  pub entries : List InsertLogEntry
  pub rejected : ℕ

abbrev pub with_service : Option ℕ → InsertLogEntry → InsertLogEntry
with_service id entry = record entry { service_id = id }

abbrev pub docker_container : Text
docker_container = codes "docker-container"

-- The service of a raw line is its container.
abbrev pub of_container : Text → InsertLogEntry → ParsedIngest
of_container container entry = record {
  entry = entry;
  service_name = container;
  service_unit_type = docker_container;
  virtual_host = none;
}

-- A checked line, with the service it belongs to.
unfoldable pub check_line : Env → Text → LogLine → ℤ → Result Reason ParsedIngest
unfolding validate_log_line
check_line env hostname line now = do
  entry ← validate_log_line env now hostname line
  ok (of_container line.container entry)

unfoldable pub check_entry : Env → Text → ProtoParsedLogEntry → ℤ → Result Reason ParsedIngest
unfolding validate_parsed_entry
check_entry env hostname parsed now = validate_parsed_entry env now hostname parsed

abbrev pub as_service : ParsedIngest → InsertService
as_service ingest = record {
  name = ingest.service_name;
  unit_type = ingest.service_unit_type;
  log_paths = none;
  virtual_host = ingest.virtual_host;
}

module _ {R : Type 0} (repos : Repositories R) where
  abbrev pub pushed : Batch R → ParsedIngest → Option ℕ → Batch R
  pushed b ingest id = record b { entries = b.entries ++ with_service id ingest.entry ∷ [] }

  abbrev pub created : Batch R → ParsedIngest → R × Result Text ℕ → Batch R
  created b ingest (r, answer) =
      pushed
        (record b {
          repo = r;
          service_cache =
              ((ingest.service_unit_type, ingest.service_name), ok_value answer) ∷ b.service_cache;
        })
        ingest (ok_value answer)

  abbrev pub cached_or_created : Batch R → ParsedIngest → Option (Option ℕ) → Batch R
  cached_or_created b ingest (some id) = pushed b ingest id
  cached_or_created b ingest none =
      created b ingest (repos.get_or_create b.repo (as_service ingest))

  -- The body of both loops, on the outcome of the check.
  unfoldable pub ingest_one : Batch R → Result Reason ParsedIngest → Batch R
  unfolding find_service
  ingest_one b (err reason) = record b { rejected = suc b.rejected }
  ingest_one b (ok ingest) =
      cached_or_created b ingest
        (find_service ingest.service_unit_type ingest.service_name b.service_cache)

  unfoldable pub ingest_all : List (Result Reason ParsedIngest) → Batch R → Batch R
  unfolding ingest_one
  ingest_all [] b = b
  ingest_all (outcome ∷ outcomes) b = ingest_all outcomes (ingest_one b outcome)

-- The checks of a list of lines, the n-th at the clock's reading `n`.
unfoldable pub check_each :
    {A : Type 0}
    → (A → ℤ → Result Reason ParsedIngest)
    → (ℕ → ℤ)
    → ℕ
    → List A
    → List (Result Reason ParsedIngest)
check_each check clock n [] = []
check_each check clock n (a ∷ l) = check a (clock n) ∷ check_each check clock (suc n) l

-- The outcomes of a request's lines, raw lines first.
unfoldable pub outcomes_of : Env → (ℕ → ℤ) → Text → LogsRequest → List (Result Reason ParsedIngest)
unfolding check_each check_line check_entry
outcomes_of env clock hostname request =
    check_each (check_line env hostname) clock 0 request.lines
    ++ check_each (check_entry env hostname) clock (length request.lines) request.parsed_lines

unfoldable pub total_lines : LogsRequest → ℕ
total_lines request = length request.lines + length request.parsed_lines

abbrev pub u32_max : ℕ
u32_max = 2 ^ 32 - 1

-- `u32::try_from(n).unwrap_or(u32::MAX)`
abbrev pub to_u32 : ℕ → ℕ
to_u32 n = if leb n u32_max then n else u32_max

abbrev pub batch_stored : {R : Type 0} → ℕ → R × Result Text (Unit {0}) → R × Result Status Ack
batch_stored n (r, ok _) = (r, ok (ack (to_u32 n)))
batch_stored n (r, err e) = (r, err (internal (of_storage e)))

unfoldable pub store_batch : {R : Type 0} → Repositories R → Batch R → R × Result Status Ack
store_batch repos b =
    if is_nil b.entries
    then (b.repo, ok (ack (to_u32 0)))
    else batch_stored (length b.entries) (repos.insert_batch b.repo b.entries)

abbrev pub empty_batch : {R : Type 0} → R → Batch R
empty_batch r = record { repo = r; service_cache = []; entries = []; rejected = 0 }

unfoldable pub within_limit : LogsRequest → Result Status (Unit {0})
unfolding total_lines
within_limit request =
    if ltb max_lines_per_request (total_lines request)
    then err (invalid_argument batch_too_large)
    else ok tt

-- What `send_logs` decides before it looks at a line: the host of the agent.
unfoldable pub accept_logs : Principal → LogsRequest → Result Status Text
unfolding require_agent within_limit
accept_logs p request = do
  (agent_id, hostname) ← require_agent ingest_logs p
  few ← within_limit request
  ok hostname

module _ {R L : Type 0} (deps : Deps R L) where
  unfoldable pub ingested : Call LogsRequest → Text → R → Batch R
  unfolding ingest_all outcomes_of
  ingested call hostname r =
      ingest_all deps.repos (outcomes_of deps.env call.clock hostname call.message) (empty_batch r)

  abbrev pub store_logs : Call LogsRequest → IngestService R L → Result Status Text → Handled R L
  store_logs call s (err status) = (s, err status)
  store_logs call s (ok hostname) =
      with_repo s (store_batch deps.repos (ingested call hostname s.repo))

  abbrev pub logs_from :
      Call LogsRequest → IngestService R L × Result Status Principal → Handled R L
  logs_from call (s, err status) = (s, err status)
  logs_from call (s, ok p) = store_logs call s (accept_logs p call.message)

  unfoldable pub send_logs : Call LogsRequest → IngestService R L → Handled R L
  unfolding authorize
  send_logs call s = logs_from call (authorize deps call s)
