-- ===== src/Tests/LogScanner.antt =====
-- The log scanner's theorems at concrete inputs.
use sentinalysis.Base.{
  All, List, Text, [], ap, arith, codes, ends_with, false, if◌then◌else◌, is_ascii, leb,
  leb-eq-false, length, map, none, refl, some, suc, text_eq, true, ℕ, ◌++◌, ◌+◌, ◌∷◌, ◌≡◌,
}
use sentinalysis.Base.Dict.{insert, lookup, mem_text}
use sentinalysis.Base.Int.{pos}
use sentinalysis.Base.Results.{Result, err, ok}
use sentinalysis.LogScanner.Entry.{InsertLogEntry, LogMetadata, ParsedLogEntry, info}
use sentinalysis.LogScanner.Source.{vhost_from_file_path}
use sentinalysis.LogScanner.Classifier.{calculate_threat_level, classify}
use sentinalysis.LogScanner.Classifier.Threat.{ThreatCategory, rank, tls_error, xss}
use sentinalysis.LogScanner.Classifier.Level.{calculate_threat_level-peak, peak, raise_of}
use sentinalysis.LogScanner.Filter.{NoiseFilterConfig, evaluate, from_config}
use sentinalysis.LogScanner.Pipeline.{
  InsertService, Parser, Pipeline, Services, default_registry, finish, for_file, handles,
  process_line, resolve, row_of, run_parser, service_of, unit_type_nginx_vhost,
  unit_type_system_log,
}
use sentinalysis.LogScanner.Pipeline.Resolver.{resolve_again}
use sentinalysis.LogScanner.Scanner.{
  Event, LogSink, Loop, Scanner, cancelled, received, run, start, tick,
}
use sentinalysis.LogScanner.Tailer.State.{
  TailLine, TailerState, goes_on, handle_path, modify_data, new, read_existing_lines,
}
use sentinalysis.LogScanner.Tailer.State.Lines.{IsLine, is_plain, unlines}
use sentinalysis.LogScanner.Tailer.State.Resume.{Resumed, handle_path-Resumed}
use sentinalysis.LogScanner.Tailer.State.Unterminated.{handle_path-past_end}
use sentinalysis.LogScanner.Pipeline.Row.{IsSendable, process_line-IsSendable}
use sentinalysis.LogScanner.Scanner.Ledger.{account, intake, ledger, run-account}
use sentinalysis.LogScanner.Scanner.Stuck.{Refuses, run-refused}

abbrev some_metadata : LogMetadata
some_metadata = record {
  client_ip = none;
  request_method = none;
  request_path = some (codes "/a");
  status_code = some 200;
  bytes_sent = none;
  response_time_ms = some 3;
  user_agent = none;
  referer = none;
  virtual_host = none;
  upstream_service = none;
}

abbrev some_entry : ParsedLogEntry
some_entry = record {
  timestamp = pos 7;
  source_name = codes "nginx";
  level = info;
  message = codes "GET /a";
  raw = codes "raw";
  metadata = some_metadata;
}

abbrev two_categories : List ThreatCategory
two_categories = xss ∷ tls_error ∷ []

calculate_threat_level-peak_example :
    rank (calculate_threat_level two_categories) ≡ peak two_categories + raise_of two_categories
calculate_threat_level-peak_example = calculate_threat_level-peak two_categories

abbrev some_file : Text
some_file = codes "/var/log/a.log"

abbrev fresh_tailer : TailerState
fresh_tailer = new (some_file ∷ [])

abbrev some_lines : List Text
some_lines = codes "one" ∷ codes "two" ∷ []

some_lines-IsLine : All IsLine some_lines
unfolding IsLine is_plain
some_lines-IsLine = (refl, (refl, tt))

-- A tailer that has read four bytes of the file.
abbrev resumed_tailer : ℕ → TailerState
resumed_tailer n = record { positions = (some_file, n) ∷ []; tailed_files = some_file ∷ [] }

tailed_file : mem_text some_file (some_file ∷ []) ≡ true
unfolding mem_text text_eq
tailed_file = refl

position_at : (n : ℕ) → lookup some_file (resumed_tailer n).positions ≡ some n
unfolding lookup text_eq
position_at n = refl

handle_path-Resumed_example :
    let done =
      handle_path 9 modify_data
        record {
          path = some_file;
          file_name = some (codes "a.log");
          content = some (codes "old\n" ++ unlines some_lines);
          is_watched = true;
        }
        (resumed_tailer 4) in
    Resumed some_file (codes "old\n" ++ unlines some_lines) some_lines done.state done.emitted
    × (done.next ≡ goes_on)
handle_path-Resumed_example =
    handle_path-Resumed 9 some_file (codes "a.log") (codes "old\n") some_lines true
      (resumed_tailer 4) tailed_file (position_at 4) some_lines-IsLine (omega arith)

handle_path-past_end_example :
    map TailLine.line
      (handle_path 9 modify_data
        record {
          path = some_file;
          file_name = some (codes "a.log");
          content = some ((unlines [] ++ codes "xy") ++ b'z' ∷ unlines (codes "12" ∷ []));
          is_watched = true;
        }
        (read_existing_lines 9 some_file (unlines [] ++ codes "xy") (resumed_tailer 0)).0).emitted
    ≡ codes "12" ∷ []
handle_path-past_end_example =
    handle_path-past_end 9 some_file (codes "a.log") [] b'x' (codes "y") b'z' (codes "12") [] true
      (resumed_tailer 0) tailed_file tt (unfold IsLine is_plain in refl)
      (unfold IsLine is_plain in (refl, tt)) (unfold is_ascii in refl) (omega arith) (omega arith)

-- A table that gives every service the number of services before it.
abbrev numbering : ℕ → InsertService → ℕ × Result Text ℕ
numbering n service = (suc n, ok n)

abbrev no_services : Services ℕ
no_services = record { repo = 0; cache = [] }

first_resolved : (resolve numbering (codes "site") unit_type_system_log none no_services).1 ≡ some 0
unfolding resolve lookup
first_resolved = refl

resolve_again_example :
    resolve numbering
      (codes "site")
      unit_type_nginx_vhost
      (some (codes "site"))
      (resolve numbering (codes "site") unit_type_system_log none no_services).0
    ≡ ((resolve numbering (codes "site") unit_type_system_log none no_services).0, some 0)
resolve_again_example =
    resolve_again numbering (codes "site") unit_type_system_log unit_type_nginx_vhost none
      (some (codes "site")) no_services 0 first_resolved

abbrev some_parser : Parser
some_parser = record { name = codes "nginx"; parse = λ t. ok (some some_entry) }

abbrev some_config : NoiseFilterConfig
some_config = record {
  excluded_ips = [];
  health_check_paths = codes "/a" ∷ [];
  static_asset_extensions = codes "css" ∷ [];
  known_bot_user_agents = [];
}

abbrev some_pipeline : Pipeline ℕ
unfolding from_config default_registry
some_pipeline = record {
  registry = default_registry some_parser some_parser;
  filter = from_config (λ t. t) some_config;
  is_match = λ pattern t. false;
  to_lowercase = λ t. t;
  show_ip = λ ip. codes "::";
  file_name = λ p. some (codes "a.log");
  get_or_create = numbering;
}

abbrev tailed_line : TailLine
tailed_line = record { file_path = some_file; line = codes "GET /a"; byte_offset = 0 }

abbrev stored_row : InsertLogEntry
unfolding row_of some_pipeline
stored_row =
    row_of some_pipeline.show_ip some_entry
      (evaluate some_pipeline.is_match some_pipeline.filter some_entry)
      (classify some_pipeline.to_lowercase some_entry) (some 0)

abbrev one_service : Services ℕ
one_service = record { repo = 1; cache = (codes "a.log", 0) ∷ [] }

line_processed :
    process_line some_pipeline tailed_line no_services ≡ some (one_service, ok (some stored_row))
unfolding process_line run_parser for_file handles finish service_of resolve lookup insert text_eq
    some_pipeline default_registry vhost_from_file_path ends_with stored_row
line_processed = refl

process_line-IsSendable_example : IsSendable stored_row
process_line-IsSendable_example =
    process_line-IsSendable some_pipeline tailed_line no_services one_service stored_row
      line_processed

-- A sink that counts what it takes, and one that takes at most two entries at a time.
abbrev counting : LogSink ℕ
counting = record { insert_batch = λ n es. (n + length es, ok (length es)) }

abbrev at_most_two : LogSink ℕ
at_most_two = record {
  insert_batch = λ n es.
      if leb (length es) 2 then (n + length es, ok (length es)) else (n, err (codes "too many"));
}

at_most_two-Refuses : Refuses 2 at_most_two
unfolding Refuses
at_most_two-Refuses n es h = (
  codes "too many",
  ap (λ b. if b then (n + length es, ok (length es)) else (n, err (codes "too many")))
      (leb-eq-false (length es) 2 h),
)

abbrev some_scanner : Scanner
some_scanner = record { process_line = λ l. ok (some stored_row); batch_size = 2 }

abbrev scan_events : List Event
scan_events =
    received (ok tailed_line)
    ∷ tick
    ∷ received (err (codes "lost"))
    ∷ received (ok tailed_line)
    ∷ cancelled
    ∷ []

run-account_example :
    account (run (ledger counting) some_scanner scan_events (start (0, [])))
    ≡ account {S = ℕ} (start (0, [])) ++ intake some_scanner scan_events
run-account_example = run-account counting some_scanner scan_events (start (0, [])) refl

abbrev overfull : Loop ℕ
overfull = record { state = 5; batch = stored_row ∷ stored_row ∷ stored_row ∷ []; stopped = false }

run-refused_example :
    ((run at_most_two some_scanner scan_events overfull).state ≡ 5)
    × (rest : List InsertLogEntry) × ((run at_most_two some_scanner scan_events overfull).batch
        ≡ overfull.batch ++ rest)
run-refused_example =
    run-refused 2 at_most_two some_scanner at_most_two-Refuses scan_events overfull (omega arith)
