-- ===== src/LogScanner/Pipeline.antt =====
-- src/log_scanner/pipeline.rs: one line through parse, filter and classify to the stored row. The
-- two parsers, the formatting of an address and the `services` table are parameters.
pub mod Row
pub mod Resolver
use sentinalysis.Base.{
  Bool, List, Option, Text, [], any, codes, false, if◌then◌else◌, leb, ltb, map, none, some,
  text_eq, true, ℕ, ◌++◌, ◌+◌, ◌-◌, ◌^◌, ◌||◌, ◌∷◌,
}
use sentinalysis.Base.Dict.{Dict, insert, lookup}
use sentinalysis.Base.Results.{Result, err, ok}
use sentinalysis.Base.Int.{negsuc, pos, ℤ}
use sentinalysis.LogScanner.Entry.{
  InsertLogEntry, IpAddr, LogLevel, ParsedLogEntry, level_str, security,
}
use sentinalysis.LogScanner.Filter.{
  FilterResult, NoiseFilter, aggregate, evaluate, exclude, is_security_flag, text_or_empty,
}
use sentinalysis.LogScanner.Classifier.{ThreatResult, classify}
use sentinalysis.LogScanner.Classifier.Threat.{category_str, high, rank, threat_level_str}
use sentinalysis.Hub.Validate.{
  level, request_path, threat_categories, threat_level, timestamp, unit_type,
}
use sentinalysis.LogScanner.Source.{vhost_from_file_path}
use sentinalysis.LogScanner.Tailer.State.{TailLine}
use sentinalysis.Hub.Auth.Key.{Matcher}

abbrev pub unit_type_nginx_vhost : Text
unit_type_nginx_vhost = codes "nginx-vhost"

abbrev pub unit_type_system_log : Text
unit_type_system_log = codes "system-log"

-- The `InsertService` of a new service.
pub record InsertService : Type 0 where
  pub name : Text
  pub unit_type : Text
  pub log_paths : Option (List Text)
  pub virtual_host : Option Text

-- `ServiceRepository::get_or_create` over the state `R` of the table.
abbrev pub GetOrCreate : Type 0 → Type 0
GetOrCreate R = R → InsertService → R × Result Text ℕ

-- The table and the cache of `DbServiceResolver`.
pub record Services (R : Type 0) : Type 0 where
  pub repo : R
  pub cache : Dict ℕ

abbrev pub stored_id : {R : Type 0} → Text → Dict ℕ → R × Result Text ℕ → Services R × Option ℕ
stored_id name cache (r, ok id) = (record { repo = r; cache = insert name id cache }, some id)
stored_id name cache (r, err e) = (record { repo = r; cache = cache }, none)

abbrev pub cached_or :
    {R : Type 0} → Services R → Option ℕ → Services R × Option ℕ → Services R × Option ℕ
cached_or s (some id) asked = (s, some id)
cached_or s none asked = asked

unfoldable pub resolve :
    {R : Type 0} → GetOrCreate R → Text → Text → Option Text → Services R → Services R × Option ℕ
unfolding lookup insert
resolve get_or_create name unit_type virtual_host s =
    let service : InsertService = record {
      name = name;
      unit_type = unit_type;
      log_paths = none;
      virtual_host = virtual_host;
    } in
    cached_or s (lookup name s.cache) (stored_id name s.cache (get_or_create s.repo service))

abbrev pub is_noise : FilterResult → Bool
is_noise (exclude reason) = true
is_noise (aggregate reason) = true
is_noise _ = false

abbrev pub noise_reason : FilterResult → Option Text
noise_reason (exclude reason) = some reason
noise_reason (aggregate reason) = some reason
noise_reason _ = none

unfoldable pub classify_level : LogLevel → ThreatResult → LogLevel
classify_level base_level threat =
    if leb (rank high) (rank threat.threat_level) then security else base_level

abbrev pub stored_level : LogLevel → FilterResult → ThreatResult → LogLevel
unfolding classify_level is_security_flag
stored_level base_level filter_result threat =
    if is_security_flag filter_result then security else classify_level base_level threat

-- `as i16` of a `u16`, and `as i64` of a `u64`.
abbrev pub as_signed : ℕ → ℕ → ℤ
as_signed half n = if ltb n half then pos n else negsuc (half + half - n - 1)

-- `Option::map`
abbrev pub map_some {ℓ} : {A B : Type ℓ} → (A → B) → Option A → Option B
map_some f none = none
map_some f (some a) = some (f a)

-- The row of a parsed entry.
unfoldable pub row_of :
    (IpAddr → Text) → ParsedLogEntry → FilterResult → ThreatResult → Option ℕ → InsertLogEntry
unfolding level_str threat_level_str category_str
row_of show_ip entry filter_result threat service_id = record {
  service_id = service_id;
  timestamp = entry.timestamp;
  level = level_str (stored_level entry.level filter_result threat);
  message = entry.message;
  raw_line = if is_noise filter_result then none else some entry.raw;
  client_ip = map_some show_ip entry.metadata.client_ip;
  request_path = entry.metadata.request_path;
  status_code = map_some (as_signed (2 ^ 15)) entry.metadata.status_code;
  response_time_ms = map_some (as_signed (2 ^ 63)) entry.metadata.response_time_ms;
  is_noise = is_noise filter_result;
  noise_reason = noise_reason filter_result;
  threat_level = threat_level_str threat.threat_level;
  threat_categories = map category_str threat.categories;
  source_host = none;
}

pub record Parser : Type 0 where
  pub name : Text
  pub parse : Text → Result Text (Option ParsedLogEntry)

pub record ParserMatch : Type 0 where
  pub names : List Text
  pub parser : Parser

unfoldable pub handles : ParserMatch → Text → Bool
unfolding text_eq
handles m file_name = any (λ n. text_eq n (codes "*") || text_eq n file_name) m.names

unfoldable pub default_registry : Parser → Parser → List ParserMatch
default_registry auth nginx =
    record { names = codes "auth.log" ∷ []; parser = auth }
    ∷ record { names = codes "*" ∷ []; parser = nginx }
    ∷ []

-- The first parser that handles the file, or else the last one; the registry is not empty.
unfoldable pub for_file : List ParserMatch → Text → Option Parser
unfolding handles
for_file [] file_name = none
for_file (m ∷ []) file_name = some m.parser
for_file (m ∷ n ∷ ms) file_name =
    let later = for_file (n ∷ ms) file_name in if handles m file_name then some m.parser else later

-- What the pipeline is built from.
pub record Pipeline (R : Type 0) : Type 0 where
  pub registry : List ParserMatch
  pub filter : NoiseFilter
  pub is_match : Matcher
  pub to_lowercase : Text → Text
  pub show_ip : IpAddr → Text
  pub file_name : Text → Option Text
  pub get_or_create : GetOrCreate R

-- The service of a virtual host, or of the log file.
unfoldable pub service_of :
    {R : Type 0} → Pipeline R → Option Text → Option Text → Services R → Services R × Option ℕ
unfolding resolve
service_of p (some vhost) file s =
    resolve p.get_or_create vhost unit_type_nginx_vhost (some vhost) s
service_of p none (some file) s = resolve p.get_or_create file unit_type_system_log none s
service_of p none none s = resolve p.get_or_create (codes "unknown-log") unit_type_system_log none s

abbrev pub or_else {ℓ} : {A : Type ℓ} → Option A → Option A → Option A
or_else none fallback = fallback
or_else (some a) fallback = some a

-- From the parser's answer to the row.
unfoldable pub finish :
    {R : Type 0}
    → Pipeline R
    → Text
    → Result Text (Option ParsedLogEntry)
    → Services R
    → Services R × Result Text (Option InsertLogEntry)
unfolding service_of row_of evaluate classify vhost_from_file_path
finish p path (err e) s = (s, err e)
finish p path (ok none) s = (s, ok none)
finish p path (ok (some entry)) s =
    let filter_result = evaluate p.is_match p.filter entry in
    let threat = classify p.to_lowercase entry in
    let file = p.file_name path in
    let virtual_host = or_else (vhost_from_file_path file) entry.metadata.virtual_host in
    let found = service_of p virtual_host file s in
    (found.0, ok (some (row_of p.show_ip entry filter_result threat found.1)))

-- The parser's error, with the parser and the file in front.
abbrev pub with_context :
    Text → Text → Result Text (Option ParsedLogEntry) → Result Text (Option ParsedLogEntry)
with_context name path (ok parsed) = ok parsed
with_context name path (err e) = err (name ++ (codes " [" ++ (path ++ (codes "]: " ++ e))))

-- `expect` on the parser: `none` is its panic.
unfoldable pub run_parser :
    {R : Type 0}
    → Pipeline R
    → TailLine
    → Option Parser
    → Services R
    → Option (Services R × Result Text (Option InsertLogEntry))
unfolding finish
run_parser p line none s = none
run_parser p line (some parser) s =
    some
      (finish p line.file_path (with_context parser.name line.file_path (parser.parse line.line)) s)

unfoldable pub process_line :
    {R : Type 0}
    → Pipeline R
    → TailLine
    → Services R
    → Option (Services R × Result Text (Option InsertLogEntry))
unfolding for_file run_parser
process_line p line s =
    run_parser p line (for_file p.registry (text_or_empty (p.file_name line.file_path))) s
