-- ===== src/LogScanner/Parser/Nginx.antt =====
-- src/log_scanner/parser/nginx.rs: the parser of access logs. The `regex` and `chrono` crates, the
-- parsers of addresses and floats, and the text of a number are parameters.
pub mod Status
use sentinalysis.Base.{
  Bool, List, Option, Text, [], codes, if◌then◌else◌, is_nil, leb, ltb, none, not, some, text_eq, ℕ,
  ◌&&◌, ◌++◌, ◌-◌, ◌==◌, ◌^◌, ◌||◌, ◌∷◌,
}
use sentinalysis.Base.Int.{ℤ}
use sentinalysis.Base.Results.{Result, err, ok, ◌>>=◌}
use sentinalysis.LogScanner.Entry.{IpAddr, LogLevel, LogMetadata, ParsedLogEntry, error, info, warn}
use sentinalysis.LogScanner.Pipeline.{Parser, map_some}
use sentinalysis.LogScanner.Parser.{
  ParseError, as_parser, invalid_format, or_invalid, parse_unsigned,
}

-- The groups of `NGINX_COMBINED_RE`; the last two are optional.
pub record Captures : Type 0 where
  pub remote_addr : Text
  pub time_local : Text
  pub request : Text
  pub status : Text
  pub body_bytes_sent : Text
  pub http_referer : Text
  pub http_user_agent : Text
  pub host : Option Text
  pub request_time : Option Text

-- `(rt * 1000.0).round()` of a parsed float: a whole number with its sign, or none.
pub data Rounded : Type 0 where
  not_a_number : Rounded
  unbounded : (is_negative : Bool) → Rounded
  whole : (is_negative : Bool) → ℕ → Rounded

pub record NginxEnv : Type 0 where
  pub trim : Text → Text
  pub captures : Text → Option Captures
  pub parse_ip : Text → Option IpAddr
  -- `parse_from_str(s, "%d/%b/%Y:%H:%M:%S %z")`
  pub parse_time : Text → Option ℤ
  pub rounded_millis : Text → Option Rounded
  pub to_string : ℕ → Text

-- What stands before the first space, and behind it.
abbrev pub cons_part : ℕ → Option (Text × Text) → Option (Text × Text)
cons_part c none = none
cons_part c (some (before, behind)) = some (c ∷ before, behind)

unfoldable pub split_at_space : Text → Option (Text × Text)
split_at_space [] = none
split_at_space (c ∷ cs) =
    let rest = split_at_space cs in if c == b' ' then some ([], cs) else cons_part c rest

abbrev pub before_space : Text → Option (Text × Text) → Text
before_space s none = s
before_space s (some (before, behind)) = before

-- The first two of the parts of `splitn(3, ' ')`, if there are two.
abbrev pub first_parts : Option (Text × Text) → Option Text × Option Text
unfolding split_at_space
first_parts none = (none, none)
first_parts (some (method, rest)) = (some method, some (before_space rest (split_at_space rest)))

unfoldable pub request_parts : Text → Option Text × Option Text
unfolding split_at_space
request_parts request = first_parts (split_at_space request)

unfoldable pub classify_status : ℕ → LogLevel
classify_status status =
    if leb 100 status && leb status 399
    then info
    else if leb 500 status && leb status 599
    then error
    else warn

abbrev pub u64_max : ℕ
u64_max = 2 ^ 64 - 1

-- The closure on the response time. Minus zero is not below zero.
unfoldable pub clamped_millis : Rounded → ℕ
clamped_millis not_a_number = u64_max
clamped_millis (unbounded is_negative) = u64_max
clamped_millis (whole is_negative n) =
    if (not is_negative || n == 0) && ltb n (2 ^ 64) then n else u64_max

abbrev pub not_dash : Option Text → Option Text
not_dash none = none
not_dash (some s) = if not (text_eq s (codes "-")) then some s else none

abbrev pub or_empty : Option Text → Text
or_empty none = []
or_empty (some s) = s

abbrev pub rounded_of : NginxEnv → Option Text → Option Rounded
rounded_of env none = none
rounded_of env (some s) = env.rounded_millis s

unfoldable pub metadata_of : NginxEnv → Captures → IpAddr → ℕ → ℕ → LogMetadata
unfolding request_parts clamped_millis text_eq
metadata_of env caps ip status bytes_sent = record {
  client_ip = some ip;
  request_method = (request_parts caps.request).0;
  request_path = (request_parts caps.request).1;
  status_code = some status;
  bytes_sent = some bytes_sent;
  response_time_ms = map_some clamped_millis (rounded_of env caps.request_time);
  user_agent = some caps.http_user_agent;
  referer = some caps.http_referer;
  virtual_host = not_dash caps.host;
  upstream_service = none;
}

unfoldable pub entry_of : NginxEnv → Text → Captures → IpAddr → ℤ → ℕ → ℕ → ParsedLogEntry
unfolding metadata_of classify_status
entry_of env line caps ip timestamp status bytes_sent =
    let metadata = metadata_of env caps ip status bytes_sent in
    record {
      timestamp = timestamp;
      source_name = codes "nginx-access";
      level = classify_status status;
      message =
          or_empty metadata.request_method
          ++ (codes " " ++ (or_empty metadata.request_path ++ (codes " " ++ env.to_string status)));
      raw = line;
      metadata = metadata;
    }

-- The checks behind the match, in the order of the parser.
unfoldable pub parse_captures :
    NginxEnv → Text → Captures → Result ParseError (Option ParsedLogEntry)
unfolding entry_of parse_unsigned
parse_captures env line caps = do
  ip ← or_invalid (codes "remote_addr") caps.remote_addr (env.parse_ip caps.remote_addr)
  timestamp ← or_invalid (codes "time_local") caps.time_local (env.parse_time caps.time_local)
  status ← or_invalid (codes "status") caps.status (parse_unsigned (2 ^ 16) caps.status)
  bytes_sent ←
      or_invalid (codes "body_bytes_sent") caps.body_bytes_sent
        (parse_unsigned (2 ^ 64) caps.body_bytes_sent)
  ok (some (entry_of env line caps ip timestamp status bytes_sent))

abbrev pub parse_matched :
    NginxEnv → Text → Option Captures → Result ParseError (Option ParsedLogEntry)
unfolding parse_captures
parse_matched env line none =
    err (invalid_format (line ++ codes " - line does not match nginx combined format"))
parse_matched env line (some caps) = parse_captures env line caps

unfoldable pub parse : NginxEnv → Text → Result ParseError (Option ParsedLogEntry)
unfolding parse_captures
parse env raw =
    let line = env.trim raw in
    if is_nil line then ok none else parse_matched env line (env.captures line)

abbrev pub nginx_access_parser : NginxEnv → Parser
unfolding parse
nginx_access_parser env = as_parser (codes "nginx_combined") (parse env)
