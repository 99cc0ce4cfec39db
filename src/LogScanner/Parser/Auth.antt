-- ===== src/LogScanner/Parser/Auth.antt =====
-- src/log_scanner/parser/auth.rs: the parser of syslog lines. The `regex` and `chrono` crates, the
-- clock and the parser of addresses are parameters.
use sentinalysis.Base.{Option, Text, codes, contains, if◌then◌else◌, is_nil, none, some, ◌++◌, ◌||◌}
use sentinalysis.Base.Int.{ℤ}
use sentinalysis.Base.Results.{Result, err, ok, ◌>>=◌}
use sentinalysis.LogScanner.Entry.{IpAddr, LogLevel, ParsedLogEntry, error, info, security, warn}
use sentinalysis.LogScanner.Pipeline.{Parser}
use sentinalysis.LogScanner.Parser.{ParseError, as_parser, invalid_format, or_invalid}

-- The groups of `ISO_SYSLOG_RE` and of `SYSLOG_TIMESTAMP_RE` that are read.
pub record IsoCaptures : Type 0 where
  pub timestamp : Text
  pub service : Text
  pub message : Text

pub record SyslogCaptures : Type 0 where
  pub month : Text
  pub day : Text
  pub time : Text
  pub service : Text
  pub message : Text

pub record AuthEnv : Type 0 where
  pub trim : Text → Text
  pub iso : Text → Option IsoCaptures
  pub syslog : Text → Option SyslogCaptures
  -- The `ip` group of `SSH_FAILED_RE` and of `SSH_ACCEPTED_RE`.
  pub ssh_failed : Text → Option Text
  pub ssh_accepted : Text → Option Text
  pub parse_ip : Text → Option IpAddr
  pub parse_rfc3339 : Text → Option ℤ
  -- `parse_from_str(&s, "%b %d %Y %H:%M:%S")`
  pub parse_naive : Text → Option ℤ
  -- The clock's year, as text.
  pub year : Text

unfoldable pub parse_syslog_timestamp : AuthEnv → Text → Text → Text → Result ParseError ℤ
parse_syslog_timestamp env month day time =
    let s = month ++ (codes " " ++ (day ++ (codes " " ++ (env.year ++ (codes " " ++ time))))) in
    or_invalid (codes "timestamp") s (env.parse_naive s)

abbrev pub classify_words : Text → LogLevel × Option IpAddr
unfolding contains
classify_words message =
    if contains message (codes "error") || contains message (codes "failed")
    then (error, none)
    else if contains message (codes "warning") || contains message (codes "invalid")
    then (warn, none)
    else (info, none)

abbrev pub classify_accepted : AuthEnv → Text → Option Text → LogLevel × Option IpAddr
unfolding contains
classify_accepted env message (some ip) = (info, env.parse_ip ip)
classify_accepted env message none = classify_words message

abbrev pub classify_failed : AuthEnv → Text → Option Text → LogLevel × Option IpAddr
unfolding contains
classify_failed env message (some ip) = (security, env.parse_ip ip)
classify_failed env message none = classify_accepted env message (env.ssh_accepted message)

unfoldable pub classify_auth_message : AuthEnv → Text → LogLevel × Option IpAddr
unfolding contains
classify_auth_message env message = classify_failed env message (env.ssh_failed message)

-- What both formats yield: the time, the service and the message.
abbrev pub of_syslog : AuthEnv → Option SyslogCaptures → Result ParseError (ℤ × Text × Text)
unfolding parse_syslog_timestamp
of_syslog env none = err (invalid_format (codes "line does not match syslog format"))
of_syslog env (some caps) = do
  timestamp ← parse_syslog_timestamp env caps.month caps.day caps.time
  ok (timestamp, caps.service, caps.message)

abbrev pub of_iso : AuthEnv → Text → Option IsoCaptures → Result ParseError (ℤ × Text × Text)
unfolding parse_syslog_timestamp
of_iso env line (some caps) = do
  timestamp ← or_invalid (codes "timestamp") caps.timestamp (env.parse_rfc3339 caps.timestamp)
  ok (timestamp, caps.service, caps.message)
of_iso env line none = of_syslog env (env.syslog line)

abbrev pub auth_entry : AuthEnv → Text → ℤ × Text × Text → ParsedLogEntry
unfolding classify_auth_message
auth_entry env line (timestamp, service, message) =
    let classified = classify_auth_message env message in
    record {
      timestamp = timestamp;
      source_name = codes "auth-log";
      level = classified.0;
      message = codes "[" ++ (service ++ (codes "] " ++ message));
      raw = line;
      metadata = record {
        client_ip = classified.1;
        request_method = none;
        request_path = none;
        status_code = none;
        bytes_sent = none;
        response_time_ms = none;
        user_agent = none;
        referer = none;
        virtual_host = none;
        upstream_service = none;
      };
    }

unfoldable pub parse : AuthEnv → Text → Result ParseError (Option ParsedLogEntry)
unfolding classify_auth_message parse_syslog_timestamp
parse env raw =
    let line = env.trim raw in
    if is_nil line
    then ok none
    else do found ← of_iso env line (env.iso line); ok (some (auth_entry env line found))

abbrev pub auth_log_parser : AuthEnv → Parser
unfolding parse
auth_log_parser env = as_parser (codes "syslog") (parse env)
