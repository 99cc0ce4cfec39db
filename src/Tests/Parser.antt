-- ===== src/Tests/Parser.antt =====
-- The theorems about the parser of access logs at a concrete line.
use sentinalysis.Base.{[], arith, codes, false, none, refl, some, true, ◌≡◌}
use sentinalysis.Base.Int.{pos}
use sentinalysis.Base.Results.{is_ok, ok}
use sentinalysis.LogScanner.Classifier.Threat.{none_level}
use sentinalysis.LogScanner.Entry.{ParsedLogEntry, v4}
use sentinalysis.LogScanner.Filter.{keep}
use sentinalysis.LogScanner.Pipeline.{row_of}
use sentinalysis.LogScanner.Parser.{decimal_onto, parse_unsigned}
use sentinalysis.LogScanner.Parser.Nginx.{
  Captures, NginxEnv, entry_of, metadata_of, not_a_number, parse, parse_captures,
}
use sentinalysis.LogScanner.Parser.Nginx.Status.{IsParsed, parse-IsParsed, parse-refused}
use sentinalysis.Hub.Ingest.Check.{Env, validate_parsed_entry}
use sentinalysis.Agent.Logs.{entry_to_proto, new_resolver}

abbrev some_captures : Captures
some_captures = record {
  remote_addr = codes "1.2.3.4";
  time_local = codes "01/Jan/2025:00:00:00 +0000";
  request = codes "GET / HTTP/1.1";
  status = codes "700";
  body_bytes_sent = codes "15";
  http_referer = codes "-";
  http_user_agent = codes "curl";
  host = none;
  request_time = none;
}

abbrev some_nginx : NginxEnv
some_nginx = record {
  trim = λ s. s;
  captures = λ s. some some_captures;
  parse_ip = λ s. some (v4 7);
  parse_time = λ s. some (pos 5);
  rounded_millis = λ s. some not_a_number;
  to_string = λ n. codes "700";
}

abbrev some_entry : ParsedLogEntry
some_entry = entry_of some_nginx (codes "line") some_captures (v4 7) (pos 5) 700 15

parsed : parse some_nginx (codes "line") ≡ ok (some some_entry)
unfolding parse parse_captures parse_unsigned decimal_onto
parsed = refl

parse-IsParsed_example : IsParsed some_nginx (codes "line") some_entry
parse-IsParsed_example = parse-IsParsed some_nginx (codes "line") some_entry parsed

abbrev hub_env : Env
hub_env = record {
  is_match = λ pattern s. true;
  from_millis = λ ms. some (pos 5);
  parses_ip = λ s. true;
}

parse-refused_example :
    is_ok (
      validate_parsed_entry hub_env (pos 5) (codes "vps1") (
        entry_to_proto new_resolver (
          row_of
            (λ ip. codes "1.2.3.4")
            some_entry
            keep
            record { threat_level = none_level; categories = []; confidence = 0 }
            none)))
    ≡ false
parse-refused_example =
    parse-refused some_nginx (codes "line") some_entry 700 hub_env (pos 5) (codes "vps1")
      new_resolver (λ ip. codes "1.2.3.4") keep
      record { threat_level = none_level; categories = []; confidence = 0 } none
      (λ line caps h. let same : some_captures ≡ caps = cc in rw (← same) refl) parsed
      (unfold entry_of metadata_of in refl) (omega arith)
