-- ===== src/LogScanner/Parser/Nginx/Status.antt =====
-- The status of a line of an access log, up to the checks of the hub.
use mathlib.Core.Path.{subst}
use sentinalysis.Base.{
  Bool, codes, Option, Text, [], ap, arith, false, if◌then◌else◌, is_nil, is_ascii_digit, length,
  ltb, none, refl, some, sym, true, ℕ, ◌*◌, ◌+◌, ◌-◌, ◌<◌, ◌≤◌, ◌^◌, ◌↔◌, ◌∙◌, ◌∷◌, ◌≡◌,
}
use sentinalysis.Base.Int.{pos, ℤ}
use sentinalysis.Base.Results.{Result, err, is_ok, ok, ◌>>=◌}
use sentinalysis.LogScanner.Entry.{IpAddr, ParsedLogEntry, error, info}
use sentinalysis.LogScanner.Classifier.{ThreatResult}
use sentinalysis.LogScanner.Filter.{FilterResult}
use sentinalysis.LogScanner.Pipeline.{as_signed, map_some, row_of}
use sentinalysis.LogScanner.Parser.{ParseError, below, decimal_onto, or_invalid, parse_unsigned}
use sentinalysis.LogScanner.Parser.Nginx.{
  Captures, NginxEnv, Rounded, clamped_millis, classify_status, entry_of, metadata_of, not_a_number,
  parse, parse_captures, parse_matched, rounded_of, unbounded, whole,
}
use sentinalysis.Hub.Validate.{
  Reason, client_ip, level, request_path, short_text, threat_categories, threat_level, timestamp,
}
use sentinalysis.Hub.Ingest.Wire.{ProtoParsedLogEntry}
use sentinalysis.Hub.Ingest.Check.{
  Env, if_some, ts_from_ms, check_parsed, status_code_range, validate_parsed_entry,
}
use sentinalysis.Agent.Logs.{AgentServiceResolver, entry_to_proto}

some_if :
    {A : Type 0} (b : Bool) (x : Option A) (a : A)
    → (if b then x else none) ≡ some a
    → (b ≡ true) × (x ≡ some a)
some_if true x a h = (refl, h)
some_if false x a h = absurd (cc)

digit-le : (c : ℕ) → is_ascii_digit c ≡ true → c - b'0' ≤ 9
digit-le c h = ground arith

kept_below : (x : Option ℕ) (bound m : ℕ) → below bound x ≡ some m → x ≡ some m
kept_below none bound m h = absurd (cc)
kept_below (some n) bound m h = (some_if (ltb n bound) (some n) m h).1

-- Three digits make a number below 1000.
three_digits : (bound m : ℕ) (s : Text) → length s ≡ 3 → parse_unsigned bound s ≡ some m → m ≤ 999
unfolding parse_unsigned decimal_onto
three_digits bound m (a ∷ b ∷ c ∷ []) l h =
    let read = kept_below (decimal_onto 0 (a ∷ b ∷ c ∷ [])) bound m h in
    let first =
      some_if (is_ascii_digit a) (decimal_onto (0 * 10 + (a - b'0')) (b ∷ c ∷ [])) m read in
    let second =
      some_if (is_ascii_digit b) (decimal_onto ((0 * 10 + (a - b'0')) * 10 + (b - b'0')) (c ∷ [])) m
        first.1 in
    let value = ((0 * 10 + (a - b'0')) * 10 + (b - b'0')) * 10 + (c - b'0') in
    let third = some_if (is_ascii_digit c) (some value) m second.1 in
    let same : value ≡ m = cc in
    omega (arith, digit-le a first.0, digit-le b second.0, digit-le c third.0, same)
three_digits bound m [] l h = absurd (omega arith)
three_digits bound m (a ∷ []) l h = absurd (omega arith)
three_digits bound m (a ∷ b ∷ []) l h = absurd (omega arith)
three_digits bound m (a ∷ b ∷ c ∷ d ∷ s) l h = absurd (omega arith)

level_iff :
    (status : ℕ)
    → ((classify_status status ≡ error) ↔ ((500 ≤ status) × (status ≤ 599)))
      × ((classify_status status ≡ info) ↔ ((100 ≤ status) × (status ≤ 399)))
unfolding classify_status
level_iff status = ground arith

clamped_millis-lt : (r : Rounded) → clamped_millis r < 2 ^ 64
unfolding clamped_millis
clamped_millis-lt not_a_number = omega arith
clamped_millis-lt (unbounded is_negative) = omega arith
clamped_millis-lt (whole is_negative n) = ground arith

-- A step that follows a check.
then-refused : (x rest : Result Reason Unit) → is_ok rest ≡ false → is_ok (x >>= λ u. rest) ≡ false
then-refused (err e) rest h = refl
then-refused (ok u) rest h = h

status-refused :
    (n : ℕ) (rest : Result Reason Unit)
    → 599 < n
    → is_ok (status_code_range (pos n) >>= λ u. rest) ≡ false
unfolding status_code_range
status-refused n rest h = ground arith

check_parsed-refused :
    (env : Env) (now : ℤ) (p : ProtoParsedLogEntry) (n : ℕ)
    → p.status_code ≡ some (pos n)
    → 599 < n
    → is_ok (check_parsed env now p) ≡ false
unfolding check_parsed
check_parsed-refused env now p n at h = rw at (
    then-refused (timestamp (ts_from_ms env now p.timestamp_ms) now) _ (
      then-refused (level p.level) _ (
        then-refused (threat_level p.threat_level) _ (
          then-refused (threat_categories p.threat_categories) _ (
            then-refused (if_some (client_ip env.parses_ip) p.client_ip) _ (
              then-refused (if_some request_path p.request_path) _ (
                then-refused
                  (if_some (λ reason. short_text reason (codes "noise_reason")) p.noise_reason) _
                  (status-refused n _ h))))))))

-- What the parser makes of a line.
pub record IsParsed (env : NginxEnv) (raw : Text) (e : ParsedLogEntry) : Type 0 where
  pub caps : Captures
  pub matched : env.captures (env.trim raw) ≡ some caps
  pub status : ℕ
  pub status_read : parse_unsigned (2 ^ 16) caps.status ≡ some status
  pub status_kept : e.metadata.status_code ≡ some status
  pub is_error : (e.level ≡ error) ↔ ((500 ≤ status) × (status ≤ 599))
  pub is_info : (e.level ≡ info) ↔ ((100 ≤ status) × (status ≤ 399))
  pub whole_line : e.raw ≡ env.trim raw
  pub time_fits : (ms : ℕ) → e.metadata.response_time_ms ≡ some ms → ms < 2 ^ 64

millis-lt : (r : Option Rounded) (ms : ℕ) → map_some clamped_millis r ≡ some ms → ms < 2 ^ 64
millis-lt none ms h = absurd (cc)
millis-lt (some r) ms h =
    let same : clamped_millis r ≡ ms = cc in subst (λ n. n < 2 ^ 64) same (clamped_millis-lt r)

-- What holds of a parsed entry.
abbrev OnEntry : (ParsedLogEntry → Type 0) → Result ParseError (Option ParsedLogEntry) → Type 0
OnEntry P (ok (some e)) = P e
OnEntry P _ = Unit

entry_of-IsParsed :
    (env : NginxEnv) (raw : Text) (caps : Captures) (ip : IpAddr) (at : ℤ) (status sent : ℕ)
    → env.captures (env.trim raw) ≡ some caps
    → parse_unsigned (2 ^ 16) caps.status ≡ some status
    → IsParsed env raw (entry_of env (env.trim raw) caps ip at status sent)
unfolding entry_of metadata_of
entry_of-IsParsed env raw caps ip at status sent m h = record {
  caps = caps;
  matched = m;
  status = status;
  status_read = h;
  status_kept = refl;
  is_error = (level_iff status).0;
  is_info = (level_iff status).1;
  whole_line = refl;
  time_fits = λ ms. millis-lt (rounded_of env caps.request_time) ms;
}

read-IsParsed :
    (env : NginxEnv) (raw : Text) (caps : Captures) (e : ParsedLogEntry) (ip : Option IpAddr)
    (at : Option ℤ) (status sent : Option ℕ)
    → env.captures (env.trim raw) ≡ some caps
    → parse_unsigned (2 ^ 16) caps.status ≡ status
    → (do
      the_ip ← or_invalid (codes "remote_addr") caps.remote_addr ip
      timestamp ← or_invalid (codes "time_local") caps.time_local at
      the_status ← or_invalid (codes "status") caps.status status
      bytes_sent ← or_invalid (codes "body_bytes_sent") caps.body_bytes_sent sent
      ok (some (entry_of env (env.trim raw) caps the_ip timestamp the_status bytes_sent)))
      ≡ ok (some e)
    → IsParsed env raw e
read-IsParsed env raw caps e (some ip) (some at) (some status) (some sent) m h done =
    subst (OnEntry (IsParsed env raw)) done (entry_of-IsParsed env raw caps ip at status sent m h)
read-IsParsed env raw caps e none at status sent m h done = absurd (cc)
read-IsParsed env raw caps e (some ip) none status sent m h done = absurd (cc)
read-IsParsed env raw caps e (some ip) (some at) none sent m h done = absurd (cc)
read-IsParsed env raw caps e (some ip) (some at) (some status) none m h done = absurd (cc)

parse_matched-IsParsed :
    (env : NginxEnv) (raw : Text) (e : ParsedLogEntry) (caps : Option Captures)
    → env.captures (env.trim raw) ≡ caps
    → parse_matched env (env.trim raw) caps ≡ ok (some e)
    → IsParsed env raw e
unfolding parse_matched parse_captures
parse_matched-IsParsed env raw e none m h = absurd (cc)
parse_matched-IsParsed env raw e (some caps) m h =
    read-IsParsed env raw caps e (env.parse_ip caps.remote_addr) (env.parse_time caps.time_local)
      (parse_unsigned (2 ^ 16) caps.status) (parse_unsigned (2 ^ 64) caps.body_bytes_sent) m refl h

parse_unless-IsParsed :
    (env : NginxEnv) (raw : Text) (e : ParsedLogEntry) (empty : Bool)
    → (if empty then ok none else parse_matched env (env.trim raw) (env.captures (env.trim raw)))
      ≡ ok (some e)
    → IsParsed env raw e
parse_unless-IsParsed env raw e true h = absurd (cc)
parse_unless-IsParsed env raw e false h =
    parse_matched-IsParsed env raw e (env.captures (env.trim raw)) refl h

-- An entry that the parser yields for a line keeps the trimmed line, and the status that the line's
-- match has; its level is error exactly for a status from 500 to 599, and info exactly for one from
-- 100 to 399; and a response time fits in 64 bits.
pub parse-IsParsed :
    (env : NginxEnv) (raw : Text) (e : ParsedLogEntry)
    → parse env raw ≡ ok (some e)
    → IsParsed env raw e
unfolding parse
parse-IsParsed env raw e h = parse_unless-IsParsed env raw e (is_nil (env.trim raw)) h

some-inj : (a b : ℕ) → some a ≡ some b → a ≡ b
some-inj a b h = cc

as_signed-small : (n : ℕ) → n ≤ 999 → as_signed (2 ^ 15) n ≡ pos n
as_signed-small n h = ground arith

status-entry_to_proto :
    (n : ℕ) (e : ParsedLogEntry) (show_ip : IpAddr → Text) (f : FilterResult)
    (threat : ThreatResult) (id : Option ℕ) (r : AgentServiceResolver)
    → n ≤ 999
    → e.metadata.status_code ≡ some n
    → (entry_to_proto r (row_of show_ip e f threat id)).status_code ≡ some (pos n)
unfolding entry_to_proto row_of
status-entry_to_proto n e show_ip f threat id r few at =
    ap (map_some (as_signed (2 ^ 15))) at ∙ ap some (as_signed-small n few)

first-refused :
    {A B : Type 0} (x : Result Reason A) (next : A → Result Reason B)
    → is_ok x ≡ false
    → is_ok (x >>= next) ≡ false
first-refused (err e) next h = refl
first-refused (ok a) next h = absurd (cc)

validate-refused :
    (env : Env) (now : ℤ) (hostname : Text) (p : ProtoParsedLogEntry) (n : ℕ)
    → p.status_code ≡ some (pos n)
    → 599 < n
    → is_ok (validate_parsed_entry env now hostname p) ≡ false
unfolding validate_parsed_entry
validate-refused env now hostname p n at high =
    first-refused (check_parsed env now p) _ (check_parsed-refused env now p n at high)

-- A line of an access log whose status is above 599, which the pattern's three digits allow, is
-- parsed, but the hub refuses the entry that the agent makes of it, whatever the filter, the
-- classifier and the service resolution decided.
pub parse-refused :
    (nginx : NginxEnv) (raw : Text) (e : ParsedLogEntry) (n : ℕ) (env : Env) (now : ℤ)
    (hostname : Text) (r : AgentServiceResolver) (show_ip : IpAddr → Text) (f : FilterResult)
    (threat : ThreatResult) (id : Option ℕ)
    → ((line : Text) (caps : Captures) → nginx.captures line ≡ some caps → length caps.status ≡ 3)
    → parse nginx raw ≡ ok (some e)
    → e.metadata.status_code ≡ some n
    → 599 < n
    → is_ok
        (validate_parsed_entry env now hostname (entry_to_proto r (row_of show_ip e f threat id)))
      ≡ false
parse-refused nginx raw e n env now hostname r show_ip f threat id three h at high =
    let p = parse-IsParsed nginx raw e h in
    let same : p.status ≡ n = some-inj p.status n (sym p.status_kept ∙ at) in
    let few : n ≤ 999 =
      subst (λ k. k ≤ 999) same
        (three_digits (2 ^ 16) p.status p.caps.status (three _ p.caps p.matched) p.status_read) in
    validate-refused env now hostname (entry_to_proto r (row_of show_ip e f threat id)) n
      (status-entry_to_proto n e show_ip f threat id r few at) high
