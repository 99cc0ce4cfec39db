-- ===== src/Agent/Logs/RoundTrip.antt =====
-- From a row of the agent's pipeline over the wire to the entry that the hub stores.
use sentinalysis.Base.{
  Option, Text, ap, arith, codes, false, is_nil, len, le→leb, none, refl, some, suc, ℕ, ◌*◌, ◌-◌,
  ◌^◌, ◌∙◌, ◌≡◌, ◌≤◌,
}
use sentinalysis.Base.Int.{negsuc, pos, ℤ}
use sentinalysis.Base.Results.{Result, err, ok, ◌>>=◌}
use sentinalysis.Hub.Validate.{
  Reason, client_ip, max_message_bytes, request_path, sanitize_message, service_name, short_text,
  strip_newline, timestamp, unit_type,
}
use sentinalysis.Hub.Ingest.Check.{
  Env, ParsedIngest, check_parsed, cleaned, if_some, is_below_zero, or_zero, parsed_ingest,
  response_time_sign, service_identity, status_code_range, stored_status, ts_from_ms,
  validate_parsed_entry,
}
use sentinalysis.LogScanner.Entry.{InsertLogEntry}
use sentinalysis.LogScanner.Pipeline.{map_some}
use sentinalysis.LogScanner.Pipeline.Row.{IsSendable}
use sentinalysis.Agent.Logs.{
  AgentServiceResolver, ServiceMeta, entry_to_proto, meta_for, meta_of, timestamp_millis,
  with_identity,
}

-- The instant of a number of milliseconds, in nanoseconds.
abbrev pub of_millis : ℤ → ℤ
of_millis (pos n) = pos (n * 10 ^ 6)
of_millis (negsuc n) = negsuc (suc n * 10 ^ 6 - 1)

-- A text that the hub stores as it came.
pub record IsClean (s : Text) : Type 0 where
  pub no_newline : strip_newline s ≡ s
  pub fits : len s ≤ max_message_bytes

abbrev pub CleanIfSome : Option Text → Type 0
CleanIfSome none = Unit
CleanIfSome (some s) = IsClean s

-- No status, or one from 1 to 599.
abbrev pub StatusFits : Option ℤ → Type 0
StatusFits none = Unit
StatusFits (some (pos n)) = (1 ≤ n) × (n ≤ 599)
StatusFits (some (negsuc n)) = ⊥

-- What the hub asks of a row and of its service beyond what the pipeline ensures.
pub record Deliverable (env : Env) (now : ℤ) (row : InsertLogEntry) (meta : ServiceMeta)
    : Type 0 where
  -- chrono reads the timestamp back
  pub in_range :
      env.from_millis (timestamp_millis row.timestamp)
      ≡ some (of_millis (timestamp_millis row.timestamp))
  pub in_window : timestamp (of_millis (timestamp_millis row.timestamp)) now ≡ ok tt
  pub message_clean : IsClean row.message
  pub raw_line_clean : CleanIfSome row.raw_line
  pub ip_ok : if_some (client_ip env.parses_ip) row.client_ip ≡ ok tt
  pub path_ok : if_some request_path row.request_path ≡ ok tt
  pub reason_ok :
      if_some (λ reason. short_text reason (codes "noise_reason")) row.noise_reason ≡ ok tt
  pub status_fits : StatusFits row.status_code
  pub time_fits : is_below_zero row.response_time_ms ≡ false
  pub named : is_nil meta.name ≡ false
  pub name_ok : service_name env.is_match meta.name ≡ ok tt
  pub unit_named : is_nil meta.unit_type ≡ false
  pub unit_ok : unit_type meta.unit_type ≡ ok tt
  pub vhost_ok : if_some (service_name env.is_match) meta.virtual_host ≡ ok tt

then-ok :
    {B : Type 0} (r : Result Reason (Unit {0})) (next : Unit {0} → Result Reason B)
    (answer : Result Reason B)
    → r ≡ ok tt
    → next tt ≡ answer
    → (r >>= next) ≡ answer
then-ok (ok u) next answer h k = k
then-ok (err e) next answer h k = absurd (cc)

cleaned-IsClean : (s : Text) → IsClean s → cleaned s ≡ s
unfolding cleaned sanitize_message
cleaned-IsClean s h = rw (h.no_newline, le→leb (len s) max_message_bytes h.fits) refl

map_some-cleaned : (s : Option Text) → CleanIfSome s → map_some cleaned s ≡ s
map_some-cleaned none h = refl
map_some-cleaned (some s) h = ap some (cleaned-IsClean s h)

status_ok : (status : Option ℤ) → StatusFits status → status_code_range (or_zero status) ≡ ok tt
unfolding status_code_range
status_ok none h = refl
status_ok (some (pos n)) h = let a = h.1 in ground arith
status_ok (some (negsuc n)) h = absurd h

stored_status-fits :
    (status : Option ℤ) → StatusFits status → stored_status (or_zero status) ≡ status
unfolding stored_status
stored_status-fits none h = refl
stored_status-fits (some (pos n)) h = let a = h.1 in let b = h.0 in ground arith
stored_status-fits (some (negsuc n)) h = absurd h

response_time_ok : (ms : Option ℤ) → is_below_zero ms ≡ false → response_time_sign ms ≡ ok tt
unfolding response_time_sign
response_time_ok ms h = rw h refl

identity_ok :
    (name unit : Text)
    → is_nil name ≡ false
    → is_nil unit ≡ false
    → service_identity name unit ≡ ok tt
unfolding service_identity
identity_ok name unit h k = rw (h, k) refl

-- The entry that the hub makes of a row: of the row, the local id and the part of the timestamp
-- below a millisecond are gone, and the host of the agent is new.
abbrev pub delivered : Text → InsertLogEntry → ServiceMeta → ParsedIngest
delivered hostname row meta = record {
  entry = record row {
    service_id = none;
    timestamp = of_millis (timestamp_millis row.timestamp);
    source_host = some hostname;
  };
  service_name = meta.name;
  service_unit_type = meta.unit_type;
  virtual_host = meta.virtual_host;
}

module _ (env : Env) (now : ℤ) (row : InsertLogEntry) (meta : ServiceMeta) where
  ts_from_ms-Deliverable :
      Deliverable env now row meta
      → ts_from_ms env now (timestamp_millis row.timestamp)
        ≡ of_millis (timestamp_millis row.timestamp)
  unfolding ts_from_ms
  ts_from_ms-Deliverable d = rw d.in_range refl

  check_parsed-Deliverable :
      IsSendable row
      → Deliverable env now row meta
      → check_parsed env now (with_identity row (some meta)) ≡ ok tt
  unfolding check_parsed
  check_parsed-Deliverable s d =
      then-ok _ _ _ (ap (λ t. timestamp t now) (ts_from_ms-Deliverable d) ∙ d.in_window) (
        then-ok _ _ _ s.level_ok (
          then-ok _ _ _ s.threat_level_ok (
            then-ok _ _ _ s.categories_ok (
              then-ok _ _ _ d.ip_ok (
                then-ok _ _ _ d.path_ok (
                  then-ok _ _ _ d.reason_ok (
                    then-ok _ _ _ (status_ok row.status_code d.status_fits) (
                      then-ok _ _ _ (response_time_ok row.response_time_ms d.time_fits) (
                        then-ok _ _ _ (identity_ok meta.name meta.unit_type d.named d.unit_named)
                          (then-ok _ _ _ d.name_ok (then-ok _ _ _ d.unit_ok d.vhost_ok)))))))))))

  parsed_ingest-Deliverable :
      (hostname : Text)
      → Deliverable env now row meta
      → parsed_ingest env now hostname (with_identity row (some meta)) ≡ delivered hostname row meta
  unfolding parsed_ingest
  parsed_ingest-Deliverable hostname d =
      let at = ts_from_ms-Deliverable d in
      let message = cleaned-IsClean row.message d.message_clean in
      let raw_line = map_some-cleaned row.raw_line d.raw_line_clean in
      let status = stored_status-fits row.status_code d.status_fits in
      rw (at, message, raw_line, status) refl

  -- A row of the agent's pipeline that was resolved to a recorded service, when it and the service
  -- pass the hub's checks of values, is accepted by the hub as sent: the entry that the hub stores
  -- is the row with its timestamp in whole milliseconds and the caller's host, without the agent's
  -- id, and under the recorded identity.
  pub validate_parsed_entry-entry_to_proto :
      (hostname : Text) (r : AgentServiceResolver) (id : ℕ)
      → row.service_id ≡ some id
      → meta_of r id ≡ some meta
      → IsSendable row
      → Deliverable env now row meta
      → validate_parsed_entry env now hostname (entry_to_proto r row)
        ≡ ok (delivered hostname row meta)
  unfolding validate_parsed_entry entry_to_proto
  validate_parsed_entry-entry_to_proto hostname r id h k s d =
      let identity : meta_for r row.service_id ≡ some meta = ap (meta_for r) h ∙ k in
      ap (λ m. validate_parsed_entry env now hostname (with_identity row m)) identity
      ∙ then-ok _ _ _ (check_parsed-Deliverable s d) (ap ok (parsed_ingest-Deliverable hostname d))
