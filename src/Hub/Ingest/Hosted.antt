-- ===== src/Hub/Ingest/Hosted.antt =====
-- The batch of a request: which entries it holds, and whose host they carry.
use mathlib.Core.Path.{subst}
use sentinalysis.Base.{
  All, All-append, List, Text, [], ap, arith, length, length-append, length-map, map, refl, some,
  suc, sym, ℕ, ◌+◌, ◌∷◌, ◌≡◌,
}
use sentinalysis.Base.Int.{ℤ}
use sentinalysis.Base.Results.{Result, err, ok, ◌>>=◌}
use sentinalysis.Hub.Validate.{Reason, container, stream, timestamp}
use sentinalysis.Hub.Ingest.Wire.{LogsRequest, ProtoParsedLogEntry}
use sentinalysis.Hub.Ingest.Check.{
  Env, ParsedIngest, check_parsed, parsed_ingest, ts_from_ms, validate_log_line,
  validate_parsed_entry,
}
use sentinalysis.Hub.Ingest.Handlers.{Call, Deps}
use sentinalysis.Hub.Ingest.Logs.{
  ServiceCache, check_each, check_entry, check_line, empty_batch, ingest_all, ingested, outcomes_of,
  total_lines,
}
use sentinalysis.Hub.Ingest.Batch.{accepted, attach, ingest_all-entries, ingest_all-rejected}
use sentinalysis.LogScanner.Entry.{InsertLogEntry}
use sentinalysis.Agent.Forward.{LogLine}

length-check_each :
    {A : Type 0} (check : A → ℤ → Result Reason ParsedIngest) (clock : ℕ → ℤ) (n : ℕ) (l : List A)
    → length (check_each check clock n l) ≡ length l
unfolding check_each
length-check_each check clock n [] = refl
length-check_each check clock n (a ∷ l) = omega (arith, length-check_each check clock (suc n) l)

length-outcomes_of :
    (env : Env) (clock : ℕ → ℤ) (hostname : Text) (request : LogsRequest)
    → length (outcomes_of env clock hostname request) ≡ total_lines request
unfolding outcomes_of total_lines
length-outcomes_of env clock hostname request = omega (
  arith,
  length-append (check_each (check_line env hostname) clock 0 request.lines)
      (check_each (check_entry env hostname) clock (length request.lines) request.parsed_lines),
  length-check_each (check_line env hostname) clock 0 request.lines,
  length-check_each (check_entry env hostname) clock (length request.lines) request.parsed_lines,
)

-- What holds of a success.
abbrev pub OnOk : {A : Type 0} → (A → Type 0) → Result Reason A → Type 0
OnOk P (ok a) = P a
OnOk P (err e) = Unit

OnOk-bind :
    {A B : Type 0} (Q : A → Type 0) (P : B → Type 0) (r : Result Reason A)
    (next : A → Result Reason B)
    → OnOk Q r
    → ((a : A) → Q a → OnOk P (next a))
    → OnOk P (r >>= next)
OnOk-bind Q P (ok a) next h after = after a h
OnOk-bind Q P (err e) next h after = tt

-- A check whose value the later ones do not need.
OnOk-then :
    {A B : Type 0} (P : B → Type 0) (r : Result Reason A) (next : A → Result Reason B)
    → ((a : A) → OnOk P (next a))
    → OnOk P (r >>= next)
OnOk-then P (ok a) next after = after a
OnOk-then P (err e) next after = tt

abbrev pub HostIs : Text → InsertLogEntry → Type 0
HostIs hostname e = e.source_host ≡ some hostname

abbrev pub Hosted : Text → Result Reason ParsedIngest → Type 0
Hosted hostname outcome = OnOk (λ i. HostIs hostname i.entry) outcome

validate_log_line-Hosted :
    (env : Env) (now : ℤ) (hostname : Text) (line : LogLine)
    → OnOk (HostIs hostname) (validate_log_line env now hostname line)
unfolding validate_log_line
validate_log_line-Hosted env now hostname line =
    OnOk-then (HostIs hostname) (container env.is_match line.container) _ (λ a.
      OnOk-then (HostIs hostname) (stream line.stream) _ (λ b.
        OnOk-then (HostIs hostname) (timestamp (ts_from_ms env now line.timestamp_ms) now) _
          (λ c. refl)))

check_line-Hosted :
    (env : Env) (hostname : Text) (line : LogLine) (now : ℤ)
    → Hosted hostname (check_line env hostname line now)
unfolding check_line
check_line-Hosted env hostname line now =
    OnOk-bind (HostIs hostname) (λ i. HostIs hostname i.entry)
      (validate_log_line env now hostname line) _ (validate_log_line-Hosted env now hostname line)
      (λ e h. h)

check_entry-Hosted :
    (env : Env) (hostname : Text) (parsed : ProtoParsedLogEntry) (now : ℤ)
    → Hosted hostname (check_entry env hostname parsed now)
unfolding check_entry validate_parsed_entry parsed_ingest
check_entry-Hosted env hostname parsed now =
    OnOk-then (λ i. HostIs hostname i.entry) (check_parsed env now parsed) _ (λ u. refl)

All-accepted :
    (hostname : Text) (outcomes : List (Result Reason ParsedIngest)) (cache : ServiceCache)
    → All (Hosted hostname) outcomes
    → All (HostIs hostname) (map (attach cache) (accepted outcomes))
unfolding accepted attach
All-accepted hostname [] cache h = tt
All-accepted hostname (err e ∷ outcomes) cache h = All-accepted hostname outcomes cache h.1
All-accepted hostname (ok i ∷ outcomes) cache h = (h.0, All-accepted hostname outcomes cache h.1)

check_each-Hosted :
    {A : Type 0} (hostname : Text) (check : A → ℤ → Result Reason ParsedIngest) (clock : ℕ → ℤ)
    (n : ℕ) (l : List A)
    → ((a : A) (now : ℤ) → Hosted hostname (check a now))
    → All (Hosted hostname) (check_each check clock n l)
unfolding check_each
check_each-Hosted hostname check clock n [] h = tt
check_each-Hosted hostname check clock n (a ∷ l) h =
    (h a (clock n), check_each-Hosted hostname check clock (suc n) l h)

outcomes_of-Hosted :
    (env : Env) (clock : ℕ → ℤ) (hostname : Text) (request : LogsRequest)
    → All (Hosted hostname) (outcomes_of env clock hostname request)
unfolding outcomes_of
outcomes_of-Hosted env clock hostname request =
    All-append (Hosted hostname) (check_each (check_line env hostname) clock 0 request.lines)
      (check_each (check_entry env hostname) clock (length request.lines) request.parsed_lines)
      (check_each-Hosted hostname (check_line env hostname) clock 0 request.lines
        (check_line-Hosted env hostname))
      (check_each-Hosted hostname (check_entry env hostname) clock (length request.lines)
        request.parsed_lines (check_entry-Hosted env hostname))

module _ {R L : Type 0} (deps : Deps R L) (call : Call LogsRequest) (hostname : Text) (r : R) where
  -- The batch that a request makes: its accepted lines in order, each with the id that the request's
  -- cache has for its service.
  pub ingested-entries :
      (ingested deps call hostname r).entries
      ≡ map
          (attach (ingested deps call hostname r).service_cache)
          (accepted (outcomes_of deps.env call.clock hostname call.message))
  unfolding ingested
  ingested-entries =
      ingest_all-entries deps.repos (outcomes_of deps.env call.clock hostname call.message)
        (empty_batch r)

  -- Every line of a request is either stored or counted as rejected.
  pub ingested-rejected :
      length (ingested deps call hostname r).entries + (ingested deps call hostname r).rejected
      ≡ total_lines call.message
  unfolding ingested
  ingested-rejected =
      let outcomes = outcomes_of deps.env call.clock hostname call.message in
      let cache = (ingest_all deps.repos outcomes (empty_batch r)).service_cache in
      omega (
        arith,
        ap length ingested-entries,
        length-map (attach cache) (accepted outcomes),
        ingest_all-rejected deps.repos outcomes (empty_batch r),
        length-outcomes_of deps.env call.clock hostname call.message,
      )

  -- Every entry carries the host of the caller.
  pub ingested-HostIs : All (HostIs hostname) (ingested deps call hostname r).entries
  ingested-HostIs =
      let outcomes = outcomes_of deps.env call.clock hostname call.message in
      subst (All (HostIs hostname)) (sym ingested-entries) (
        All-accepted hostname outcomes (ingested deps call hostname r).service_cache
          (outcomes_of-Hosted deps.env call.clock hostname call.message))
