-- ===== src/Agent/Docker/Refused.antt =====
-- What the hub makes of the lines of containers: the drain thread of src/agent/docker_logs.rs, the
-- request of src/agent/mod.rs and the handler of src/hub/grpc.rs.
use sentinalysis.Base.{
  All, Bool, append-nil, if◌then◌else◌, is_nil, ◌==◌, List, Option, Text, [], ap, false, map, none,
  refl, some, suc, true, zero, All-append, take, drop, ℕ, ◌++◌, ◌∙◌, ◌∷◌, ◌≡◌,
}
use sentinalysis.Base.Int.{ℤ}
use sentinalysis.Base.Results.{Result, err, ok}
use sentinalysis.Hub.Validate.{Reason, bad_container, container, container_re}
use sentinalysis.Hub.Ingest.Check.{Env, ParsedIngest, validate_log_line}
use sentinalysis.Hub.Ingest.Wire.{LogsRequest}
use sentinalysis.Hub.Ingest.Handlers.{
  Call, Deps, IngestService, Repositories, Status, ack, authorize, with_repo,
}
use sentinalysis.Hub.Auth.Permission.{Principal}
use sentinalysis.Hub.Ingest.Trust.{authorize-repo}
use sentinalysis.Hub.Ingest.Logs.{
  Batch, empty_batch, ingest_one, check_each, check_line, ingest_all, ingested, outcomes_of,
  store_batch, accept_logs, logs_from, send_logs, store_logs,
}
use sentinalysis.Hub.Ingest.Batch.{accepted}
use sentinalysis.Agent.Forward.{LogLine, to_log_line}
use sentinalysis.Agent.Docker.{
  Changed, Decoder, DockerLogLine, Drain, Envelope, LogFile, Round, Tailed, drain, drain_round,
  envelope_line, line_of, on_path, on_paths, on_tailed, parse_all, parse_envelope, pending_of,
  read_new_lines, read_text, restarted, send_all, start, cons_some,
}

abbrev Unnamed : DockerLogLine → Type 0
Unnamed l = l.container ≡ []

cons_some_unless-Unnamed :
    (b : Bool) (l : DockerLogLine) (rest : List DockerLogLine)
    → Unnamed l
    → All Unnamed rest
    → All Unnamed (cons_some (if b then none else some l) rest)
cons_some_unless-Unnamed true l rest e h = h
cons_some_unless-Unnamed false l rest e h = (e, h)

cons_some-Unnamed :
    (d : Decoder) (now_ms : ℤ) (envelope : Option Envelope) (rest : List DockerLogLine)
    → All Unnamed rest
    → All Unnamed (cons_some (envelope_line d now_ms envelope) rest)
unfolding line_of
cons_some-Unnamed d now_ms none rest h = h
cons_some-Unnamed d now_ms (some envelope) rest h =
    cons_some_unless-Unnamed (is_nil envelope.log) (line_of d now_ms envelope) rest refl h

parse_all-Unnamed :
    (d : Decoder) (now_ms : ℤ) (raws : List Text) → All Unnamed (parse_all d now_ms raws)
unfolding parse_all parse_envelope
parse_all-Unnamed d now_ms [] = tt
parse_all-Unnamed d now_ms (raw ∷ raws) =
    cons_some-Unnamed d now_ms (d.from_str raw) (parse_all d now_ms raws)
      (parse_all-Unnamed d now_ms raws)

read_text-Unnamed :
    (d : Decoder) (now_ms : ℤ) (size : ℕ) (tailed : Tailed) (buf : Option Text)
    → All Unnamed (read_text d now_ms size tailed buf).1
read_text-Unnamed d now_ms size tailed none = tt
read_text-Unnamed d now_ms size tailed (some buf) = parse_all-Unnamed d now_ms _

pick-Unnamed :
    (b : Bool) (x y : Tailed × List DockerLogLine)
    → All Unnamed x.1
    → All Unnamed y.1
    → All Unnamed (if b then x else y).1
pick-Unnamed true x y h k = h
pick-Unnamed false x y h k = k

read_new_lines-Unnamed :
    (d : Decoder) (now_ms : ℤ) (file : Option LogFile) (tailed : Tailed)
    → All Unnamed (read_new_lines d now_ms file tailed).1
unfolding read_new_lines
read_new_lines-Unnamed d now_ms none tailed = tt
read_new_lines-Unnamed d now_ms (some file) tailed =
    let t = restarted file.size tailed in
    pick-Unnamed (file.size == t.offset) (t, [])
      (read_text d now_ms file.size t (file.read_from t.offset)) tt
      (read_text-Unnamed d now_ms file.size t (file.read_from t.offset))

-- The thread has sent no line with a name.
abbrev SentUnnamed : Drain → Type 0
SentUnnamed w = All Unnamed w.sent

-- One line, then the others by `send_rest`.
send_first-Unnamed :
    (takes : ℕ) (w : Drain) (send_rest : ℕ → Drain)
    → SentUnnamed w
    → ((k : ℕ) → SentUnnamed (send_rest k))
    → SentUnnamed (elim takes [ zero ↦ record w { returned = true } | suc k ↦ send_rest k ])
send_first-Unnamed zero w send_rest k h = k
send_first-Unnamed (suc n) w send_rest k h = h n

send_all-Unnamed :
    (ls : List DockerLogLine) (w : Drain)
    → All Unnamed ls
    → SentUnnamed w
    → SentUnnamed (send_all ls w)
unfolding send_all
send_all-Unnamed [] w h k = k
send_all-Unnamed (l ∷ ls) w h k =
    send_first-Unnamed w.takes w
      (λ n. send_all ls (record w { takes = n; sent = w.sent ++ l ∷ [] })) k
      (λ n. send_all-Unnamed ls _ h.1 (All-append Unnamed w.sent (l ∷ []) k (h.0, tt)))

on_tailed-Unnamed :
    (d : Decoder) (c : Changed) (w : Drain) (found : Option Tailed)
    → SentUnnamed w
    → SentUnnamed (on_tailed d c w found)
on_tailed-Unnamed d c w none k = k
on_tailed-Unnamed d c w (some tailed) k =
    send_all-Unnamed (read_new_lines d c.now_ms c.file tailed).1 _
      (read_new_lines-Unnamed d c.now_ms c.file tailed) k

either-Unnamed :
    (b : Bool) (w v : Drain) → SentUnnamed w → SentUnnamed v → SentUnnamed (if b then w else v)
either-Unnamed true w v h k = h
either-Unnamed false w v h k = k

on_paths-Unnamed :
    (d : Decoder) (cs : List Changed) (w : Drain) → SentUnnamed w → SentUnnamed (on_paths d cs w)
unfolding on_paths on_path
on_paths-Unnamed d [] w k = k
on_paths-Unnamed d (c ∷ cs) w k =
    on_paths-Unnamed d cs _ (either-Unnamed w.returned w _ k (on_tailed-Unnamed d c w _ k))

drain_round-Unnamed :
    (d : Decoder) (r : Round) (w : Drain) → SentUnnamed w → SentUnnamed (drain_round d r w)
unfolding drain_round
drain_round-Unnamed d (Round.event paths) w k = on_paths-Unnamed d paths w k
drain_round-Unnamed d Round.timeout w k = k
drain_round-Unnamed d Round.disconnected w k = k
drain_round-Unnamed d Round.cancelled w k = k

drain-Unnamed :
    (d : Decoder) (rs : List Round) (w : Drain) → SentUnnamed w → SentUnnamed (drain d rs w)
unfolding drain
drain-Unnamed d [] w k = k
drain-Unnamed d (r ∷ rs) w k =
    drain-Unnamed d rs _ (either-Unnamed w.returned w _ k (drain_round-Unnamed d r w k))

-- The lines of a request, as the agent sends them.
unfoldable pub sent_lines : List DockerLogLine → List LogLine
unfolding pending_of
sent_lines ls = map (λ l. to_log_line (pending_of l)) ls

check_line-Unnamed :
    (env : Env) (hostname : Text) (line : LogLine) (now : ℤ)
    → env.is_match container_re [] ≡ false
    → line.container ≡ []
    → check_line env hostname line now ≡ err (bad_container [])
unfolding check_line validate_log_line container
check_line-Unnamed env hostname line now e h = rw (h, e) refl

check_each-Unnamed :
    (env : Env) (hostname : Text) (clock : ℕ → ℤ) (n : ℕ) (ls : List DockerLogLine)
    → env.is_match container_re [] ≡ false
    → All Unnamed ls
    → accepted (check_each (check_line env hostname) clock n (sent_lines ls)) ≡ []
unfolding check_each sent_lines accepted
check_each-Unnamed env hostname clock n [] e h = refl
check_each-Unnamed env hostname clock n (l ∷ ls) e h =
    rw (check_line-Unnamed env hostname (to_log_line (pending_of l)) (clock n) e h.0)
      (check_each-Unnamed env hostname clock (suc n) ls e h.1)

module _ {R : Type 0} (repos : Repositories R) where
  record Untouched (b after : Batch R) : Type 0 where
    same_repo : after.repo ≡ b.repo
    same_entries : after.entries ≡ b.entries

  ingest_all-refused :
      (outcomes : List (Result Reason ParsedIngest)) (b : Batch R)
      → accepted outcomes ≡ []
      → Untouched b (ingest_all repos outcomes b)
  unfolding ingest_all accepted ingest_one
  ingest_all-refused [] b e = record { same_repo = refl; same_entries = refl }
  ingest_all-refused (err reason ∷ outcomes) b e =
      let rest = ingest_all-refused outcomes (record b { rejected = suc b.rejected }) e in
      record { same_repo = rest.same_repo; same_entries = rest.same_entries }
  ingest_all-refused (ok i ∷ outcomes) b e = absurd (cc)

  store_batch-Untouched :
      (r : R) (after : Batch R)
      → Untouched (empty_batch r) after
      → store_batch repos after ≡ (r, ok (ack 0))
  unfolding store_batch
  store_batch-Untouched r after u = rw (u.same_entries, u.same_repo) refl

-- A run of a list's elements keeps what holds of all.
All-take : {A : Type 0} (P : A → Type 0) (k : ℕ) (xs : List A) → All P xs → All P (take k xs)
All-take P zero xs h = tt
All-take P (suc k) [] h = tt
All-take P (suc k) (x ∷ xs) h = (h.0, All-take P k xs h.1)

All-drop : {A : Type 0} (P : A → Type 0) (k : ℕ) (xs : List A) → All P xs → All P (drop k xs)
All-drop P zero xs h = h
All-drop P (suc k) [] h = tt
All-drop P (suc k) (x ∷ xs) h = All-drop P k xs h.1

-- A batch without an accepted line is acknowledged with 0, and nothing is written.
ingested-refused :
    {R L : Type 0} (deps : Deps R L) (ls : List DockerLogLine) (hostname : Text) (r : R)
    (call : Call LogsRequest)
    → deps.env.is_match container_re [] ≡ false
    → call.message ≡ record { lines = sent_lines ls; parsed_lines = [] }
    → All Unnamed ls
    → store_batch deps.repos (ingested deps call hostname r) ≡ (r, ok (ack 0))
unfolding ingested outcomes_of check_each
ingested-refused deps ls hostname r call e m h =
    let refused : accepted (outcomes_of deps.env call.clock hostname call.message) ≡ [] =
      ap (λ message. accepted (outcomes_of deps.env call.clock hostname message)) m
      ∙ ap accepted
          (append-nil (check_each (check_line deps.env hostname) call.clock 0 (sent_lines ls)))
      ∙ check_each-Unnamed deps.env hostname call.clock 0 ls e h in
    store_batch-Untouched deps.repos r (ingested deps call hostname r) (
      ingest_all-refused deps.repos (outcomes_of deps.env call.clock hostname call.message)
        (empty_batch r) refused)

-- The handler behind a caller that it takes.
logs_from-refused :
    {R L : Type 0} (deps : Deps R L) (call : Call LogsRequest) (s : IngestService R L)
    (caller : Result Status Principal) (p : Principal) (hostname : Text)
    → caller ≡ ok p
    → accept_logs p call.message ≡ ok hostname
    → store_batch deps.repos (ingested deps call hostname s.repo) ≡ (s.repo, ok (ack 0))
    → logs_from deps call (s, caller) ≡ with_repo s (s.repo, ok (ack 0))
logs_from-refused deps call s caller p hostname h a e =
    ap (λ c. logs_from deps call (s, c)) h ∙ ap (store_logs deps call s) a ∙ ap (with_repo s) e

-- Whatever containers the drain thread starts with, and in whatever rounds their logs change, a
-- request of any run of the lines that it sends, from a caller that is authenticated, may send logs
-- for its host and keeps the limit of lines, is acknowledged by `send_logs` with no line accepted and
-- leaves the tables as they were, for a matcher that refuses the empty text as the name of a
-- container.
pub drain-refused :
    {R L : Type 0} (deps : Deps R L) (d : Decoder) (rounds : List Round) (containers : List Tailed)
    (takes before count : ℕ) (call : Call LogsRequest) (s : IngestService R L) (p : Principal)
    (hostname : Text)
    → deps.env.is_match container_re [] ≡ false
    → call.message ≡ record {
      lines = sent_lines (take count (drop before (drain d rounds (start containers takes)).sent));
      parsed_lines = [];
    }
    → (authorize deps call s).1 ≡ ok p
    → accept_logs p call.message ≡ ok hostname
    → ((send_logs deps call s).1 ≡ ok (ack 0)) × ((send_logs deps call s).0.repo ≡ s.repo)
unfolding send_logs start
drain-refused deps d rounds containers takes before count call s p hostname e m h a =
    let sent = (drain d rounds (start containers takes)).sent in
    let unnamed : All Unnamed (take count (drop before sent)) =
      All-take Unnamed count (drop before sent)
        (All-drop Unnamed before sent (drain-Unnamed d rounds (start containers takes) tt)) in
    let asked = authorize deps call s in
    let done = logs_from-refused deps call asked.0 asked.1 p hostname h a (
      ingested-refused deps (take count (drop before sent)) hostname asked.0.repo call e m
        unnamed) in
    (ap (λ q. q.1) done, ap (λ q. q.0.repo) done ∙ authorize-repo deps call s)
