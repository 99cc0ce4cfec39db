-- ===== src/Agent/Docker.antt =====
-- src/agent/docker_logs.rs: the tailing of container logs. The JSON decoder and the parser of times
-- are parameters; a directory, a log file and the receiver of the lines are what each call finds.
pub mod Growth
pub mod Refused
use sentinalysis.Base.{
  Bool, List, Option, Text, [], codes, false, if◌then◌else◌, is_nil, ltb, none, not, some, suc,
  true, zero, ℕ, ◌&&◌, ◌++◌, ◌==◌, ◌∷◌,
}
use sentinalysis.Base.Int.{ℤ}
use sentinalysis.Base.Dict.{Dict, insert, lookup, mem_text}
use sentinalysis.Base.Results.{Result, err, ok}
use sentinalysis.Agent.Batcher.{PendingLine}
use sentinalysis.Agent.Logs.{timestamp_millis}
use sentinalysis.LogScanner.Tailer.State.{lines}

pub record DockerLogLine : Type 0 where
  pub timestamp_ms : ℤ
  pub container : Text
  pub stream : Text
  pub message : Text

pub record ContainerConfigV2 : Type 0 where
  pub name : Option Text
  pub log_path : Option Text

pub record Tailed : Type 0 where
  pub name : Text
  pub log_path : Text
  pub offset : ℕ

-- `trim_start_matches` and `trim_end_matches` with a character.
unfoldable pub trim_start_char : ℕ → Text → Text
trim_start_char c [] = []
trim_start_char c (x ∷ xs) = let rest = trim_start_char c xs in if x == c then rest else x ∷ xs

unfoldable pub trim_end_char : ℕ → Text → Text
trim_end_char c [] = []
trim_end_char c (x ∷ xs) =
    let rest = trim_end_char c xs in if is_nil rest && x == c then [] else x ∷ rest

abbrev pub or_empty : Option Text → Text
or_empty none = []
or_empty (some s) = s

abbrev pub or_zero : Option ℕ → ℕ
or_zero none = 0
or_zero (some n) = n

-- A container with a wanted name, at the end of its log.
abbrev pub tailed_at : (Text → Option ℕ) → Text → Option Text → List Tailed → List Tailed
tailed_at size_of short none tailed = tailed
tailed_at size_of short (some log_path) tailed =
    record { name = short; log_path = log_path; offset = or_zero (size_of log_path) } ∷ tailed

-- The loop over the entries of the root: each is its decoded configuration, if that can be read.
unfoldable pub discover_in :
    (Text → Option ℕ) → List Text → List (Option ContainerConfigV2) → List Tailed
unfolding trim_start_char mem_text
discover_in size_of names [] = []
discover_in size_of names (none ∷ entries) = discover_in size_of names entries
discover_in size_of names (some config ∷ entries) =
    let rest = discover_in size_of names entries in
    let short = trim_start_char b'/' (or_empty config.name) in
    if not (mem_text short names) then rest else tailed_at size_of short config.log_path rest

abbrev pub discovered :
    (Text → Option ℕ)
    → List Text
    → Result Text (List (Option ContainerConfigV2))
    → Result Text (List Tailed)
discovered size_of names (err e) = err e
discovered size_of names (ok entries) = ok (discover_in size_of names entries)

unfoldable pub discover :
    (Text → Option ℕ)
    → Result Text (List (Option ContainerConfigV2))
    → List Text
    → Result Text (List Tailed)
unfolding discover_in
discover size_of root names = if is_nil names then ok [] else discovered size_of names root

-- One line of a log, as the JSON decoder reads it.
pub record Envelope : Type 0 where
  pub log : Text
  pub stream : Text
  pub time : Option Text

pub record Decoder : Type 0 where
  pub from_str : Text → Option Envelope
  pub parse_rfc3339 : Text → Option ℤ

abbrev pub parsed_time : Decoder → Option Text → Option ℤ
parsed_time d none = none
parsed_time d (some time) = d.parse_rfc3339 time

abbrev pub millis_or : ℤ → Option ℤ → ℤ
millis_or now_ms none = now_ms
millis_or now_ms (some time) = timestamp_millis time

unfoldable pub line_of : Decoder → ℤ → Envelope → DockerLogLine
unfolding trim_end_char
line_of d now_ms envelope = record {
  timestamp_ms = millis_or now_ms (parsed_time d envelope.time);
  container = [];
  stream = if is_nil envelope.stream then codes "stdout" else envelope.stream;
  message = trim_end_char 13 (trim_end_char 10 envelope.log);
}

abbrev pub envelope_line : Decoder → ℤ → Option Envelope → Option DockerLogLine
envelope_line d now_ms none = none
envelope_line d now_ms (some envelope) =
    if is_nil envelope.log then none else some (line_of d now_ms envelope)

-- `now_ms` is the clock, for a line without a time.
unfoldable pub parse_envelope : Decoder → ℤ → Text → Option DockerLogLine
unfolding line_of
parse_envelope d now_ms raw = envelope_line d now_ms (d.from_str raw)

abbrev pub cons_some : Option DockerLogLine → List DockerLogLine → List DockerLogLine
cons_some none rest = rest
cons_some (some line) rest = line ∷ rest

-- `filter_map(parse_envelope)`
unfoldable pub parse_all : Decoder → ℤ → List Text → List DockerLogLine
unfolding parse_envelope
parse_all d now_ms [] = []
parse_all d now_ms (raw ∷ raws) = cons_some (parse_envelope d now_ms raw) (parse_all d now_ms raws)

-- A log file that opens: the size its metadata tells, and what is read from an offset to the end.
pub record LogFile : Type 0 where
  pub size : ℕ
  pub read_from : ℕ → Option Text

abbrev pub read_text : Decoder → ℤ → ℕ → Tailed → Option Text → Tailed × List DockerLogLine
read_text d now_ms size tailed none = (tailed, [])
read_text d now_ms size tailed (some buf) =
    (record tailed { offset = size }, parse_all d now_ms (lines buf))

-- A file that shrank is read from its start.
abbrev pub restarted : ℕ → Tailed → Tailed
restarted size tailed = if ltb size tailed.offset then record tailed { offset = 0 } else tailed

abbrev pub read_opened : Decoder → ℤ → LogFile → Tailed → Tailed × List DockerLogLine
read_opened d now_ms file tailed =
    if file.size == tailed.offset
    then (tailed, [])
    else read_text d now_ms file.size tailed (file.read_from tailed.offset)

-- `none` is a file that cannot be opened or has no metadata.
unfoldable pub read_new_lines : Decoder → ℤ → Option LogFile → Tailed → Tailed × List DockerLogLine
unfolding lines parse_all
read_new_lines d now_ms none tailed = (tailed, [])
read_new_lines d now_ms (some file) tailed = read_opened d now_ms file (restarted file.size tailed)

-- The map of the drain thread: of two containers with one log path the later one is kept.
unfoldable pub by_path : Dict Tailed → List Tailed → Dict Tailed
unfolding insert
by_path m [] = m
by_path m (t ∷ ts) = by_path (insert t.log_path t m) ts

-- The drain thread: its map, how many lines the receiver still takes before it is dropped, the lines
-- it took, and whether the thread has returned.
pub record Drain : Type 0 where
  pub state : Dict Tailed
  pub takes : ℕ
  pub sent : List DockerLogLine
  pub returned : Bool

-- The thread that `start` spawns.
unfoldable pub start : List Tailed → ℕ → Drain
unfolding by_path
start containers takes = record {
  state = by_path [] containers;
  takes = takes;
  sent = [];
  returned = false;
}

unfoldable pub send_all : List DockerLogLine → Drain → Drain
send_all [] w = w
send_all (l ∷ ls) w = elim w.takes [
  | zero ↦ record w { returned = true }
  | suc k ↦ send_all ls (record w { takes = k; sent = w.sent ++ l ∷ [] })
]

-- A path of an event, with the file and the clock when it is read.
pub record Changed : Type 0 where
  pub path : Text
  pub file : Option LogFile
  pub now_ms : ℤ

abbrev pub kept : Text → Drain → Tailed × List DockerLogLine → Drain
kept path w (tailed, new_lines) =
    send_all new_lines (record w { state = insert path tailed w.state })

abbrev pub on_tailed : Decoder → Changed → Drain → Option Tailed → Drain
on_tailed d c w none = w
on_tailed d c w (some tailed) = kept c.path w (read_new_lines d c.now_ms c.file tailed)

unfoldable pub on_path : Decoder → Changed → Drain → Drain
unfolding lookup insert read_new_lines send_all
on_path d c w = if w.returned then w else on_tailed d c w (lookup c.path w.state)

unfoldable pub on_paths : Decoder → List Changed → Drain → Drain
unfolding on_path
on_paths d [] w = w
on_paths d (c ∷ cs) w = on_paths d cs (on_path d c w)

-- A round of the thread's loop: an event, a timeout, a closed channel, or a cancellation seen.
pub data Round : Type 0 where
  event : List Changed → Round
  timeout disconnected cancelled : Round

unfoldable pub drain_round : Decoder → Round → Drain → Drain
unfolding on_paths
drain_round d (event paths) w = on_paths d paths w
drain_round d timeout w = w
drain_round d disconnected w = record w { returned = true }
drain_round d cancelled w = record w { returned = true }

unfoldable pub drain : Decoder → List Round → Drain → Drain
unfolding drain_round
drain d [] w = w
drain d (r ∷ rs) w = drain d rs (if w.returned then w else drain_round d r w)

-- The line that the agent's loop pushes, of src/agent/mod.rs.
unfoldable pub pending_of : DockerLogLine → PendingLine
pending_of line = record {
  timestamp_ms = line.timestamp_ms;
  container = line.container;
  stream = line.stream;
  message = line.message;
}
