-- ===== src/Agent/Forward.antt =====
-- src/agent/mod.rs: the agent's loop over Docker lines, its flush and its shutdown. The hub is the
-- outcome of each send; timers, the channel and the cancel token are the events of a schedule.
pub mod Flow
pub mod Backlog
use sentinalysis.Base.{
  List, Option, Text, [], if◌then◌else◌, leb, length, map, none, some, ℕ, ◌++◌, ◌-◌, ◌∷◌,
}
use sentinalysis.Base.Int.{ℤ}
use sentinalysis.Base.Options.{◌>>=◌}
use sentinalysis.Agent.Batcher.{
  BoundedBatcher, PendingLine, drain, is_empty, new, push, take_dropped, u64_mod,
}

-- What `send_logs` returned. The last flush has a deadline, which may fire before that.
pub data SendResult : Type 0 where
  delivered refused : SendResult

pub data Outcome : Type 0 where
  sent : SendResult → Outcome
  timed_out : Outcome

-- The wire message of proto/sentinel.proto.
pub record LogLine : Type 0 where
  pub timestamp_ms : ℤ
  pub container : Text
  pub stream : Text
  pub message : Text

abbrev pub to_log_line : PendingLine → LogLine
to_log_line p = record {
  timestamp_ms = p.timestamp_ms;
  container = p.container;
  stream = p.stream;
  message = p.message;
}

-- One request of the agent, with what became of it.
pub record Request : Type 0 where
  pub body : List LogLine
  pub outcome : Outcome

-- The tail of `flush` after the send. A deadline that fires drops the future before it runs.
abbrev pub settle : Outcome → BoundedBatcher → BoundedBatcher
settle timed_out b = b
settle (sent r) b = (take_dropped b).0

-- The batcher, and the requests made: none or one.
unfoldable pub flush : BoundedBatcher → ℕ → Outcome → BoundedBatcher × List Request
unfolding is_empty drain take_dropped
flush b batch_size outcome =
    if is_empty b
    then (b, [])
    else let drained = drain b batch_size in
      (
        settle outcome drained.0,
        record { body = map to_log_line drained.1; outcome = outcome } ∷ [],
      )

-- What `shutdown` logs.
pub record Report : Type 0 where
  pub deadline_hit : Option ℕ
  pub dropped_now : ℕ
  pub total : ℕ

abbrev pub usize_max : ℕ
usize_max = u64_mod - 1

abbrev hit : Outcome → BoundedBatcher → Option ℕ
hit timed_out b = some (length b.buf)
hit _ b = none

-- The outcome of the last flush counts only if there was one to wait for.
abbrev awaited : List Request → Outcome → Outcome
awaited [] outcome = sent delivered
awaited (r ∷ rs) outcome = outcome

unfoldable pub shutdown : BoundedBatcher → Outcome → BoundedBatcher × List Request × Report
unfolding flush
shutdown b outcome =
    let flushed = flush b usize_max outcome in
    let reported = take_dropped flushed.0 in
    (
      reported.0,
      flushed.1,
      record {
        deadline_hit = hit (awaited flushed.1 outcome) flushed.0;
        dropped_now = reported.1;
        total = reported.0.total_dropped;
      },
    )

pub data Status : Type 0 where
  running : Status
  -- inside `pending().await`: the loop is never polled again
  pending : Status
  stopped : Report → Status

pub data Event : Type 0 where
  metrics_tick : Event
  flush_tick : SendResult → Event
  received : PendingLine → SendResult → Event
  channel_closed : Event
  cancelled : Outcome → Event

pub record Agent : Type 0 where
  pub status : Status
  pub batcher : BoundedBatcher
  pub requests : List Request

abbrev pub flushed : Agent → BoundedBatcher × List Request → Agent
flushed a (b, rs) = record a { batcher = b; requests = a.requests ++ rs }

-- The size test behind a push.
abbrev pub pushed : ℕ → Agent → SendResult → BoundedBatcher → Agent
pushed batch_size a r b =
    if leb batch_size (length b.buf)
    then flushed a (flush b batch_size (sent r))
    else record a { batcher = b }

abbrev pub ended : Agent → BoundedBatcher × List Request × Report → Agent
ended a (b, rs, report) = record {
  status = stopped report;
  batcher = b;
  requests = a.requests ++ rs;
}

-- One round of the `select!` of `run`.
pub step_running : ℕ → Agent → Event → Option Agent
step_running batch_size a metrics_tick = some a
step_running batch_size a (flush_tick r) = some (flushed a (flush a.batcher batch_size (sent r)))
step_running batch_size a (received line r) = do
  b ← push a.batcher line
  some (pushed batch_size a r b)
step_running batch_size a channel_closed = some (record a { status = pending })
step_running batch_size a (cancelled o) = some (ended a (shutdown a.batcher o))

abbrev step_in : ℕ → Agent → Event → Status → Option Agent
step_in batch_size a e running = step_running batch_size a e
step_in batch_size a e _ = some a

unfoldable pub step : ℕ → Agent → Event → Option Agent
unfolding step_running
step batch_size a e = step_in batch_size a e a.status

unfoldable pub run : ℕ → Agent → List Event → Option Agent
run batch_size a [] = some a
run batch_size a (e ∷ es) = do a' ← step batch_size a e; run batch_size a' es

-- The state in which `run` enters its loop.
abbrev pub start : ℕ → Agent
start log_buffer_max = record { status = running; batcher = new log_buffer_max; requests = [] }
