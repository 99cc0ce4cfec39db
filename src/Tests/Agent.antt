-- ===== src/Tests/Agent.antt =====
-- The agent's theorems at concrete inputs.
use sentinalysis.Base.{List, [], arith, codes, length, some, ℕ, ◌<◌, ◌∷◌, ◌≡◌}
use sentinalysis.Base.Int.{pos}
use sentinalysis.Agent.Batcher.{BoundedBatcher, PendingLine, new}
use sentinalysis.Agent.Batcher.History.{
  Call, Conserves, drain_lines, new-IsValid, offered, push_line, report, run_calls,
  run_calls-Conserves,
}
use sentinalysis.Agent.Forward.{
  Agent, Event, cancelled, delivered, flush_tick, metrics_tick, received, refused, run, running,
  shutdown, start, timed_out,
}
use sentinalysis.Agent.Forward.Flow.{received_lines, run-Flows, sent_lines}
use sentinalysis.Agent.Forward.Backlog.{run_backlog, shutdown-timed_out}

abbrev line_of : ℕ → PendingLine
line_of n = record {
  timestamp_ms = pos n;
  container = codes "web";
  stream = codes "stdout";
  message = codes "started";
}

abbrev some_calls : List Call
some_calls =
    push_line (line_of 1)
    ∷ push_line (line_of 2)
    ∷ push_line (line_of 3)
    ∷ drain_lines 1
    ∷ report
    ∷ []

run_calls-Conserves_example :
    (last : BoundedBatcher) × (out : List PendingLine) × (run_calls some_calls (new 2)
      ≡ some (last, out))
    × Conserves (new 2) last (offered some_calls) out
run_calls-Conserves_example = run_calls-Conserves some_calls (new 2) (new-IsValid 2)

-- Two lines, a refused send, and a shutdown whose last send times out.
abbrev some_events : List Event
some_events =
    received (line_of 1) refused
    ∷ metrics_tick
    ∷ received (line_of 2) refused
    ∷ flush_tick delivered
    ∷ received (line_of 3) delivered
    ∷ cancelled timed_out
    ∷ []

run-Flows_example :
    (a : Agent) × (run 2 (start 4) some_events ≡ some a)
    × Conserves
        (start 4).batcher
        a.batcher
        (received_lines running some_events)
        (sent_lines a.requests)
run-Flows_example = run-Flows 2 4 some_events

run_backlog_example :
    (a : Agent) × (run 2 (start 4) some_events ≡ some a)
    × (length a.batcher.buf < 2)
    × (a.batcher.total_dropped ≡ 0)
run_backlog_example = run_backlog 2 4 some_events (omega arith) (omega arith)

abbrev one_held : BoundedBatcher
one_held = record {
  buf = line_of 1 ∷ [];
  max_lines = 4;
  dropped_since_report = 0;
  total_dropped = 0;
}

shutdown-timed_out_example :
    ((shutdown one_held timed_out).2.deadline_hit ≡ some 0)
    × ((shutdown one_held timed_out).2.total ≡ one_held.total_dropped)
    × (sent_lines (shutdown one_held timed_out).1 ≡ one_held.buf)
shutdown-timed_out_example = shutdown-timed_out one_held (λ e. cc) (omega arith)
