-- ===== src/LogScanner/Scanner.antt =====
-- src/log_scanner/scanner.rs: the loop that batches processed lines into a sink. The pipeline and
-- the sink are parameters, and the events of the `select!` are the input, in the order it takes
-- them.
pub mod Ledger
pub mod Stuck
use sentinalysis.Base.{
  Bool, List, Option, Text, [], false, if◌then◌else◌, is_nil, leb, length, some, true, ℕ, ◌++◌, ◌∷◌,
}
use sentinalysis.Base.Results.{Result, err, ok}
use sentinalysis.LogScanner.Entry.{InsertLogEntry}
use sentinalysis.LogScanner.Tailer.State.{TailLine}

abbrev pub batch_size_default : ℕ
batch_size_default = 100

-- The trait, over the state `S` of the sink.
pub record LogSink (S : Type 0) : Type 0 where
  pub insert_batch : S → List InsertLogEntry → S × Result Text ℕ

abbrev pub TailEvent : Type 0
TailEvent = Result Text TailLine

pub record Scanner : Type 0 where
  pub process_line : TailLine → Result Text (Option InsertLogEntry)
  pub batch_size : ℕ

pub data Event : Type 0 where
  received : TailEvent → Event
  cancelled tick : Event

-- What stays in the batch: the entries are put back on a failure.
abbrev pub kept : Result Text ℕ → List InsertLogEntry → List InsertLogEntry
kept (ok n) es = []
kept (err e) es = es

-- The result is `Ok` in every case.
unfoldable pub flush_batch :
    {S : Type 0} → LogSink S → S → List InsertLogEntry → S × List InsertLogEntry
flush_batch sink s es =
    let answer = sink.insert_batch s es in
    if is_nil es then (s, []) else (answer.0, kept answer.1 es)

-- What one event of the channel adds to the batch.
unfoldable pub processed : Scanner → TailEvent → List InsertLogEntry
processed sc (err e) = []
processed sc (ok line) = elim (sc.process_line line) [ ok (some entry) ↦ entry ∷ [] | _ ↦ [] ]

-- The loop's state: the sink, the batch, and whether the loop has ended.
pub record Loop (S : Type 0) : Type 0 where
  pub state : S
  pub batch : List InsertLogEntry
  pub stopped : Bool

module _ {S : Type 0} (sink : LogSink S) (sc : Scanner) where
  unfoldable pub flushed : Loop S → Bool → Loop S
  unfolding flush_batch
  flushed l stops =
      let after = flush_batch sink l.state l.batch in
      record { state = after.0; batch = after.1; stopped = stops }

  -- One round of the loop.
  unfoldable pub round : Loop S → Event → Loop S
  unfolding flushed processed
  round l tick = if is_nil l.batch then l else flushed l false
  round l cancelled = flushed l true
  round l (received event) =
      let grown = record l { batch = l.batch ++ processed sc event } in
      if leb sc.batch_size (length grown.batch) then flushed grown false else grown

  unfoldable pub run : List Event → Loop S → Loop S
  unfolding round
  run [] l = l
  run (e ∷ es) l = if l.stopped then l else run es (round l e)

abbrev pub start : {S : Type 0} → S → Loop S
start s = record { state = s; batch = []; stopped = false }
