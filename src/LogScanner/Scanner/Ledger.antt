-- ===== src/LogScanner/Scanner/Ledger.antt =====
-- The scanner over a sink that also keeps what it has taken.
use sentinalysis.Base.{
  Bool, Bool-cases, List, Text, [], ap, append-nil, append_assoc, false, if◌then◌else◌, inl, inr,
  is_nil, leb, length, refl, sym, true, ℕ, ◌++◌, ◌∙◌, ◌∷◌, ◌≡◌,
}
use sentinalysis.Base.Results.{Result, err, ok}
use sentinalysis.LogScanner.Entry.{InsertLogEntry}
use sentinalysis.LogScanner.Scanner.{
  Event, LogSink, Loop, Scanner, TailEvent, cancelled, flush_batch, flushed, kept, processed,
  received, round, run, tick,
}

abbrev pub taken : Result Text ℕ → List InsertLogEntry → List InsertLogEntry
taken (ok n) es = es
taken (err e) es = []

-- The sink, and the batches it took, joined.
unfoldable pub ledger : {S : Type 0} → LogSink S → LogSink (S × List InsertLogEntry)
ledger sink = record {
  insert_batch = λ s es.
      let answer = sink.insert_batch s.0 es in ((answer.0, s.1 ++ taken answer.1 es), answer.1);
}

-- What the events add, up to the cancellation.
unfoldable pub intake : Scanner → List Event → List InsertLogEntry
intake sc [] = []
intake sc (received event ∷ es) = processed sc event ++ intake sc es
intake sc (cancelled ∷ es) = []
intake sc (tick ∷ es) = intake sc es

taken-kept : (r : Result Text ℕ) (es : List InsertLogEntry) → taken r es ++ kept r es ≡ es
taken-kept (ok n) es = append-nil es
taken-kept (err e) es = refl

-- What was taken, then what waits.
unfoldable pub account : {S : Type 0} → Loop (S × List InsertLogEntry) → List InsertLogEntry
account l = l.state.1 ++ l.batch

module _ {S : Type 0} (sink : LogSink S) (sc : Scanner) where
  flush_batch-account :
      (s : S × List InsertLogEntry) (es : List InsertLogEntry)
      → (flush_batch (ledger sink) s es).0.1 ++ (flush_batch (ledger sink) s es).1 ≡ s.1 ++ es
  unfolding flush_batch ledger
  flush_batch-account s [] = refl
  flush_batch-account s (e ∷ es) =
      let answer = sink.insert_batch s.0 (e ∷ es) in
      append_assoc s.1 (taken answer.1 (e ∷ es)) (kept answer.1 (e ∷ es))
      ∙ ap (λ l. s.1 ++ l) (taken-kept answer.1 (e ∷ es))

  flushed-account :
      (l : Loop (S × List InsertLogEntry)) (b : Bool)
      → account (flushed (ledger sink) sc l b) ≡ account l
  unfolding account flushed
  flushed-account l b = flush_batch-account l.state l.batch

  received-account :
      (l : Loop (S × List InsertLogEntry)) (event : TailEvent)
      → account (round (ledger sink) sc l (received event)) ≡ account l ++ processed sc event
  unfolding account round
  received-account l event =
      let grown : Loop (S × List InsertLogEntry) = record l {
        batch = l.batch ++ processed sc event;
      } in
      let same : account grown ≡ account l ++ processed sc event =
        sym (append_assoc l.state.1 l.batch (processed sc event)) in
      elim (Bool-cases (leb sc.batch_size (length grown.batch))) [
        | inl e ↦
            ap (λ b. account (if b then flushed (ledger sink) sc grown false else grown)) e
            ∙ flushed-account grown false
            ∙ same
        | inr e ↦
            ap (λ b. account (if b then flushed (ledger sink) sc grown false else grown)) e ∙ same
      ]

  received-running :
      (l : Loop (S × List InsertLogEntry)) (event : TailEvent)
      → l.stopped ≡ false
      → (round (ledger sink) sc l (received event)).stopped ≡ false
  unfolding round flushed
  received-running l event h =
      elim (Bool-cases (leb sc.batch_size (length (l.batch ++ processed sc event)))) [
        | inl e ↦ rw e refl
        | inr e ↦ rw e h
      ]

  tick-account :
      (l : Loop (S × List InsertLogEntry))
      → l.stopped ≡ false
      → (account (round (ledger sink) sc l tick) ≡ account l)
        × ((round (ledger sink) sc l tick).stopped ≡ false)
  unfolding round flushed
  tick-account l h = elim (Bool-cases (is_nil l.batch)) [
    | inl e ↦ (
      ap (λ b. account (if b then l else flushed (ledger sink) sc l false)) e,
      ap (λ b. (if b then l else flushed (ledger sink) sc l false).stopped) e ∙ h,
    )
    | inr e ↦ (
      ap (λ b. account (if b then l else flushed (ledger sink) sc l false)) e
          ∙ flushed-account l false,
      ap (λ b. (if b then l else flushed (ledger sink) sc l false).stopped) e,
    )
  ]

  run_running :
      (e : Event) (es : List Event) (l : Loop (S × List InsertLogEntry))
      → l.stopped ≡ false
      → run (ledger sink) sc (e ∷ es) l ≡ run (ledger sink) sc es (round (ledger sink) sc l e)
  unfolding run
  run_running e es l h =
      ap (λ b. if b then l else run (ledger sink) sc es (round (ledger sink) sc l e)) h

  run_stopped :
      (es : List Event) (l : Loop (S × List InsertLogEntry))
      → l.stopped ≡ true
      → run (ledger sink) sc es l ≡ l
  unfolding run
  run_stopped [] l h = refl
  run_stopped (e ∷ es) l h =
      ap (λ b. if b then l else run (ledger sink) sc es (round (ledger sink) sc l e)) h

  -- From a scanner that has not stopped, whatever its sink answers and whatever events follow: the
  -- entries that the sink took, followed by the batch, are those of the start followed by the
  -- entries that the events add up to the first cancellation, in order, with none lost and none
  -- written twice.
  pub run-account :
      (es : List Event) (l : Loop (S × List InsertLogEntry))
      → l.stopped ≡ false
      → account (run (ledger sink) sc es l) ≡ account l ++ intake sc es
  unfolding run intake
  run-account [] l h = sym (append-nil _)
  run-account (tick ∷ es) l h =
      ap account (run_running tick es l h)
      ∙ run-account es _ (tick-account l h).1
      ∙ ap (λ a. a ++ intake sc es) (tick-account l h).0
  run-account (cancelled ∷ es) l h =
      ap account (run_running cancelled es l h)
      ∙ ap account (run_stopped es (round (ledger sink) sc l cancelled) refl)
      ∙ flushed-account l true
      ∙ sym (append-nil _)
  run-account (received event ∷ es) l h =
      ap account (run_running (received event) es l h)
      ∙ run-account es _ (received-running l event h)
      ∙ ap (λ a. a ++ intake sc es) (received-account l event)
      ∙ append_assoc (account l) (processed sc event) (intake sc es)
