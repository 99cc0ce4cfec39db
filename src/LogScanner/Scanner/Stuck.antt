-- ===== src/LogScanner/Scanner/Stuck.antt =====
-- The scanner over a sink that refuses batches above a size.
use sentinalysis.Base.{
  Bool, List, Text, [], ap, append-nil, append_assoc, arith, false, if◌then◌else◌, length,
  length-append, refl, sym, true, ℕ, ◌++◌, ◌<◌, ◌∙◌, ◌∷◌, ◌≡◌,
}
use sentinalysis.Base.Results.{err}
use sentinalysis.LogScanner.Entry.{InsertLogEntry}
use sentinalysis.LogScanner.Scanner.{
  Event, LogSink, Loop, Scanner, cancelled, flush_batch, flushed, kept, processed, received, round,
  run, tick,
}

-- The sink refuses a batch of more than `cap` entries, and stays as it is.
unfoldable pub Refuses : {S : Type 0} → ℕ → LogSink S → Type 0
Refuses {S} cap sink =
    (s : S) (es : List InsertLogEntry)
    → cap < length es
    → (e : Text) × (sink.insert_batch s es ≡ (s, err e))

module _ {S : Type 0} (cap : ℕ) (sink : LogSink S) (sc : Scanner) (refuses : Refuses cap sink) where
  flush_batch_refused :
      (s : S) (es : List InsertLogEntry) → cap < length es → flush_batch sink s es ≡ (s, es)
  unfolding flush_batch Refuses
  flush_batch_refused s [] h = refl
  flush_batch_refused s (e ∷ es) h =
      ap (λ answer. (answer.0, kept answer.1 (e ∷ es))) (refuses s (e ∷ es) h).1

  -- The loop has kept the sink's state, and its batch has at most grown.
  Kept : Loop S → Loop S → Type 0
  Kept l last =
      (last.state ≡ l.state) × (rest : List InsertLogEntry) × (last.batch ≡ l.batch ++ rest)

  Kept-trans : (l m n : Loop S) → Kept l m → Kept m n → Kept l n
  unfolding Kept
  Kept-trans l m n (s, r, e) (t, q, f) =
      (t ∙ s, r ++ q, f ∙ ap (λ b. b ++ q) e ∙ append_assoc l.batch r q)

  Kept-refl : (l : Loop S) → Kept l l
  unfolding Kept
  Kept-refl l = (refl, [], sym (append-nil l.batch))

  Kept-flushed : (l : Loop S) (b : Bool) → cap < length l.batch → Kept l (flushed sink sc l b)
  unfolding Kept flushed
  Kept-flushed l b h = (
    ap (λ r. r.0) (flush_batch_refused l.state l.batch h),
    [],
    ap (λ r. r.1) (flush_batch_refused l.state l.batch h) ∙ sym (append-nil l.batch),
  )

  Kept-larger : (l m : Loop S) → Kept l m → cap < length l.batch → cap < length m.batch
  unfolding Kept
  Kept-larger l m (s, r, e) h = rw e (omega (arith, length-append l.batch r))

  Kept-if : (c : Bool) (l m n : Loop S) → Kept l m → Kept l n → Kept l (if c then m else n)
  Kept-if true l m n h k = h
  Kept-if false l m n h k = k

  Kept-round : (l : Loop S) (e : Event) → cap < length l.batch → Kept l (round sink sc l e)
  unfolding round Kept
  Kept-round l tick h = Kept-if _ l l _ (Kept-refl l) (Kept-flushed l false h)
  Kept-round l cancelled h = Kept-flushed l true h
  Kept-round l (received event) h =
      let grown : Loop S = record l { batch = l.batch ++ processed sc event } in
      let more : Kept l grown = (refl, processed sc event, refl) in
      Kept-if _ l (flushed sink sc grown false) grown
        (Kept-trans l grown (flushed sink sc grown false) more
          (Kept-flushed grown false (Kept-larger l grown more h)))
        more

  run-Kept : (es : List Event) (l : Loop S) → cap < length l.batch → Kept l (run sink sc es l)
  unfolding run
  run-Kept [] l h = Kept-refl l
  run-Kept (e ∷ es) l h =
      let next = round sink sc l e in
      let kept_now : Kept l next = Kept-round l e h in
      Kept-if l.stopped l l _ (Kept-refl l)
        (Kept-trans l next _ kept_now (run-Kept es next (Kept-larger l next kept_now h)))

  -- Over a sink that refuses every batch above a size and then stays as it is, a scanner whose
  -- batch is above that size never writes again: after any events the sink's state is the same,
  -- and the batch is the old one with entries added behind.
  pub run-refused :
      (es : List Event) (l : Loop S)
      → cap < length l.batch
      → ((run sink sc es l).state ≡ l.state)
        × (rest : List InsertLogEntry) × ((run sink sc es l).batch ≡ l.batch ++ rest)
  unfolding Kept
  run-refused es l h = run-Kept es l h
