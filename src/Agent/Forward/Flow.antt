-- ===== src/Agent/Forward/Flow.antt =====
-- Where the lines that the agent received end up.
use mathlib.Core.Path.{subst}
use sentinalysis.Base.{
  Bool-cases, map, List, [], ap, append-nil, append_assoc, arith, inl, inr, is_nil, leb, length,
  refl, some, sym, ℕ, ◌++◌, ◌∙◌, ◌∷◌, ◌≡◌,
}
use sentinalysis.Agent.Batcher.{BoundedBatcher, PendingLine, drain, take_dropped}
use sentinalysis.Agent.Batcher.Push.{IsValid, after_push, after_push-IsValid, push-after_push}
use sentinalysis.Agent.Batcher.History.{
  Conserves, Conserves-drain, Conserves-push, Conserves-refl, Conserves-take_dropped,
  Conserves-trans, new-IsValid,
}
use sentinalysis.Agent.Forward.{
  Agent, Event, LogLine, to_log_line, Outcome, Report, Request, SendResult, Status, cancelled,
  channel_closed, ended, flush, flush_tick, flushed, metrics_tick, pending, pushed, received, run,
  running, sent, settle, shutdown, start, step, step_in, step_running, stopped, timed_out,
  usize_max,
}

-- The lines received while the loop runs.
pub received_lines : Status → List Event → List PendingLine
received_lines running [] = []
received_lines running (received line o ∷ es) = line ∷ received_lines running es
received_lines running (metrics_tick ∷ es) = received_lines running es
received_lines running (flush_tick o ∷ es) = received_lines running es
received_lines running (channel_closed ∷ es) = []
received_lines running (cancelled o ∷ es) = []
received_lines pending es = []
received_lines (stopped r) es = []

-- A wire line holds what a held line holds.
abbrev pub of_log_line : LogLine → PendingLine
of_log_line l = record {
  timestamp_ms = l.timestamp_ms;
  container = l.container;
  stream = l.stream;
  message = l.message;
}

pub of-to_log_line : (ls : List PendingLine) → map of_log_line (map to_log_line ls) ≡ ls
of-to_log_line [] = refl
of-to_log_line (l ∷ ls) = ap (◌∷◌ l) (of-to_log_line ls)

-- The lines in the bodies of the requests, in order.
unfoldable pub sent_lines : List Request → List PendingLine
sent_lines [] = []
sent_lines (r ∷ rs) = map of_log_line r.body ++ sent_lines rs

pub sent_lines-append :
    (rs qs : List Request) → sent_lines (rs ++ qs) ≡ sent_lines rs ++ sent_lines qs
unfolding sent_lines
sent_lines-append [] qs = refl
sent_lines-append (r ∷ rs) qs =
    ap (λ l. map of_log_line r.body ++ l) (sent_lines-append rs qs)
    ∙ sym (append_assoc (map of_log_line r.body) _ _)

Conserves-settle : (o : Outcome) (b : BoundedBatcher) → IsValid b → Conserves b (settle o b) [] []
Conserves-settle timed_out b v = Conserves-refl b v
Conserves-settle (sent r) b v = Conserves-take_dropped b v

pub Conserves-flush :
    (b : BoundedBatcher) (n : ℕ) (o : Outcome)
    → IsValid b
    → Conserves b (flush b n o).0 [] (sent_lines (flush b n o).1)
unfolding flush sent_lines
Conserves-flush b n o v = elim (Bool-cases (is_nil b.buf)) [
  | inl none_held ↦ rw none_held (Conserves-refl b v)
  | inr some_held ↦ rw some_held (
      let first = Conserves-drain b n v in
      subst (λ out. Conserves b (settle o (drain b n).0) [] (out ++ []))
        (sym (of-to_log_line (drain b n).1))
        (Conserves-trans [] [] (drain b n).1 [] first
          (Conserves-settle o (drain b n).0 first.valid)))
]

Conserves-shutdown :
    (b : BoundedBatcher) (o : Outcome)
    → IsValid b
    → Conserves b (shutdown b o).0 [] (sent_lines (shutdown b o).1)
unfolding shutdown
Conserves-shutdown b o v =
    let first = Conserves-flush b usize_max o v in
    let second = Conserves-take_dropped (flush b usize_max o).0 first.valid in
    subst (λ out. Conserves b (take_dropped (flush b usize_max o).0).0 [] out)
      (append-nil (sent_lines (flush b usize_max o).1))
      (Conserves-trans [] [] (sent_lines (flush b usize_max o).1) [] first second)

-- From `a` the loop has received `lines`, and gone on to `a'`.
pub record Flows (a a' : Agent) (lines : List PendingLine) : Type 0 where
  pub requests : List Request
  pub appended : a'.requests ≡ a.requests ++ requests
  pub conserves : Conserves a.batcher a'.batcher lines (sent_lines requests)

Flows-refl :
    (a a' : Agent)
    → a.batcher ≡ a'.batcher
    → a.requests ≡ a'.requests
    → IsValid a.batcher
    → Flows a a' []
unfolding sent_lines
Flows-refl a a' e f v = record {
  requests = [];
  appended = sym f ∙ sym (append-nil a.requests);
  conserves = subst (λ b. Conserves a.batcher b [] []) e (Conserves-refl a.batcher v);
}

Flows-trans :
    (a : Agent) {b c : Agent} (l m : List PendingLine)
    → Flows a b l
    → Flows b c m
    → Flows a c (l ++ m)
Flows-trans a l m f g = record {
  requests = f.requests ++ g.requests;
  appended = g.appended ∙ ap (λ rs. rs ++ g.requests) f.appended ∙ append_assoc a.requests _ _;
  conserves = rw sent_lines-append (Conserves-trans l m _ _ f.conserves g.conserves);
}

Flows-flush :
    (a : Agent) (n : ℕ) (o : Outcome)
    → IsValid a.batcher
    → Flows a (flushed a (flush a.batcher n o)) []
Flows-flush a n o v = record {
  requests = (flush a.batcher n o).1;
  appended = refl;
  conserves = Conserves-flush a.batcher n o v;
}

Flows-ended :
    (a : Agent) (o : Outcome) → IsValid a.batcher → Flows a (ended a (shutdown a.batcher o)) []
Flows-ended a o v = record {
  requests = (shutdown a.batcher o).1;
  appended = refl;
  conserves = Conserves-shutdown a.batcher o v;
}

Flows-pushed :
    (n : ℕ) (a : Agent) (r : SendResult) (line : PendingLine)
    → IsValid a.batcher
    → Flows a (pushed n a r (after_push a.batcher line)) (line ∷ [])
unfolding sent_lines
Flows-pushed n a r line v =
    let b = after_push a.batcher line in
    let grown : Flows a (record a { batcher = b }) (line ∷ []) = record {
      requests = [];
      appended = sym (append-nil a.requests);
      conserves = Conserves-push a.batcher line v;
    } in
    let valid = after_push-IsValid a.batcher line v in
    elim (Bool-cases (leb n (length b.buf))) [
      | inl full ↦ rw full (
          Flows-trans a (line ∷ []) [] grown
            (Flows-flush (record a { batcher = b }) n (sent r) valid))
      | inr room ↦ rw room grown
    ]

pub step_running_lem :
    (n : ℕ) (a : Agent) (x : Event) → a.status ≡ running → step n a x ≡ step_running n a x
unfolding step
step_running_lem n a x e = ap (step_in n a x) e

pub step-pending : (n : ℕ) (a : Agent) (x : Event) → a.status ≡ pending → step n a x ≡ some a
unfolding step
step-pending n a x e = ap (step_in n a x) e

pub step-stopped :
    (n : ℕ) (a : Agent) (x : Event) {r : Report} → a.status ≡ stopped r → step n a x ≡ some a
unfolding step
step-stopped n a x e = ap (step_in n a x) e

-- The loop from a status that is known.
run_from-Flows :
    (n : ℕ) (s : Status) (es : List Event) (a : Agent)
    → a.status ≡ s
    → IsValid a.batcher
    → (a' : Agent) × (run n a es ≡ some a') × Flows a a' (received_lines s es)
unfolding run received_lines step_running
run_from-Flows n running [] a e v = (a, refl, Flows-refl a a refl refl v)
run_from-Flows n running (metrics_tick ∷ es) a e v =
    rw (step_running_lem n a metrics_tick e) (run_from-Flows n running es a e v)
run_from-Flows n running (flush_tick r ∷ es) a e v =
    let first = Flows-flush a n (sent r) v in
    let b = flushed a (flush a.batcher n (sent r)) in
    let (a', ran, rest) = run_from-Flows n running es b e first.conserves.valid in
    (a', rw (step_running_lem n a (flush_tick r) e) ran, Flows-trans a [] _ first rest)
run_from-Flows n running (received line r ∷ es) a e v =
    let first = Flows-pushed n a r line v in
    let b = pushed n a r (after_push a.batcher line) in
    let (a', ran, rest) = run_from-Flows n running es b (ground arith) first.conserves.valid in
    (
      a',
      rw (step_running_lem n a (received line r) e, push-after_push a.batcher line v) ran,
      Flows-trans a (line ∷ []) _ first rest,
    )
run_from-Flows n running (channel_closed ∷ es) a e v =
    let b = record a { status = pending } in
    let (a', ran, rest) = run_from-Flows n pending es b refl v in
    (
      a',
      rw (step_running_lem n a channel_closed e) ran,
      Flows-trans a [] [] (Flows-refl a b refl refl v) rest,
    )
run_from-Flows n running (cancelled o ∷ es) a e v =
    let b = ended a (shutdown a.batcher o) in
    let first = Flows-ended a o v in
    let (a', ran, rest) = run_from-Flows n (stopped _) es b refl first.conserves.valid in
    (a', rw (step_running_lem n a (cancelled o) e) ran, Flows-trans a [] [] first rest)
run_from-Flows n pending [] a e v = (a, refl, Flows-refl a a refl refl v)
run_from-Flows n pending (x ∷ es) a e v =
    rw (step-pending n a x e) (run_from-Flows n pending es a e v)
run_from-Flows n (stopped r) [] a e v = (a, refl, Flows-refl a a refl refl v)
run_from-Flows n (stopped r) (x ∷ es) a e v =
    rw (step-stopped n a x e) (run_from-Flows n (stopped r) es a e v)

-- From its start the agent's loop runs through every schedule of ticks, lines, outcomes of sends,
-- a closed channel and a shutdown. The lines in the bodies of its requests, followed by those still held, are
-- the lines that it received in their order with some left out, and as many are left out as
-- `total_dropped` counts, modulo 2 ^ 64.
pub run-Flows :
    (batch_size log_buffer_max : ℕ) (es : List Event)
    → (a : Agent) × (run batch_size (start log_buffer_max) es ≡ some a)
      × Conserves
          (start log_buffer_max).batcher
          a.batcher
          (received_lines running es)
          (sent_lines a.requests)
run-Flows batch_size log_buffer_max es =
    let (a, ran, f) =
      run_from-Flows batch_size running es (start log_buffer_max) refl
        (new-IsValid log_buffer_max) in
    (a, ran, rw f.appended f.conserves)
