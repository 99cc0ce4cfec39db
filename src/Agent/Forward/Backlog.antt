-- ===== src/Agent/Forward/Backlog.antt =====
-- What is held while the hub is unreachable, at the last flush, and when the line channel closes.
use sentinalysis.Base.{
  map, Bool-cases, List, [], ap, append-nil, arith, drop, false, inl, inr, is_nil, leb, length,
  length-append, length-drop, lt_of_leb-eq-false, min, refl, some, suc, take, take_of_length-le, ℕ,
  ◌-◌, ◌<◌, ◌∙◌, ◌∷◌, ◌≡◌, ◌≢◌, ◌≤◌,
}
use sentinalysis.Agent.Batcher.{BoundedBatcher, PendingLine, new, take_dropped}
use sentinalysis.Agent.Batcher.Push.{IsValid, after_push, after_push-IsValid, push-after_push}
use sentinalysis.Agent.Forward.{
  to_log_line, Agent, Event, Outcome, SendResult, Status, cancelled, channel_closed, ended, flush,
  flush_tick, flushed, metrics_tick, pending, pushed, received, run, running, sent, shutdown, start,
  step, step_running, stopped, timed_out, usize_max,
}
use sentinalysis.Agent.Forward.Flow.{
  Conserves-flush, of-to_log_line, of_log_line, sent_lines, step-pending, step-stopped,
  step_running_lem,
}
use sentinalysis.Agent.Batcher.History.{Conserves-take_dropped, new-IsValid}

-- A flush leaves what does not fit in one batch, whatever the send returned.
length-flush :
    (b : BoundedBatcher) (n : ℕ) (o : Outcome)
    → (length (flush b n o).0.buf ≡ length b.buf - n)
      × ((flush b n o).0.max_lines ≡ b.max_lines)
      × ((flush b n o).0.total_dropped ≡ b.total_dropped)
unfolding flush
length-flush b n timed_out = ground (arith, length-drop (min n (length b.buf)) b.buf)
length-flush b n (sent r) = ground (arith, length-drop (min n (length b.buf)) b.buf)

-- Room for a batch, and no line ever counted as dropped.
record IsUncounted (n : ℕ) (b : BoundedBatcher) : Type 0 where
  fits : n ≤ b.max_lines
  uncounted : b.total_dropped ≡ 0
  valid : IsValid b

flush-IsUncounted :
    (b : BoundedBatcher) (n m : ℕ) (o : Outcome) → IsUncounted n b → IsUncounted n (flush b m o).0
flush-IsUncounted b n m o u = record {
  fits = omega (arith, (length-flush b m o).1, u.fits);
  uncounted = omega (arith, (length-flush b m o).2, u.uncounted);
  valid = (Conserves-flush b m o u.valid).valid;
}

after_push-IsUncounted :
    (b : BoundedBatcher) (n : ℕ) (line : PendingLine)
    → length b.buf < n
    → IsUncounted n b
    → IsUncounted n (after_push b line) × (length (after_push b line).buf ≤ n)
unfolding after_push
after_push-IsUncounted b n line s u = (
  record {
    fits = u.fits;
    uncounted = omega (arith, u.fits, u.uncounted);
    valid = after_push-IsValid b line u.valid;
  },
  omega (
    arith,
    length-append (drop (suc (length b.buf) - b.max_lines) b.buf) (line ∷ []),
    length-drop (suc (length b.buf) - b.max_lines) b.buf,
  ),
)

abbrev IsShort : ℕ → BoundedBatcher → Type 0
IsShort n b = (length b.buf < n) × IsUncounted n b

flush-IsShort :
    (b : BoundedBatcher) (n m : ℕ) (o : Outcome) → IsShort n b → IsShort n (flush b m o).0
flush-IsShort b n m o (s, u) = (omega (arith, (length-flush b m o).0), flush-IsUncounted b n m o u)

pushed-IsShort :
    (n : ℕ) (a : Agent) (r : SendResult) (line : PendingLine)
    → IsShort n a.batcher
    → IsShort n (pushed n a r (after_push a.batcher line)).batcher
pushed-IsShort n a r line (s, u) =
    let b = after_push a.batcher line in
    let (u', small) = after_push-IsUncounted a.batcher n line s u in
    elim (Bool-cases (leb n (length b.buf))) [
      | inl full ↦
          rw full
            ((omega (arith, (length-flush b n (sent r)).0), flush-IsUncounted b n n (sent r) u'))
      | inr room ↦ rw room ((lt_of_leb-eq-false n (length b.buf) room, u'))
    ]

shutdown-IsShort :
    (b : BoundedBatcher) (n : ℕ) (o : Outcome) → IsShort n b → IsShort n (shutdown b o).0
unfolding shutdown take_dropped
shutdown-IsShort b n o h =
    let (s, u) = flush-IsShort b n usize_max o h in
    (
      s,
      record {
        fits = u.fits;
        uncounted = u.uncounted;
        valid = (Conserves-take_dropped (flush b usize_max o).0 u.valid).valid;
      },
    )

-- One round of a running loop keeps it so.
step_running-IsShort :
    (n : ℕ) (a : Agent) (x : Event)
    → IsShort n a.batcher
    → (a' : Agent) × (step_running n a x ≡ some a') × IsShort n a'.batcher
unfolding step_running
step_running-IsShort n a metrics_tick h = (a, refl, h)
step_running-IsShort n a (flush_tick r) h =
    (flushed a (flush a.batcher n (sent r)), refl, flush-IsShort a.batcher n n (sent r) h)
step_running-IsShort n a (received line r) h = (
  pushed n a r (after_push a.batcher line),
  rw (push-after_push a.batcher line h.1.valid),
  pushed-IsShort n a r line h,
)
step_running-IsShort n a channel_closed h = (record a { status = pending }, refl, h)
step_running-IsShort n a (cancelled o) h =
    (ended a (shutdown a.batcher o), refl, shutdown-IsShort a.batcher n o h)

step-IsShort :
    (n : ℕ) (s : Status) (a : Agent) (x : Event)
    → a.status ≡ s
    → IsShort n a.batcher
    → (a' : Agent) × (step n a x ≡ some a') × IsShort n a'.batcher
step-IsShort n running a x e h =
    let (a', stepped, h') = step_running-IsShort n a x h in
    (a', step_running_lem n a x e ∙ stepped, h')
step-IsShort n pending a x e h = (a, step-pending n a x e, h)
step-IsShort n (stopped r) a x e h = (a, step-stopped n a x e, h)

run-IsShort :
    (n : ℕ) (es : List Event) (a : Agent)
    → IsShort n a.batcher
    → (a' : Agent) × (run n a es ≡ some a') × IsShort n a'.batcher
unfolding run
run-IsShort n [] a h = (a, refl, h)
run-IsShort n (x ∷ es) a h =
    let (b, stepped, k) = step-IsShort n a.status a x refl h in
    let (a', ran, l) = run-IsShort n es b k in (a', rw stepped ran, l)

-- With a batch size between 1 and the buffer's limit, whatever the sends return: fewer lines than
-- one batch are ever held, and `total_dropped` stays 0.
pub run_backlog :
    (batch_size log_buffer_max : ℕ) (es : List Event)
    → 0 < batch_size
    → batch_size ≤ log_buffer_max
    → (a : Agent) × (run batch_size (start log_buffer_max) es ≡ some a)
      × (length a.batcher.buf < batch_size)
      × (a.batcher.total_dropped ≡ 0)
unfolding new
run_backlog n limit es p f =
    let (a, ran, (s, u)) =
      run-IsShort n es (start limit)
        ((p, record { fits = omega arith; uncounted = refl; valid = new-IsValid limit })) in
    (a, ran, s, u.uncounted)

is_nil_of_ne : (xs : List PendingLine) → xs ≢ [] → is_nil xs ≡ false
is_nil_of_ne [] ne = absurd (ne refl)
is_nil_of_ne (x ∷ xs) ne = refl

-- A last flush of a non-empty buffer that the deadline cuts off has already drained it: the
-- warning reports no buffered line, and the totals do not count the lines that were lost with the
-- request.
pub shutdown-timed_out :
    (b : BoundedBatcher)
    → b.buf ≢ []
    → length b.buf ≤ usize_max
    → ((shutdown b timed_out).2.deadline_hit ≡ some 0)
      × ((shutdown b timed_out).2.total ≡ b.total_dropped)
      × (sent_lines (shutdown b timed_out).1 ≡ b.buf)
unfolding shutdown sent_lines
shutdown-timed_out b ne fits =
    let k = min usize_max (length b.buf) in
    let whole : k ≡ length b.buf = omega arith in
    rw (is_nil_of_ne b.buf ne) (
      ap some (length-drop k b.buf ∙ omega arith),
      refl,
      append-nil (map of_log_line (map to_log_line (take k b.buf)))
          ∙ of-to_log_line (take k b.buf)
          ∙ take_of_length-le k b.buf (omega arith),
    )

run_pending : (n : ℕ) (es : List Event) (a : Agent) → a.status ≡ pending → run n a es ≡ some a
unfolding run
run_pending n [] a e = refl
run_pending n (x ∷ es) a e = rw (step-pending n a x e) (run_pending n es a e)

-- Once the channel of lines has closed, the running loop is stuck: no later event changes
-- anything, and a cancellation neither flushes nor stops it.
pub run-channel_closed :
    (n : ℕ) (a : Agent) (es : List Event)
    → a.status ≡ running
    → run n a (channel_closed ∷ es) ≡ some (record a { status = pending })
unfolding run step_running
run-channel_closed n a es e = rw (step_running_lem n a channel_closed e) (run_pending n es _ refl)
