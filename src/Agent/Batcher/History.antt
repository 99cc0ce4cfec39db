-- ===== src/Agent/Batcher/History.antt =====
-- Sequences of calls on a batcher, against the sequence of lines that were offered to it.
use mathlib.Core.List.Sublist
use mathlib.Core.List.{Sublist, sublist-append_right}
use mathlib.Core.Path.{subst}
use sentinalysis.Base.{
  List, Option, [], ap, append-nil, append_assoc, arith, drop, drop-append_of_le, length,
  length-append, length-drop, length-take, map, max, min, refl, some, suc, sym, take,
  take-append-drop, zero, ℕ, ◌%◌, ◌++◌, ◌+◌, ◌-◌, ◌∙◌, ◌∷◌, ◌≡◌, ◌≤◌,
}
use sentinalysis.Agent.Batcher.{
  BoundedBatcher, PendingLine, drain, new, push, take_dropped, u64_mod,
}
use sentinalysis.Base.Options.{◌>>=◌}
use sentinalysis.Agent.Batcher.Push.{IsValid, after_push, after_push-IsValid, push-after_push}

pub data Call : Type 0 where
  push_line : PendingLine → Call
  drain_lines : ℕ → Call
  report : Call

-- The final batcher and the lines drained, in order.
pub run_calls : List Call → BoundedBatcher → Option (BoundedBatcher × List PendingLine)
run_calls [] b = some (b, [])
run_calls (push_line line ∷ calls) b = do b' ← push b line; run_calls calls b'
run_calls (drain_lines n ∷ calls) b = do
  let step = drain b n
  (last, out) ← run_calls calls step.0
  some (last, step.1 ++ out)
run_calls (report ∷ calls) b = run_calls calls (take_dropped b).0

-- The lines that the calls offer.
pub offered : List Call → List PendingLine
offered [] = []
offered (push_line line ∷ calls) = line ∷ offered calls
offered (drain_lines n ∷ calls) = offered calls
offered (report ∷ calls) = offered calls

-- What goes in comes out in order, stays, or is counted as dropped.
pub record Conserves (b last : BoundedBatcher) (lines out : List PendingLine) : Type 0 where
  pub valid : IsValid last
  pub same_max : last.max_lines ≡ b.max_lines
  pub in_order : Sublist (out ++ last.buf) (b.buf ++ lines)
  pub lost : ℕ
  pub counted : last.total_dropped ≡ (b.total_dropped + lost) % u64_mod
  pub balance : length out + length last.buf + lost ≡ length b.buf + length lines

pub Conserves-refl : (b : BoundedBatcher) → IsValid b → Conserves b b [] []
Conserves-refl b v = record {
  valid = v;
  same_max = refl;
  in_order = rw append-nil (Sublist.refl b.buf);
  lost = 0;
  counted = omega (arith, v.total_bound);
  balance = omega arith;
}

pub Conserves-trans :
    {a b c : BoundedBatcher} (l m o p : List PendingLine)
    → Conserves a b l o
    → Conserves b c m p
    → Conserves a c (l ++ m) (o ++ p)
Conserves-trans {a} {b} {c} l m o p h k = record {
  valid = k.valid;
  same_max = k.same_max ∙ h.same_max;
  in_order = rw append_assoc (
      Sublist.trans (Sublist.append (Sublist.refl o) k.in_order)
        (simp (← append_assoc) (Sublist.append h.in_order (Sublist.refl m))));
  lost = h.lost + k.lost;
  counted = omega (arith, h.counted, k.counted);
  balance = omega (arith, h.balance, k.balance, length-append o p, length-append l m);
}

drop-sublist : (n : ℕ) (xs : List PendingLine) → Sublist (drop n xs) xs
drop-sublist n xs =
    let whole : take n xs ++ drop n xs ≡ xs = take-append-drop n xs in
    subst (λ l. Sublist (drop n xs) l) whole (sublist-append_right (take n xs) (drop n xs))

pub Conserves-push :
    (b : BoundedBatcher) (line : PendingLine)
    → IsValid b
    → Conserves b (after_push b line) (line ∷ []) []
unfolding after_push
Conserves-push b line v = record {
  valid = after_push-IsValid b line v;
  same_max = refl;
  in_order = Sublist.append (drop-sublist _ b.buf) (Sublist.refl (line ∷ []));
  lost = suc (length b.buf) - b.max_lines;
  counted = refl;
  balance = omega (
    arith,
    length-append (drop (suc (length b.buf) - b.max_lines) b.buf) (line ∷ []),
    length-drop (suc (length b.buf) - b.max_lines) b.buf,
    v.positive,
    v.bounded,
  );
}

pub Conserves-drain :
    (b : BoundedBatcher) (n : ℕ) → IsValid b → Conserves b (drain b n).0 [] (drain b n).1
unfolding drain
Conserves-drain b n v =
    let k = min n (length b.buf) in
    record {
      valid = record {
        positive = v.positive;
        bounded = omega (arith, length-drop k b.buf, v.bounded);
        since_bound = v.since_bound;
        total_bound = v.total_bound;
      };
      same_max = refl;
      in_order = rw (append-nil, take-append-drop) (Sublist.refl b.buf);
      lost = 0;
      counted = omega (arith, v.total_bound);
      balance = omega (arith, length-take k b.buf, length-drop k b.buf);
    }

pub Conserves-take_dropped : (b : BoundedBatcher) → IsValid b → Conserves b (take_dropped b).0 [] []
unfolding take_dropped
Conserves-take_dropped b v = record {
  valid = record {
    positive = v.positive;
    bounded = v.bounded;
    since_bound = omega arith;
    total_bound = v.total_bound;
  };
  same_max = refl;
  in_order = rw append-nil (Sublist.refl b.buf);
  lost = 0;
  counted = omega (arith, v.total_bound);
  balance = omega arith;
}

-- Any sequence of calls on a valid batcher runs to the end. The lines drained, followed by those
-- still held, are the lines held and offered in their order with some left out; the number left
-- out is what `total_dropped` grew by, modulo 2 ^ 64; the batcher stays valid.
pub run_calls-Conserves :
    (calls : List Call) (b : BoundedBatcher)
    → IsValid b
    → (last : BoundedBatcher) × (out : List PendingLine) × (run_calls calls b ≡ some (last, out))
      × Conserves b last (offered calls) out
unfolding run_calls offered
run_calls-Conserves [] b v = (b, [], refl, Conserves-refl b v)
run_calls-Conserves (push_line line ∷ calls) b v =
    let (last, out, ran, c) =
      run_calls-Conserves calls (after_push b line) (after_push-IsValid b line v) in
    (
      last,
      out,
      rw (push-after_push b line v) ran,
      Conserves-trans (line ∷ []) (offered calls) [] out (Conserves-push b line v) c,
    )
run_calls-Conserves (drain_lines n ∷ calls) b v =
    let first = Conserves-drain b n v in
    let (last, out, ran, c) = run_calls-Conserves calls (drain b n).0 first.valid in
    (
      last,
      (drain b n).1 ++ out,
      rw ran,
      Conserves-trans [] (offered calls) (drain b n).1 out first c,
    )
run_calls-Conserves (report ∷ calls) b v =
    let first = Conserves-take_dropped b v in
    let (last, out, ran, c) = run_calls-Conserves calls (take_dropped b).0 first.valid in
    (last, out, ran, Conserves-trans [] (offered calls) [] out first c)

-- A new batcher is valid whatever limit it is given, and empty.
pub new-IsValid : (limit : ℕ) → IsValid (new limit)
unfolding new
new-IsValid limit = omega arith

drop-nil : (n : ℕ) → drop {A = PendingLine} n [] ≡ []
drop-nil zero = refl
drop-nil (suc n) = refl

drop-drop : (m n : ℕ) (xs : List PendingLine) → drop m (drop n xs) ≡ drop (n + m) xs
drop-drop m zero xs = ap (λ k. drop k xs) (omega arith)
drop-drop m (suc n) [] = drop-nil m ∙ sym (drop-nil (suc n + m))
drop-drop m (suc n) (x ∷ xs) =
    let next : suc n + m ≡ suc (n + m) = omega arith in rw next (drop-drop m n xs)

-- The last `m` elements.
abbrev pub newest : ℕ → List PendingLine → List PendingLine
newest m xs = drop (length xs - m) xs

newest-after_push :
    (b : BoundedBatcher) (line : PendingLine) (h : List PendingLine)
    → IsValid b
    → b.buf ≡ newest b.max_lines h
    → (after_push b line).buf ≡ newest b.max_lines (h ++ line ∷ [])
unfolding after_push
newest-after_push b line h v e =
    let k = suc (length b.buf) - b.max_lines in
    let size : length b.buf ≡ length h - (length h - b.max_lines) =
      ap length e ∙ length-drop (length h - b.max_lines) h in
    let total : length h - b.max_lines + k ≡ length (h ++ line ∷ []) - b.max_lines =
      omega (arith, size, length-append h (line ∷ []), v.positive) in
    let fits : length (h ++ line ∷ []) - b.max_lines ≤ length h =
      omega (arith, length-append h (line ∷ []), v.positive) in
    ap (λ xs. drop k xs ++ line ∷ []) e
    ∙ ap (λ xs. xs ++ line ∷ []) (drop-drop k (length h - b.max_lines) h)
    ∙ ap (λ n. drop n h ++ line ∷ []) total
    ∙ sym (drop-append_of_le _ h (line ∷ []) fits)

run_pushes_from :
    (lines h : List PendingLine) (b : BoundedBatcher)
    → IsValid b
    → b.buf ≡ newest b.max_lines h
    → (last : BoundedBatcher) × (run_calls (map push_line lines) b ≡ some (last, []))
      × (last.buf ≡ newest b.max_lines (h ++ lines))
unfolding run_calls
run_pushes_from [] h b v e = (b, refl, rw append-nil e)
run_pushes_from (line ∷ lines) h b v e =
    let b' = after_push b line in
    let kept : b'.max_lines ≡ b.max_lines = (Conserves-push b line v).same_max in
    let (last, ran, held) =
      run_pushes_from lines (h ++ line ∷ []) b' (after_push-IsValid b line v)
        (newest-after_push b line h v e ∙ ap (λ m. newest m (h ++ line ∷ [])) (sym kept)) in
    (
      last,
      rw (push-after_push b line v) ran,
      held
          ∙ ap (λ m. newest m ((h ++ line ∷ []) ++ lines)) kept
          ∙ ap (newest b.max_lines) (append_assoc h (line ∷ []) lines),
    )

-- Lines pushed with no drain between them leave exactly the newest `max limit 1` of them.
pub run_pushes :
    (limit : ℕ) (lines : List PendingLine)
    → (last : BoundedBatcher) × (run_calls (map push_line lines) (new limit) ≡ some (last, []))
      × (last.buf ≡ newest (max limit 1) lines)
unfolding new
run_pushes limit lines =
    run_pushes_from lines [] (new limit) (new-IsValid limit) (sym (drop-nil (0 - max limit 1)))
