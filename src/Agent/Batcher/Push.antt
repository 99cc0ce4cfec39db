-- ===== src/Agent/Batcher/Push.antt =====
-- What one `push` computes, with the loop gone: enough oldest lines are dropped, and counted.
use sentinalysis.Base.{
  Bool-cases, List, [], arith, drop, inl, inr, length, length-append, length-drop, ltb, ltb→lt,
  refl, some, suc, ℕ, ◌%◌, ◌++◌, ◌+◌, ◌-◌, ◌<◌, ◌∷◌, ◌≡◌, ◌≤◌,
}
use sentinalysis.Agent.Batcher.{BoundedBatcher, PendingLine, drop_front, make_room, push, u64_mod}

pub record IsValid (b : BoundedBatcher) : Type 0 where
  pub positive : 0 < b.max_lines
  pub bounded : length b.buf ≤ b.max_lines
  pub since_bound : b.dropped_since_report < u64_mod
  pub total_bound : b.total_dropped < u64_mod

-- The batcher with one more line, the oldest gone if it was full.
unfoldable pub after_push : BoundedBatcher → PendingLine → BoundedBatcher
after_push b line =
    let k = suc (length b.buf) - b.max_lines in
    record b {
      buf = drop k b.buf ++ line ∷ [];
      dropped_since_report = (b.dropped_since_report + k) % u64_mod;
      total_dropped = (b.total_dropped + k) % u64_mod;
    }

-- The loop stops at once where there is room.
make_room_of_lt :
    (f : ℕ) (b : BoundedBatcher) → length b.buf < b.max_lines → make_room (suc f) b ≡ some b
unfolding make_room
make_room_of_lt f b h = ground (arith)

-- On a full buffer it takes one round.
make_room-drop :
    (f : ℕ) (b : BoundedBatcher) (xs : List PendingLine)
    → b.buf ≡ xs
    → 0 < b.max_lines
    → length xs ≡ b.max_lines
    → make_room (suc (suc f)) b ≡ some (drop_front b xs)
unfolding make_room
make_room-drop f b [] e p h = absurd (omega arith)
make_room-drop f b (x ∷ xs) e p h = ground arith

push_room :
    (b : BoundedBatcher) (line : PendingLine)
    → IsValid b
    → length b.buf < b.max_lines
    → push b line ≡ some (after_push b line)
unfolding push after_push
push_room b line v h =
    let none_over : suc (length b.buf) - b.max_lines ≡ 0 = omega arith in
    let same : (b.total_dropped + 0) % u64_mod ≡ b.total_dropped = omega arith in
    let same' : (b.dropped_since_report + 0) % u64_mod ≡ b.dropped_since_report = omega arith in
    ground (arith, make_room_of_lt (length b.buf) b h)

push_full :
    (b : BoundedBatcher) (line : PendingLine) (xs : List PendingLine)
    → b.buf ≡ xs
    → 0 < b.max_lines
    → length xs ≡ b.max_lines
    → push b line ≡ some (after_push b line)
unfolding push after_push
push_full b line [] e p h = absurd (omega arith)
push_full b line (x ∷ xs) e p h =
    let one_over : suc (length b.buf) - b.max_lines ≡ 1 = rw e (omega arith) in
    ground (arith, make_room-drop (length xs) b (x ∷ xs) e p h)

-- On a valid batcher the loop of `push` ends, and `push` is `after_push`.
pub push-after_push :
    (b : BoundedBatcher) (line : PendingLine) → IsValid b → push b line ≡ some (after_push b line)
push-after_push b line v = elim (Bool-cases (ltb (length b.buf) b.max_lines)) [
  | inl room ↦ push_room b line v (ltb→lt _ _ room)
  | inr full ↦ push_full b line b.buf refl v.positive (ground arith)
]

pub after_push-IsValid :
    (b : BoundedBatcher) (line : PendingLine) → IsValid b → IsValid (after_push b line)
unfolding after_push
after_push-IsValid b line v = record {
  positive = v.positive;
  bounded = omega (
    arith,
    length-append (drop (suc (length b.buf) - b.max_lines) b.buf) (line ∷ []),
    length-drop (suc (length b.buf) - b.max_lines) b.buf,
  );
  since_bound = omega arith;
  total_bound = omega arith;
}
