-- ===== src/Agent/Batcher.antt =====
-- src/agent/batcher.rs: the bounded buffer of log lines that wait for forwarding.
pub mod Push
pub mod History
use sentinalysis.Base.{
  Bool, List, Option, Text, [], drop, if◌then◌else◌, is_nil, leb, length, max, min, none, some, suc,
  take, zero, ℕ, ◌%◌, ◌++◌, ◌+◌, ◌^◌, ◌∷◌,
}
use sentinalysis.Base.Int.{ℤ}

pub record PendingLine : Type 0 where
  pub timestamp_ms : ℤ
  pub container : Text
  pub stream : Text
  pub message : Text

pub record BoundedBatcher : Type 0 where
  pub buf : List PendingLine
  pub max_lines : ℕ
  pub dropped_since_report : ℕ
  pub total_dropped : ℕ

-- `usize` and `u64` have 64 bits; `+= 1` wraps in a release build.
abbrev pub u64_mod : ℕ
u64_mod = 2 ^ 64

unfoldable pub new : ℕ → BoundedBatcher
new limit = record {
  buf = [];
  max_lines = max limit 1;
  dropped_since_report = 0;
  total_dropped = 0;
}

-- The body of the loop of `push`: the counters move only if a line was there to drop.
abbrev pub drop_front : BoundedBatcher → List PendingLine → BoundedBatcher
drop_front b [] = b
drop_front b (x ∷ xs) = record b {
  buf = xs;
  dropped_since_report = (b.dropped_since_report + 1) % u64_mod;
  total_dropped = (b.total_dropped + 1) % u64_mod;
}

-- `while self.buf.len() >= self.max`; `none` means that the fuel ran out.
unfoldable pub make_room : ℕ → BoundedBatcher → Option BoundedBatcher
make_room zero b = none
make_room (suc fuel) b =
    let rest = make_room fuel (drop_front b b.buf) in
    if leb b.max_lines (length b.buf) then rest else some b

abbrev pub push_back : PendingLine → Option BoundedBatcher → Option BoundedBatcher
push_back line none = none
push_back line (some b) = some (record b { buf = b.buf ++ line ∷ [] })

-- One round more than there are lines: each round but the last drops one.
unfoldable pub push : BoundedBatcher → PendingLine → Option BoundedBatcher
unfolding make_room
push b line = push_back line (make_room (suc (length b.buf)) b)

unfoldable pub drain : BoundedBatcher → ℕ → BoundedBatcher × List PendingLine
drain b n = let k = min n (length b.buf) in (record b { buf = drop k b.buf }, take k b.buf)

unfoldable pub is_empty : BoundedBatcher → Bool
is_empty b = is_nil b.buf

unfoldable pub take_dropped : BoundedBatcher → BoundedBatcher × ℕ
take_dropped b = (record b { dropped_since_report = 0 }, b.dropped_since_report)
