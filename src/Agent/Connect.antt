-- ===== src/Agent/Connect.antt =====
-- src/agent/mod.rs: how the agent finds its key and connects to the hub. The environment, the file
-- system, `str::trim` and the outcome of each attempt are parameters.
pub mod Backoff
use sentinalysis.Base.{
  Bool, List, Option, Text, [], if◌then◌else◌, is_nil, min, none, not, some, suc, zero, ℕ, ◌*◌, ◌+◌,
  ◌∷◌,
}
use sentinalysis.Base.Results.{Result, err, ok}

pub data ConnectError : Type 0 where
  invalid_hub_addr key_required empty_key_file : ConnectError
  unreadable_key_file : Text → ConnectError
  cancelled_during_connect : ConnectError

-- What `resolve_api_key` reads.
pub record Surroundings : Type 0 where
  -- `std::env::var("SENTINEL_API_KEY_FILE")`
  pub key_file : Option Text
  pub read_to_string : Text → Result Text Text
  pub trim : Text → Text

abbrev pub trimmed_key : Surroundings → Result Text Text → Result ConnectError Text
trimmed_key s (err e) = err (unreadable_key_file e)
trimmed_key s (ok raw) = let key = s.trim raw in if is_nil key then err empty_key_file else ok key

unfoldable pub read_api_key_file : Surroundings → Text → Result ConnectError Text
read_api_key_file s path = trimmed_key s (s.read_to_string path)

abbrev pub key_of_file : Surroundings → Option Text → Result ConnectError Text
unfolding read_api_key_file
key_of_file s none = err key_required
key_of_file s (some path) = if is_nil path then err key_required else read_api_key_file s path

unfoldable pub resolve_api_key : Surroundings → Text → Result ConnectError Text
unfolding read_api_key_file
resolve_api_key s api_key = if not (is_nil api_key) then ok api_key else key_of_file s s.key_file

-- A round of the loop: whether it was cancelled before the attempt, the channel if the attempt
-- succeeds, and whether the wait after a failure is cut off by a cancellation.
pub record Attempt (C : Type 0) : Type 0 where
  pub is_cancelled : Bool
  pub channel : Option C
  pub cancelled_waiting : Bool

-- The seconds waited so far, and how the call ended; `none` when the fuel ran out first.
abbrev pub Ended : Type 0 → Type 0
Ended C = List ℕ × Option (Result ConnectError C)

abbrev pub waited : {C : Type 0} → ℕ → Ended C → Ended C
waited backoff (waits, end) = (backoff ∷ waits, end)

abbrev pub after_failure : {C : Type 0} → Bool → ℕ → Ended C → Ended C
after_failure cut backoff rest =
    if cut then ([], some (err cancelled_during_connect)) else waited backoff rest

abbrev pub after_attempt : {C : Type 0} → Attempt C → Option C → ℕ → Ended C → Ended C
after_attempt a (some channel) backoff rest = ([], some (ok channel))
after_attempt a none backoff rest = after_failure a.cancelled_waiting backoff rest

-- The loop from the n-th round, with a backoff in seconds.
unfoldable pub connect_loop : {C : Type 0} → ℕ → (ℕ → Attempt C) → ℕ → ℕ → Ended C
connect_loop zero attempts n backoff = ([], none)
connect_loop (suc fuel) attempts n backoff =
    let rest = connect_loop fuel attempts (suc n) (min (backoff * 2) 60) in
    let a = attempts n in
    if a.is_cancelled
    then ([], some (err cancelled_during_connect))
    else after_attempt a a.channel backoff rest

abbrev pub connect_from : {E C : Type 0} → ℕ → Option E → (ℕ → Attempt C) → Ended C
unfolding connect_loop
connect_from fuel none attempts = ([], some (err invalid_hub_addr))
connect_from fuel (some endpoint) attempts = connect_loop fuel attempts 0 1

-- `endpoint` is the parsed address.
unfoldable pub connect : {E C : Type 0} → ℕ → Option E → (ℕ → Attempt C) → Ended C
unfolding connect_loop
connect fuel endpoint attempts = connect_from fuel endpoint attempts
