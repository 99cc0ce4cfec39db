-- ===== src/Agent/Connect/Backoff.antt =====
-- How long the agent waits, and when it stops.
use mathlib.Core.Path.{subst}
use sentinalysis.Base.{
  List, [], ap, arith, false, min, none, refl, some, suc, true, zero, ℕ, ◌*◌, ◌+◌, ◌<◌, ◌^◌, ◌∙◌,
  ◌∷◌, ◌≡◌, ◌≤◌,
}
use sentinalysis.Base.Results.{Result, err, ok}
use sentinalysis.Agent.Connect.{
  Attempt, ConnectError, cancelled_during_connect, connect, connect_loop, waited,
}

-- The n-th wait, and the waits before the k-th round.
abbrev pub wait : ℕ → ℕ
wait n = min (2 ^ n) 60

abbrev pub waits : ℕ → ℕ → List ℕ
waits n zero = []
waits n (suc k) = wait n ∷ waits (suc n) k

doubled : (n : ℕ) → min (wait n * 2) 60 ≡ wait (suc n)
doubled n = omega arith

module _ {C : Type 0} where
  -- The attempt fails, and the wait after it is not cut off.
  pub record Fails (a : Attempt C) : Type 0 where
    pub not_cancelled : a.is_cancelled ≡ false
    pub no_channel : a.channel ≡ none
    pub not_cut : a.cancelled_waiting ≡ false

  -- A round that ends the loop, with its result.
  pub data Ends (a : Attempt C) : Result ConnectError C → Type 0 where
    cancelled_first : a.is_cancelled ≡ true → Ends a (err cancelled_during_connect)
    connected :
        (channel : C) → a.is_cancelled ≡ false → a.channel ≡ some channel → Ends a (ok channel)
    cut_off :
        a.is_cancelled ≡ false
        → a.channel ≡ none
        → a.cancelled_waiting ≡ true
        → Ends a (err cancelled_during_connect)

  connect_loop-Ends :
      (fuel : ℕ) (attempts : ℕ → Attempt C) (n backoff : ℕ) (r : Result ConnectError C)
      → Ends (attempts n) r
      → connect_loop (suc fuel) attempts n backoff ≡ ([], some r)
  unfolding connect_loop
  connect_loop-Ends fuel attempts n backoff r (cancelled_first h) = rw h refl
  connect_loop-Ends fuel attempts n backoff r (connected channel h k) = rw (h, k) refl
  connect_loop-Ends fuel attempts n backoff r (cut_off h k c) = rw (h, k, c) refl

  connect_loop-Fails :
      (fuel : ℕ) (attempts : ℕ → Attempt C) (n backoff : ℕ)
      → Fails (attempts n)
      → connect_loop (suc fuel) attempts n backoff
        ≡ waited backoff (connect_loop fuel attempts (suc n) (min (backoff * 2) 60))
  unfolding connect_loop
  connect_loop-Fails fuel attempts n backoff f = rw (f.not_cancelled, f.no_channel, f.not_cut) refl

  connect_loop-waits :
      (k fuel : ℕ) (attempts : ℕ → Attempt C) (n m : ℕ) (r : Result ConnectError C)
      → m ≡ n + k
      → k < fuel
      → ((i : ℕ) → n ≤ i → i < m → Fails (attempts i))
      → Ends (attempts m) r
      → connect_loop fuel attempts n (wait n) ≡ (waits n k, some r)
  connect_loop-waits k zero attempts n m r at enough fails ends = absurd (omega arith)
  connect_loop-waits zero (suc fuel) attempts n m r at enough fails ends =
      let same : m ≡ n = omega arith in
      connect_loop-Ends fuel attempts n (wait n) r (subst (λ i. Ends (attempts i) r) same ends)
  connect_loop-waits (suc k) (suc fuel) attempts n m r at enough fails ends =
      connect_loop-Fails fuel attempts n (wait n) (fails n (omega arith) (omega arith))
      ∙ ap (λ b. waited (wait n) (connect_loop fuel attempts (suc n) b)) (doubled n)
      ∙ ap (waited (wait n)) (
          connect_loop-waits k fuel attempts (suc n) m r (omega arith) (omega arith)
            (λ i from to. fails i (omega arith) to) ends)

  -- If the address can be parsed, the first `k` attempts fail and the round after them ends the loop
  -- with a channel or a cancellation, then more than `k` rounds of fuel are enough: the call returns
  -- that result, after waits of 1, 2, 4, 8, 16, 32 and then 60 seconds each, one for each failure.
  pub connect-waits :
      {E : Type 0} (k fuel : ℕ) (endpoint : E) (attempts : ℕ → Attempt C)
      (r : Result ConnectError C)
      → k < fuel
      → ((i : ℕ) → i < k → Fails (attempts i))
      → Ends (attempts k) r
      → connect fuel (some endpoint) attempts ≡ (waits 0 k, some r)
  unfolding connect
  connect-waits k fuel endpoint attempts r enough fails ends =
      connect_loop-waits k fuel attempts 0 k r (omega arith) enough (λ i from to. fails i to) ends
