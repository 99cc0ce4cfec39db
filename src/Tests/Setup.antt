-- ===== src/Tests/Setup.antt =====
-- The theorems about connecting, binding and retention at concrete inputs.
use mathlib.Core.Path.{subst}
use sentinalysis.Base.{
  Option, Text, [], arith, codes, false, if◌then◌else◌, lt→ltb, ltb, none, refl, some, true, ℕ, ◌∷◌,
  ◌↔◌, ◌≡◌, ◌⊎◌,
}
use sentinalysis.Base.Int.{pos}
use sentinalysis.Base.Results.{is_ok, ok}
use sentinalysis.Agent.Connect.{Attempt, connect}
use sentinalysis.Agent.Connect.Backoff.{connect-waits, connected, waits}
use sentinalysis.Hub.Bind.{HubConfig, IpAddr, v4, validate_bind_security}
use sentinalysis.Hub.Bind.Exposure.{IsAddress, IsPrivate, validate_bind_security_iff}
use sentinalysis.Hub.Retention.{Pass, Tables, prune_all}
use sentinalysis.Hub.Retention.Window.{PrunesAll, prune_all-PrunesAll}

-- The first two attempts fail.
abbrev some_attempts : ℕ → Attempt ℕ
some_attempts n = record {
  is_cancelled = false;
  channel = if ltb n 2 then none else some 9;
  cancelled_waiting = false;
}

connect-waits_example :
    connect 5 (some (codes "hub:50051")) some_attempts ≡ (waits 0 2, some (ok 9))
connect-waits_example =
    connect-waits 2 5 (codes "hub:50051") some_attempts (ok 9) (omega arith)
      (λ i h. record { not_cancelled = refl; no_channel = rw (lt→ltb i 2 h) refl; not_cut = refl })
      (connected 9 refl refl)

abbrev tailnet : Text → Option IpAddr
tailnet host = some (v4 100 64 0 1)

abbrev IsAddressOf : Option IpAddr → Type 0
IsAddressOf none = Unit
IsAddressOf (some ip) = IsAddress ip

abbrev some_hub : HubConfig
some_hub = record {
  grpc_host = codes "100.64.0.1";
  rest_host = codes "localhost";
  tls_enabled = false;
}

validate_bind_security_iff_example : (is_ok (validate_bind_security tailnet some_hub) ≡ true) ↔ (
    (some_hub.tls_enabled ≡ true)
    ⊎ (IsPrivate tailnet some_hub.grpc_host × IsPrivate tailnet some_hub.rest_host))
validate_bind_security_iff_example =
    validate_bind_security_iff tailnet
      (λ host ip h. subst IsAddressOf h (omega arith, omega arith, omega arith, omega arith))
      some_hub

abbrev some_pass : Pass
some_pass = record {
  events_at = pos 10_000_000;
  logs_at = pos 10_000_000;
  metrics_at = pos 10_000_000;
  events_failure = none;
  logs_failure = none;
  metrics_failure = none;
}

abbrev some_tables : Tables
some_tables = record {
  app_events = pos 3 ∷ pos 9_999_999 ∷ [];
  log_entries = pos 9_999_999 ∷ [];
  system_metrics = pos 4 ∷ [];
}

pruned :
    prune_all record { retention_days = 90; metrics_retention_days = 30 } some_pass some_tables ≡ (
      (prune_all
          record { retention_days = 90; metrics_retention_days = 30 }
          some_pass
          some_tables).0,
      ok tt,
    )
unfolding prune_all
pruned = refl

prune_all-PrunesAll_example :
    PrunesAll
      record { retention_days = 90; metrics_retention_days = 30 }
      some_pass
      some_tables
      (prune_all
        record { retention_days = 90; metrics_retention_days = 30 }
        some_pass
        some_tables).0
prune_all-PrunesAll_example =
    prune_all-PrunesAll record { retention_days = 90; metrics_retention_days = 30 } some_pass
      some_tables
      (prune_all record { retention_days = 90; metrics_retention_days = 30 } some_pass
        some_tables).0
      (omega arith) (omega arith) (omega arith) (omega arith) pruned
