-- ===== src/Hub/Retention.antt =====
-- src/hub/retention.rs, with the `prune` statements of src/db/repositories. A table is the list of
-- its rows' timestamps, in seconds, in the order in which the sub-select meets them.
pub mod Window
use sentinalysis.Base.{
  Bool, List, Option, Text, [], if◌then◌else◌, length, ltb, none, not, some, ℕ, ◌&&◌, ◌*◌, ◌+◌, ◌-◌,
  ◌==◌, ◌^◌, ◌∷◌,
}
use sentinalysis.Base.Int.{ltb_ℤ, negsuc, pos, ℤ, ◌-ℤ◌}
use sentinalysis.Base.Results.{Result, err, ok, ◌>>=◌}

abbrev pub prune_limit : ℕ
prune_limit = 10000

-- `u32::cast_signed`
abbrev pub cast_signed : ℕ → ℤ
cast_signed n = if ltb n (2 ^ 31) then pos n else negsuc (2 ^ 32 - n - 1)

-- `make_interval(days => n)` in seconds.
abbrev pub days : ℤ → ℤ
days (pos n) = pos (n * 86400)
days (negsuc n) = negsuc ((n + 1) * 86400 - 1)

unfoldable pub is_expired : ℤ → ℕ → ℤ → Bool
unfolding ◌-ℤ◌
is_expired now keep_days timestamp = ltb_ℤ timestamp (now -ℤ days (cast_signed keep_days))

-- `DELETE` of the first rows that satisfy the condition, up to a limit.
unfoldable pub delete_limited : (ℤ → Bool) → ℕ → List ℤ → List ℤ
delete_limited p k [] = []
delete_limited p k (r ∷ rs) =
    let deleted = delete_limited p (k - 1) rs in
    let passed = delete_limited p k rs in if p r && not (k == 0) then deleted else r ∷ passed

-- The table after it, at the statement's time.
unfoldable pub prune : ℕ → ℤ → List ℤ → List ℤ
unfolding is_expired delete_limited
prune keep_days now rows = delete_limited (is_expired now keep_days) prune_limit rows

pub record Tables : Type 0 where
  pub app_events : List ℤ
  pub log_entries : List ℤ
  pub system_metrics : List ℤ

-- The fields of the configuration.
pub record HubConfig : Type 0 where
  pub retention_days : ℕ
  pub metrics_retention_days : ℕ

-- The time of each statement, and its failure if it fails.
pub record Pass : Type 0 where
  pub events_at : ℤ
  pub logs_at : ℤ
  pub metrics_at : ℤ
  pub events_failure : Option Text
  pub logs_failure : Option Text
  pub metrics_failure : Option Text

abbrev pub Outcome : Type 0
Outcome = Tables × Result Text (Unit {0})

-- A statement and what follows it.
abbrev pub then_if : Tables → Option Text → Outcome → Outcome
then_if t (some e) next = (t, err e)
then_if t none next = next

abbrev pub prune_metrics : HubConfig → Pass → Tables → Outcome
unfolding prune
prune_metrics hub pass t =
    if ltb 0 hub.metrics_retention_days
    then then_if t pass.metrics_failure (
      record t {
        system_metrics = prune hub.metrics_retention_days pass.metrics_at t.system_metrics;
      },
      ok tt,
    )
    else (t, ok tt)

abbrev pub prune_logs : HubConfig → Pass → Tables → Outcome
unfolding prune
prune_logs hub pass t = then_if t pass.logs_failure (
    prune_metrics hub pass
      (record t { log_entries = prune hub.retention_days pass.logs_at t.log_entries }))

unfoldable pub prune_all : HubConfig → Pass → Tables → Outcome
unfolding prune
prune_all hub pass t =
    if ltb 0 hub.retention_days
    then then_if t pass.events_failure (
        prune_logs hub pass
          (record t { app_events = prune hub.retention_days pass.events_at t.app_events }))
    else prune_metrics hub pass t
