-- ===== src/Hub/Retention/Window.antt =====
-- What a pass leaves in the tables.
use mathlib.Core.Path.{fun_ext, subst}
use sentinalysis.Base.{
  Bool, Bool-cases, List, Option, Text, [], ap, arith, false, if◌then◌else◌, inl, inr, length, ltb,
  lt→ltb, none, not, refl, some, sym, true, ℕ, ◌∙◌, ◌*◌, ◌+◌, ◌^◌, ◌-◌, ◌==◌, ◌<◌, ◌∷◌, ◌≡◌,
}
use sentinalysis.Base.Int.{ltb_ℤ, neg_part, pos, pos_part, ℤ, ◌-ℤ◌, -ℤ_parts}
use sentinalysis.Base.Results.{ok}
use sentinalysis.Hub.Retention.{
  HubConfig, cast_signed, days, Outcome, Pass, Tables, delete_limited, is_expired, prune, prune_all,
  prune_limit, prune_logs, prune_metrics, then_if,
}

-- The rows that satisfy a condition, in order.
unfoldable pub rows_where : (ℤ → Bool) → List ℤ → List ℤ
rows_where p [] = []
rows_where p (r ∷ rs) = let rest = rows_where p rs in if p r then r ∷ rest else rest

-- More than so many days before `now`: r + keep_days * 86400 < now, in seconds.
abbrev pub is_older : ℤ → ℕ → ℤ → Bool
is_older now keep_days r =
    ltb (pos_part r + keep_days * 86400 + neg_part now) (pos_part now + neg_part r)

-- The rows inside the window all stay, in their order, and the expired ones become fewer by the
-- limit, or none.
pub record IsPruned (keep_days : ℕ) (now : ℤ) (before after : List ℤ) : Type 0 where
  pub fresh_stay :
      rows_where (λ r. not (is_older now keep_days r)) after
      ≡ rows_where (λ r. not (is_older now keep_days r)) before
  pub expired_left :
      length (rows_where (is_older now keep_days) after)
      ≡ length (rows_where (is_older now keep_days) before) - prune_limit

fresh-delete_limited :
    (p : ℤ → Bool) (k : ℕ) (rows : List ℤ)
    → rows_where (λ r. not (p r)) (delete_limited p k rows) ≡ rows_where (λ r. not (p r)) rows
unfolding delete_limited rows_where
fresh-delete_limited p k [] = refl
fresh-delete_limited p k (r ∷ rows) = elim (Bool-cases (p r)) [
  | inl e ↦ elim (Bool-cases (k == 0)) [
    | inl z ↦ rw (e, z, e) (fresh-delete_limited p k rows)
    | inr z ↦ rw (e, z) (fresh-delete_limited p (k - 1) rows)
  ]
  | inr e ↦ rw (e, e) (ap (◌∷◌ r) (fresh-delete_limited p k rows))
]

expired-delete_limited :
    (p : ℤ → Bool) (k : ℕ) (rows : List ℤ)
    → length (rows_where p (delete_limited p k rows)) ≡ length (rows_where p rows) - k
unfolding delete_limited rows_where
expired-delete_limited p k [] = omega arith
expired-delete_limited p k (r ∷ rows) = elim (Bool-cases (p r)) [
  | inl e ↦ elim (Bool-cases (k == 0)) [
    | inl z ↦ rw (e, z, e) (ground (arith, expired-delete_limited p k rows))
    | inr z ↦ rw (e, z) (ground (arith, expired-delete_limited p (k - 1) rows))
  ]
  | inr e ↦ rw (e, e) (expired-delete_limited p k rows)
]

-- `u32::cast_signed` keeps the windows below 2^31 days.
days-eq :
    (keep_days : ℕ) → keep_days < 2 ^ 31 → days (cast_signed keep_days) ≡ pos (keep_days * 86400)
days-eq keep_days h = let small : ltb keep_days (2 ^ 31) ≡ true = lt→ltb _ _ h in rw small refl

older_iff :
    (now d r : ℤ) (n : ℕ)
    → pos_part d + neg_part now + n ≡ neg_part d + pos_part now + 0
    → ltb_ℤ r d ≡ ltb (pos_part r + n + neg_part now) (pos_part now + neg_part r)
older_iff now d r n h = ground arith

is_expired-is_older :
    (now : ℤ) (keep_days : ℕ)
    → keep_days < 2 ^ 31
    → is_expired now keep_days ≡ is_older now keep_days
unfolding is_expired
is_expired-is_older now keep_days h = fun_ext λ r.
    ap (λ d. ltb_ℤ r (now -ℤ d)) (days-eq keep_days h)
    ∙ older_iff now (now -ℤ pos (keep_days * 86400)) r (keep_days * 86400)
        (-ℤ_parts now (pos (keep_days * 86400)))

prune-IsPruned :
    (keep_days : ℕ) (now : ℤ) (rows : List ℤ)
    → keep_days < 2 ^ 31
    → IsPruned keep_days now rows (prune keep_days now rows)
unfolding prune
prune-IsPruned keep_days now rows h =
    subst (λ p. IsPruned keep_days now rows (delete_limited p prune_limit rows))
      (sym (is_expired-is_older now keep_days h))
      record {
        fresh_stay = fresh-delete_limited (is_older now keep_days) prune_limit rows;
        expired_left = expired-delete_limited (is_older now keep_days) prune_limit rows;
      }

of_then_if :
    (t after : Tables) (failure : Option Text) (next : Outcome)
    → then_if t failure next ≡ (after, ok tt)
    → next ≡ (after, ok tt)
of_then_if t after none next h = h
of_then_if t after (some e) next h = absurd (cc)

of_if : {A : Type 0} (b : Bool) (x y z : A) → b ≡ true → (if b then x else y) ≡ z → x ≡ z
of_if true x y z e h = h
of_if false x y z e h = absurd (cc)

-- The tables when all three statements ran.
unfoldable all_pruned : HubConfig → Pass → Tables → Tables
unfolding prune
all_pruned hub pass t = record {
  app_events = prune hub.retention_days pass.events_at t.app_events;
  log_entries = prune hub.retention_days pass.logs_at t.log_entries;
  system_metrics = prune hub.metrics_retention_days pass.metrics_at t.system_metrics;
}

all_pruned-prune_all :
    (hub : HubConfig) (pass : Pass) (t after : Tables)
    → 0 < hub.retention_days
    → 0 < hub.metrics_retention_days
    → prune_all hub pass t ≡ (after, ok tt)
    → all_pruned hub pass t ≡ after
unfolding prune_all all_pruned
all_pruned-prune_all hub pass t after on metrics_on h =
    let events = prune hub.retention_days pass.events_at t.app_events in
    let logs = prune hub.retention_days pass.logs_at t.log_entries in
    let first : Tables = record t { app_events = events } in
    let second : Tables = record first { log_entries = logs } in
    let started = of_if (ltb 0 hub.retention_days) _ _ _ (lt→ltb 0 hub.retention_days on) h in
    let events_ran = of_then_if t after pass.events_failure (prune_logs hub pass first) started in
    let logs_ran =
      of_then_if first after pass.logs_failure (prune_metrics hub pass second) events_ran in
    let metrics_started =
      of_if (ltb 0 hub.metrics_retention_days) _ _ _
        (lt→ltb 0 hub.metrics_retention_days metrics_on) logs_ran in
    ap (λ done. done.0) (of_then_if second after pass.metrics_failure _ metrics_started)

-- What a pass without an error did.
pub record PrunesAll (hub : HubConfig) (pass : Pass) (t after : Tables) : Type 0 where
  pub events : IsPruned hub.retention_days pass.events_at t.app_events after.app_events
  pub logs : IsPruned hub.retention_days pass.logs_at t.log_entries after.log_entries
  pub metrics :
      IsPruned hub.metrics_retention_days pass.metrics_at t.system_metrics after.system_metrics

-- A pass that returns no error, with both windows on and below 2^31 days, leaves every row that is at
-- most so many days of 86400 seconds old where it was, and deletes at most 10000 older rows of each
-- table: what was older beyond that stays until a later pass.
pub prune_all-PrunesAll :
    (hub : HubConfig) (pass : Pass) (t after : Tables)
    → 0 < hub.retention_days
    → hub.retention_days < 2 ^ 31
    → 0 < hub.metrics_retention_days
    → hub.metrics_retention_days < 2 ^ 31
    → prune_all hub pass t ≡ (after, ok tt)
    → PrunesAll hub pass t after
unfolding all_pruned
prune_all-PrunesAll hub pass t after on few metrics_on few_metrics h =
    subst (PrunesAll hub pass t) (all_pruned-prune_all hub pass t after on metrics_on h) record {
      events = prune-IsPruned hub.retention_days pass.events_at t.app_events few;
      logs = prune-IsPruned hub.retention_days pass.logs_at t.log_entries few;
      metrics =
          prune-IsPruned hub.metrics_retention_days pass.metrics_at t.system_metrics few_metrics;
    }
