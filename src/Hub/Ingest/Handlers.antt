-- ===== src/Hub/Ingest/Handlers.antt =====
-- src/hub/grpc.rs: the two handlers. The repositories over their state `R`, the limiter of attempts
-- over its state `L`, and the clock are parameters.
use sentinalysis.Base.{Bool, List, Option, Text, codes, if◌then◌else◌, none, some, true, ℕ}
use sentinalysis.Base.Int.{ℤ}
use sentinalysis.Base.Results.{Result, err, ok, ◌>>=◌}
use sentinalysis.Hub.Validate.{Reason}
use sentinalysis.Hub.Auth.Permission.{Permission, Principal, holds, ingest_metrics}
use sentinalysis.Hub.Auth.Cache.{VerifiedCache}
use sentinalysis.Hub.Auth.Service.{
  AuthError, World, authenticate, bad_signature, malformed, rate_limited, storage, unknown_key,
}
use sentinalysis.Hub.Ingest.Wire.{Ack, MetricPoint}
use sentinalysis.Hub.Ingest.Check.{Env, InsertSystemMetric, validate_point}
use sentinalysis.LogScanner.Entry.{InsertLogEntry}
use sentinalysis.LogScanner.Pipeline.{GetOrCreate}

-- What the message of a status says.
pub data Detail : Type 0 where
  missing_key not_bound missing_point batch_too_large : Detail
  of_auth : AuthError → Detail
  lacks : Permission → Detail
  of_reason : Reason → Detail
  of_storage : Text → Detail

pub data Status : Type 0 where
  unauthenticated permission_denied invalid_argument resource_exhausted internal : Detail → Status

unfoldable pub auth_status : AuthError → Status
auth_status malformed = unauthenticated (of_auth malformed)
auth_status unknown_key = unauthenticated (of_auth unknown_key)
auth_status bad_signature = unauthenticated (of_auth bad_signature)
auth_status rate_limited = resource_exhausted (of_auth rate_limited)
auth_status (storage message) = internal (of_auth (storage message))

pub record Repositories (R : Type 0) : Type 0 where
  pub get_or_create : GetOrCreate R
  pub upsert_seen : R → Text → Text → R × Result Text (Unit {0})
  pub insert_metric : R → InsertSystemMetric → R × Result Text (Unit {0})
  pub insert_batch : R → List InsertLogEntry → R × Result Text (Unit {0})

-- What `IngestService` is built from. `check_key` is `false` for an address over its budget.
pub record Deps (R L : Type 0) : Type 0 where
  pub env : Env
  pub world : World
  pub check_key : L → Text → L × Bool
  pub repos : Repositories R

pub record IngestService (R L : Type 0) : Type 0 where
  pub cache : VerifiedCache
  pub limiter : L
  pub repo : R

-- A call: its metadata, its peer, and the clock during it. The n-th line is checked at `clock n`.
pub record Call (M : Type 0) : Type 0 where
  pub api_key : Option Text
  pub remote_addr : Option Text
  pub now : ℕ
  pub stored_at : ℕ
  pub clock : ℕ → ℤ
  pub message : M

abbrev pub peer : Option Text → Text
peer none = codes "unknown"
peer (some ip) = ip

abbrev pub auth_answer : Result AuthError Principal → Result Status Principal
auth_answer (ok p) = ok p
auth_answer (err e) = err (auth_status e)

module _ {R L M : Type 0} (deps : Deps R L) where
  abbrev pub authenticated :
      Call M → Text → IngestService R L → IngestService R L × Result Status Principal
  authenticated call raw_key s =
      let reply = authenticate deps.world call.now call.stored_at s.cache raw_key in
      (record s { cache = reply.0 }, auth_answer reply.1)

  abbrev pub within_budget :
      Call M → Text → IngestService R L → L × Bool → IngestService R L × Result Status Principal
  within_budget call raw_key s (l, allowed) =
      if allowed
      then authenticated call raw_key (record s { limiter = l })
      else (record s { limiter = l }, err (auth_status rate_limited))

  abbrev pub with_key :
      Call M → Option Text → IngestService R L → IngestService R L × Result Status Principal
  with_key call none s = (s, err (unauthenticated missing_key))
  with_key call (some raw_key) s =
      within_budget call raw_key s (deps.check_key s.limiter (peer call.remote_addr))

  unfoldable pub authorize :
      Call M → IngestService R L → IngestService R L × Result Status Principal
  authorize call s = with_key call call.api_key s

-- An agent's key: the permission, then the agent and its host.
abbrev pub bound : Option Text → Option Text → Result Status (Text × Text)
bound (some agent_id) (some hostname) = ok (agent_id, hostname)
bound _ _ = err (permission_denied not_bound)

unfoldable pub require_agent : Permission → Principal → Result Status (Text × Text)
require_agent permission p =
    if holds p permission
    then bound p.agent_id p.hostname
    else err (permission_denied (lacks permission))

abbrev pub as_invalid : {A : Type 0} → Result Reason A → Result Status A
as_invalid (ok a) = ok a
as_invalid (err reason) = err (invalid_argument (of_reason reason))

abbrev pub point_or : Option MetricPoint → Result Status MetricPoint
point_or none = err (invalid_argument missing_point)
point_or (some point) = ok point

abbrev pub ack : ℕ → Ack
ack n = record { accepted = true; count = n }

module _ {R : Type 0} (repos : Repositories R) where
  abbrev pub metric_stored : R × Result Text (Unit {0}) → R × Result Status Ack
  metric_stored (r, ok _) = (r, ok (ack 1))
  metric_stored (r, err e) = (r, err (internal (of_storage e)))

  -- After the sighting of the agent is recorded.
  abbrev pub metric_seen : InsertSystemMetric → R × Result Text (Unit {0}) → R × Result Status Ack
  metric_seen metric (r, ok _) = metric_stored (repos.insert_metric r metric)
  metric_seen metric (r, err e) = (r, err (internal (of_storage e)))

-- What `send_metrics` decides before it writes: the agent, its host, and the metric.
unfoldable pub accept_point :
    Env → ℤ → Principal → Option MetricPoint → Result Status (Text × Text × InsertSystemMetric)
unfolding require_agent validate_point
accept_point env now p given = do
  (agent_id, hostname) ← require_agent ingest_metrics p
  point ← point_or given
  metric ← as_invalid (validate_point env now hostname point)
  ok (agent_id, hostname, metric)

-- The service after a handler, and its answer.
abbrev pub Handled : Type 0 → Type 0 → Type 0
Handled R L = IngestService R L × Result Status Ack

abbrev pub with_repo : {R L : Type 0} → IngestService R L → R × Result Status Ack → Handled R L
with_repo s (r, answer) = (record s { repo = r }, answer)

module _ {R L : Type 0} (deps : Deps R L) where
  abbrev pub store_point :
      IngestService R L → Result Status (Text × Text × InsertSystemMetric) → Handled R L
  store_point s (err status) = (s, err status)
  store_point s (ok (agent_id, hostname, metric)) =
      with_repo s (metric_seen deps.repos metric (deps.repos.upsert_seen s.repo agent_id hostname))

  abbrev pub metrics_from :
      Call (Option MetricPoint) → IngestService R L × Result Status Principal → Handled R L
  metrics_from call (s, err status) = (s, err status)
  metrics_from call (s, ok p) = store_point s (accept_point deps.env (call.clock 0) p call.message)

  unfoldable pub send_metrics : Call (Option MetricPoint) → IngestService R L → Handled R L
  unfolding authorize
  send_metrics call s = metrics_from call (authorize deps call s)
