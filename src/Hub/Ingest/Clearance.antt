-- ===== src/Hub/Ingest/Clearance.antt =====
-- What the checks of `send_logs` before its first line establish.
use mathlib.Core.Path.{subst}
use sentinalysis.Base.{
  Bool, Option, Text, ap, arith, false, if◌then◌else◌, none, refl, some, true, ◌≡◌, ◌≤◌,
}
use sentinalysis.Base.Results.{Result, err, ok, ◌>>=◌}
use sentinalysis.Hub.Validate.{max_lines_per_request}
use sentinalysis.Hub.Auth.Permission.{Permission, Principal, holds, ingest_logs}
use sentinalysis.Hub.Ingest.Wire.{LogsRequest}
use sentinalysis.Hub.Ingest.Handlers.{Status, bound, lacks, permission_denied, require_agent}
use sentinalysis.Hub.Ingest.Logs.{accept_logs, total_lines, within_limit}

-- A success of the key's check, of the permission and of the agent's host.
pub record Bound (permission : Permission) (p : Principal) (agent_id hostname : Text) : Type 0 where
  pub permitted : holds p permission ≡ true
  pub agent : p.agent_id ≡ some agent_id
  pub host : p.hostname ≡ some hostname

bound-eq :
    (agent host : Option Text) (a h : Text)
    → bound agent host ≡ ok (a, h)
    → (agent ≡ some a) × (host ≡ some h)
bound-eq (some agent) (some host) a h e =
    let same : (agent, host) ≡ (a, h) = cc in
    (ap (λ (q : Text × Text). some q.0) same, ap (λ (q : Text × Text). some q.1) same)
bound-eq none host a h e = absurd (cc)
bound-eq (some agent) none a h e = absurd (cc)

if_permitted :
    (b : Bool) (agent refusal : Result Status (Text × Text)) (a : Text × Text) (status : Status)
    → refusal ≡ err status
    → (if b then agent else refusal) ≡ ok a
    → (b ≡ true) × (agent ≡ ok a)
if_permitted true agent refusal a status r h = (refl, h)
if_permitted false agent refusal a status r h = absurd (cc)

require_agent-Bound :
    (permission : Permission) (p : Principal) (a h : Text)
    → require_agent permission p ≡ ok (a, h)
    → Bound permission p a h
unfolding require_agent
require_agent-Bound permission p a h e =
    let (permitted, is_bound) =
      if_permitted (holds p permission) (bound p.agent_id p.hostname) _ (a, h)
        (permission_denied (lacks permission)) refl e in
    let both = bound-eq p.agent_id p.hostname a h is_bound in
    record { permitted = permitted; agent = both.0; host = both.1 }

within_limit-le :
    (request : LogsRequest)
    → within_limit request ≡ ok tt
    → total_lines request ≤ max_lines_per_request
unfolding within_limit
within_limit-le request h = ground arith

-- What `accept_logs` has checked.
pub record Accepted (p : Principal) (request : LogsRequest) (hostname : Text) : Type 0 where
  pub agent_id : Text
  pub bound_to : Bound ingest_logs p agent_id hostname
  pub few : total_lines request ≤ max_lines_per_request

accept_after-Accepted :
    (p : Principal) (request : LogsRequest) (hostname : Text) (agent : Result Status (Text × Text))
    (limit_ok : Result Status (Unit {0}))
    → require_agent ingest_logs p ≡ agent
    → within_limit request ≡ limit_ok
    → (do (agent_id, host) ← agent; few ← limit_ok; ok host) ≡ ok hostname
    → Accepted p request hostname
accept_after-Accepted p request hostname (err e) l h k done = absurd (cc)
accept_after-Accepted p request hostname (ok a) (err e) h k done = absurd (cc)
accept_after-Accepted p request hostname (ok (a, host)) (ok tt) h k done =
    let same : host ≡ hostname = cc in
    record {
      agent_id = a;
      bound_to = subst (Bound ingest_logs p a) same (require_agent-Bound ingest_logs p a host h);
      few = within_limit-le request k;
    }

pub accept_logs-Accepted :
    (p : Principal) (request : LogsRequest) (hostname : Text)
    → accept_logs p request ≡ ok hostname
    → Accepted p request hostname
unfolding accept_logs
accept_logs-Accepted p request hostname h =
    accept_after-Accepted p request hostname (require_agent ingest_logs p) (within_limit request)
      refl refl h
