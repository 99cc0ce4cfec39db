-- ===== src/Hub/Keys/Lifecycle.antt =====
-- The life of a key: what the hub makes of it after the command created it, and after it revoked it.
use mathlib.Core.Path.{subst}
use sentinalysis.Base.{
  Bool, Bool-cases, List, Option, Text, [], any, ap, arith, false, inl, inr, length, none, not,
  refl, some, text_eq, text_eq_self, true, ℕ, ◌&&◌, ◌||◌, ◌+◌, ◌∙◌, ◌∷◌, ◌≡◌, ◌≢◌,
}
use sentinalysis.Base.Results.{Result, err, ok}
use sentinalysis.Base.Dict.{mem_text}
use sentinalysis.Hub.Auth.Permission.{
  ApiKeyRow, as_str, holds, ingest_events, ingest_logs, ingest_metrics, principal_from_row,
  read_dashboard, holds-principal_from_row,
}
use sentinalysis.Hub.Auth.Key.{Crypto, Matcher, generate_key, parse_key_id}
use sentinalysis.Hub.Auth.Key.RoundTrip.{CryptoSizes, KeyPattern, parse_key_id-generate_key}
use sentinalysis.Hub.Auth.Cache.{VerifiedCache, get}
use sentinalysis.Hub.Auth.Service.{
  HashCheck, World, authenticate, check_row, unknown_key, verified, verify_hash,
}
use sentinalysis.Hub.Keys.{
  KeyError, KeyRow, Role, agent_role, app_role, as_count, create, create_key, created_key,
  dashboard_role, find_active_by_key_id, from_action, has_key_id, is_active, is_some,
  not_exactly_one, revoke, revoke_key, role, row_of, run,
}

-- The authentication against the table as it stands.
abbrev pub world_of : Matcher → (Text → Text → HashCheck) → List KeyRow → World
world_of is_match verify_password table = record {
  is_match = is_match;
  find_active_by_key_id = λ key_id. ok (find_active_by_key_id key_id table);
  verify_password = verify_password;
}

-- A row's principal may do exactly what its binding stands for: an agent's metrics and logs, an
-- app's events, or, for neither, the dashboard's queries.
pub record IsSeparated (row : ApiKeyRow) : Type 0 where
  pub metrics : holds (principal_from_row row) ingest_metrics ≡ is_some row.agent_id
  pub logs : holds (principal_from_row row) ingest_logs ≡ is_some row.agent_id
  pub events : holds (principal_from_row row) ingest_events ≡ is_some row.app_name
  pub dashboard :
      holds (principal_from_row row) read_dashboard
      ≡ (not (is_some row.agent_id) && not (is_some row.app_name))
  pub named : is_some row.hostname ≡ is_some row.agent_id

agent-IsSeparated :
    (agent : Text) (hostname : Option Text) (hash key_id : Text)
    → IsSeparated (row_of (agent_role agent hostname) hash key_id)
unfolding agent_role as_str mem_text text_eq
agent-IsSeparated agent hostname hash key_id =
    let row = row_of (agent_role agent hostname) hash key_id in
    record {
      metrics = holds-principal_from_row row ingest_metrics;
      logs = holds-principal_from_row row ingest_logs;
      events = holds-principal_from_row row ingest_events;
      dashboard = holds-principal_from_row row read_dashboard;
      named = refl;
    }

app-IsSeparated : (app hash key_id : Text) → IsSeparated (row_of (app_role app) hash key_id)
unfolding app_role as_str mem_text text_eq
app-IsSeparated app hash key_id =
    let row = row_of (app_role app) hash key_id in
    record {
      metrics = holds-principal_from_row row ingest_metrics;
      logs = holds-principal_from_row row ingest_logs;
      events = holds-principal_from_row row ingest_events;
      dashboard = holds-principal_from_row row read_dashboard;
      named = refl;
    }

dashboard-IsSeparated :
    (name hash key_id : Text) → IsSeparated (row_of (dashboard_role name) hash key_id)
unfolding dashboard_role as_str mem_text text_eq
dashboard-IsSeparated name hash key_id =
    let row = row_of (dashboard_role name) hash key_id in
    record {
      metrics = holds-principal_from_row row ingest_metrics;
      logs = holds-principal_from_row row ingest_logs;
      events = holds-principal_from_row row ingest_events;
      dashboard = holds-principal_from_row row read_dashboard;
      named = refl;
    }

-- A role that the options of a command choose: bound to what was named, and separated.
pub record Chosen (agent app : Option Text) (r : Role) : Type 0 where
  pub of_agent : r.agent_id ≡ agent
  pub of_app : r.app_name ≡ app
  pub separated : (hash key_id : Text) → IsSeparated (row_of r hash key_id)

abbrev pub IsAnswer :
    Option Text → Option Text → Option Text → Result KeyError (Option Role) → Type 0
IsAnswer agent app dashboard (ok (some r)) =
    (as_count agent + as_count app + as_count dashboard ≡ 1) × Chosen agent app r
IsAnswer agent app dashboard (ok none) = true ≡ false
IsAnswer agent app dashboard (err e) =
    (as_count agent + as_count app + as_count dashboard ≢ 1) × (e ≡ not_exactly_one)

-- The options of `hub-key create` are refused exactly when not one of an agent, an app and a
-- dashboard is named, and otherwise they choose a role bound to what was named, whose key may
-- ingest metrics and logs exactly for an agent, events exactly for an app, and read the dashboard
-- exactly for neither.
pub from_action-IsAnswer :
    (agent hostname app dashboard : Option Text)
    → IsAnswer agent app dashboard (from_action (create_key agent hostname app dashboard))
unfolding from_action agent_role app_role dashboard_role
from_action-IsAnswer none hostname none none = (omega arith, refl)
from_action-IsAnswer none hostname none (some n) =
    (refl, record { of_agent = refl; of_app = refl; separated = dashboard-IsSeparated n })
from_action-IsAnswer none hostname (some a) none =
    (refl, record { of_agent = refl; of_app = refl; separated = app-IsSeparated a })
from_action-IsAnswer none hostname (some a) (some n) = (omega arith, refl)
from_action-IsAnswer (some g) hostname none none =
    (refl, record { of_agent = refl; of_app = refl; separated = agent-IsSeparated g hostname })
from_action-IsAnswer (some g) hostname none (some n) = (omega arith, refl)
from_action-IsAnswer (some g) hostname (some a) none = (omega arith, refl)
from_action-IsAnswer (some g) hostname (some a) (some n) = (omega arith, refl)

-- After a revocation no active row has the id.
find-revoke :
    (key_id : Text) (table : List KeyRow)
    → find_active_by_key_id key_id (revoke key_id table).0 ≡ none
unfolding find_active_by_key_id revoke
find-revoke key_id [] = refl
find-revoke key_id (r ∷ table) = elim (Bool-cases (is_active key_id r)) [
  | inl e ↦
      let same : text_eq r.row.key_id key_id ≡ true = ground arith in
      rw (e, same) (find-revoke key_id table)
  | inr e ↦ rw (e, e) (find-revoke key_id table)
]

-- What a caller with a key is answered, when the cache has no fresh entry for the key's id.
authenticate-uncached :
    (w : World) (now stored_at : ℕ) (c : VerifiedCache) (raw_key key_id : Text)
    → parse_key_id w.is_match raw_key ≡ some key_id
    → get now c key_id ≡ none
    → authenticate w now stored_at c raw_key
      ≡ check_row w stored_at c raw_key (w.find_active_by_key_id key_id)
unfolding authenticate
authenticate-uncached w now stored_at c raw_key key_id p g = rw (p, g) refl

-- After `hub-key revoke`, whatever the table holds, a caller with a key of that id whose
-- verification is not cached is refused as unknown, and the cache stays as it was.
pub authenticate-revoked :
    (is_match : Matcher) (verify_password : Text → Text → HashCheck) (crypto : Crypto)
    (hash_key : Text → Result Text Text) (bytes : List ℕ) (table : List KeyRow) (now stored_at : ℕ)
    (c : VerifiedCache) (raw_key key_id : Text)
    → parse_key_id is_match raw_key ≡ some key_id
    → get now c key_id ≡ none
    → authenticate
        (world_of is_match verify_password (run crypto hash_key bytes (revoke_key key_id) table).0)
        now
        stored_at
        c
        raw_key
      ≡ (c, err unknown_key)
unfolding run
authenticate-revoked is_match verify crypto hash_key bytes table now stored_at c raw_key key_id p
      g =
    authenticate-uncached (world_of is_match verify (revoke key_id table).0) now stored_at c raw_key
      key_id p g
    ∙ ap
        (λ found.
          check_row (world_of is_match verify (revoke key_id table).0) stored_at c raw_key
            (ok found))
        (find-revoke key_id table)

-- What the table checks of a row's bindings.
abbrev one_binding : Option Text → Option Text → Bool
one_binding a b =
    is_some a && not (is_some b)
    || not (is_some a) && is_some b
    || not (is_some a) && not (is_some b)

one_binding-chosen :
    (agent app dashboard : Option Text)
    → as_count agent + as_count app + as_count dashboard ≡ 1
    → one_binding agent app ≡ true
one_binding-chosen none none dashboard h = refl
one_binding-chosen none (some a) dashboard h = refl
one_binding-chosen (some g) none dashboard h = refl
one_binding-chosen (some g) (some a) dashboard h = absurd (omega arith)

one_binding-role :
    (agent hostname app dashboard : Option Text) (r : Role)
    → from_action (create_key agent hostname app dashboard) ≡ ok (some r)
    → one_binding r.agent_id r.app_name ≡ true
one_binding-role agent hostname app dashboard r h =
    let answer =
      subst (IsAnswer agent app dashboard) h (from_action-IsAnswer agent hostname app dashboard) in
    rw (answer.1.of_agent, answer.1.of_app) (one_binding-chosen agent app dashboard answer.0)

create-fresh :
    (table : List KeyRow) (name : Text) (row : ApiKeyRow)
    → one_binding row.agent_id row.app_name ≡ true
    → any (has_key_id row.key_id) table ≡ false
    → create table name row ≡ (
      record { name = name; row = row; revoked = false } ∷ table,
      ok record { name = name; row = row; revoked = false },
    )
unfolding create
create-fresh table name row h k = rw (h, k) refl

-- The new row is the one that is found.
find-fresh :
    (name : Text) (row : ApiKeyRow) (table : List KeyRow)
    → find_active_by_key_id row.key_id (record { name = name; row = row; revoked = false } ∷ table)
      ≡ some row
unfolding find_active_by_key_id
find-fresh name row table = rw (text_eq_self row.key_id) refl

-- A row whose hash the key verifies against makes the principal of the caller.
check_row-verified :
    (w : World) (stored_at : ℕ) (c : VerifiedCache) (raw_key : Text) (row : ApiKeyRow)
    → w.verify_password row.hash raw_key ≡ verified
    → (check_row w stored_at c raw_key (ok (some row))).1 ≡ ok (principal_from_row row)
unfolding verify_hash
check_row-verified w stored_at c raw_key row h = rw h refl

-- A key that `hub-key create` made for a role is printed with its id, and a caller with it is at
-- once authenticated as the principal of that role's row: when the table has no key of the same id
-- yet, the hub's cache has no fresh entry for that id, and the password hash that was stored
-- verifies the key, with the documented meaning of the key's pattern and the documented sizes of the
-- encoding and the digest.
pub authenticate-created :
    (is_match : Matcher) (verify_password : Text → Text → HashCheck) (crypto : Crypto)
    (hash_key : Text → Result Text Text) (bytes : List ℕ) (table : List KeyRow)
    (agent hostname app dashboard : Option Text) (r : Role) (hash : Text) (now stored_at : ℕ)
    (c : VerifiedCache)
    → KeyPattern is_match
    → CryptoSizes crypto
    → length bytes ≡ 32
    → from_action (create_key agent hostname app dashboard) ≡ ok (some r)
    → let key = generate_key crypto bytes in
      hash_key key.0 ≡ ok hash
      → verify_password hash key.0 ≡ verified
      → any (has_key_id key.1) table ≡ false
      → get now c key.1 ≡ none
      → let done = run crypto hash_key bytes (create_key agent hostname app dashboard) table in
        (done.1 ≡ ok (created_key r.name key.1 key.0 (role (row_of r hash key.1))))
        × ((authenticate (world_of is_match verify_password done.0) now stored_at c key.0).1
            ≡ ok (principal_from_row (row_of r hash key.1)))
unfolding run
authenticate-created is_match verify crypto hash_key bytes table agent hostname app dashboard r hash
      now stored_at c pattern sizes h from hashed checks fresh uncached =
    let key = generate_key crypto bytes in
    let row : ApiKeyRow = row_of r hash key.1 in
    let after : List KeyRow = record { name = r.name; row = row; revoked = false } ∷ table in
    let w : World = world_of is_match verify after in
    let created =
      create-fresh table r.name row (one_binding-role agent hostname app dashboard r from) fresh in
    let parsed = (parse_key_id-generate_key is_match crypto bytes pattern sizes h).1 in
    let admitted : (authenticate w now stored_at c key.0).1 ≡ ok (principal_from_row row) =
      ap (λ reply. reply.1)
        (authenticate-uncached w now stored_at c key.0 key.1 parsed uncached
          ∙ ap (λ found. check_row w stored_at c key.0 (ok found)) (find-fresh r.name row table))
      ∙ check_row-verified w stored_at c key.0 row checks in
    rw (from, hashed, created) (refl, admitted)
