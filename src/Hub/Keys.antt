-- ===== src/Hub/Keys.antt =====
-- src/hub/keys_cli.rs and src/db/repositories/api_key_repo.rs: the `hub-key` command on the table of
-- keys. The table is the list of its rows, newest first; a failure of the database is not modelled.
pub mod Lifecycle
use sentinalysis.Base.{
  Bool, List, Option, Text, [], any, codes, false, if◌then◌else◌, none, not, some, text_eq, true, ℕ,
  ◌&&◌, ◌+◌, ◌==◌, ◌||◌, ◌∷◌,
}
use sentinalysis.Base.Results.{Result, err, ok}
use sentinalysis.Hub.Auth.Permission.{
  ApiKeyRow, as_str, ingest_events, ingest_logs, ingest_metrics, read_dashboard,
}
use sentinalysis.Hub.Auth.Key.{Crypto, generate_key}

pub data HubKeyAction : Type 0 where
  create_key : (agent hostname app dashboard : Option Text) → HubKeyAction
  list_keys : HubKeyAction
  revoke_key : Text → HubKeyAction

pub record Role : Type 0 where
  pub name : Text
  pub agent_id : Option Text
  pub hostname : Option Text
  pub app_name : Option Text
  pub permissions : List Text

-- `dashboard_missing` is the panic of the `expect`.
pub data KeyError : Type 0 where
  not_exactly_one dashboard_missing no_role two_bindings duplicate_key_id : KeyError
  no_hash : Text → KeyError

abbrev pub is_some : Option Text → Bool
is_some none = false
is_some (some s) = true

abbrev pub as_count : Option Text → ℕ
as_count none = 0
as_count (some s) = 1

abbrev pub or_text : Option Text → Text → Text
or_text none default = default
or_text (some s) default = s

unfoldable pub agent_role : Text → Option Text → Role
unfolding as_str
agent_role agent_id hostname = record {
  name = agent_id;
  agent_id = some agent_id;
  hostname = some (or_text hostname agent_id);
  app_name = none;
  permissions = as_str ingest_metrics ∷ as_str ingest_logs ∷ [];
}

unfoldable pub app_role : Text → Role
unfolding as_str
app_role app_name = record {
  name = app_name;
  agent_id = none;
  hostname = none;
  app_name = some app_name;
  permissions = as_str ingest_events ∷ [];
}

unfoldable pub dashboard_role : Text → Role
unfolding as_str
dashboard_role name = record {
  name = name;
  agent_id = none;
  hostname = none;
  app_name = none;
  permissions = as_str read_dashboard ∷ [];
}

-- The early returns, behind the count.
abbrev pub chosen_role :
    Option Text → Option Text → Option Text → Option Text → Result KeyError (Option Role)
chosen_role (some agent_id) hostname app dashboard = ok (some (agent_role agent_id hostname))
chosen_role none hostname (some app_name) dashboard = ok (some (app_role app_name))
chosen_role none hostname none (some name) = ok (some (dashboard_role name))
chosen_role none hostname none none = err dashboard_missing

unfoldable pub from_action : HubKeyAction → Result KeyError (Option Role)
unfolding agent_role app_role dashboard_role
from_action (create_key agent hostname app dashboard) =
    if not (as_count agent + as_count app + as_count dashboard == 1)
    then err not_exactly_one
    else chosen_role agent hostname app dashboard
from_action _ = ok none

-- A row of the table; times are left out.
pub record KeyRow : Type 0 where
  pub name : Text
  pub row : ApiKeyRow
  pub revoked : Bool

pub data KeyRole : Type 0 where
  agent_key app_key dashboard_key : KeyRole

unfoldable pub role : ApiKeyRow → KeyRole
role row =
    if is_some row.agent_id
    then agent_key
    else if is_some row.app_name
    then app_key
    else dashboard_key

abbrev pub has_key_id : Text → KeyRow → Bool
has_key_id key_id r = text_eq r.row.key_id key_id

-- `key_id` is UNIQUE in the table's definition.
unfoldable pub create : List KeyRow → Text → ApiKeyRow → List KeyRow × Result KeyError KeyRow
create table name row =
    if not (
      is_some row.agent_id && not (is_some row.app_name)
      || not (is_some row.agent_id) && is_some row.app_name
      || not (is_some row.agent_id) && not (is_some row.app_name))
    then (table, err two_bindings)
    else if any (has_key_id row.key_id) table
    then (table, err duplicate_key_id)
    else (
      record { name = name; row = row; revoked = false } ∷ table,
      ok record { name = name; row = row; revoked = false },
    )

abbrev pub is_active : Text → KeyRow → Bool
is_active key_id r = has_key_id key_id r && not r.revoked

unfoldable pub find_active_by_key_id : Text → List KeyRow → Option ApiKeyRow
unfolding text_eq
find_active_by_key_id key_id [] = none
find_active_by_key_id key_id (r ∷ table) =
    if is_active key_id r then some r.row else find_active_by_key_id key_id table

-- The rows after the update, and whether it changed one.
unfoldable pub revoke : Text → List KeyRow → List KeyRow × Bool
unfolding text_eq
revoke key_id [] = ([], false)
revoke key_id (r ∷ table) =
    let rest = revoke key_id table in
    if is_active key_id r
    then (record r { revoked = true } ∷ rest.0, true)
    else (r ∷ rest.0, rest.1)

-- What the command prints.
pub data Printed : Type 0 where
  created_key : (name key_id raw_key : Text) → KeyRole → Printed
  listed_keys : List KeyRow → Printed
  revoked_key : Bool → Printed

abbrev pub row_of : Role → Text → Text → ApiKeyRow
row_of r hash key_id = record {
  hash = hash;
  permissions = r.permissions;
  key_id = key_id;
  agent_id = r.agent_id;
  hostname = r.hostname;
  app_name = r.app_name;
}

abbrev pub print_created :
    Text × Text → List KeyRow × Result KeyError KeyRow → List KeyRow × Result KeyError Printed
print_created key (table, err e) = (table, err e)
print_created (raw_key, key_id) (table, ok r) =
    (table, ok (created_key r.name key_id raw_key (role r.row)))

abbrev pub store_key :
    List KeyRow → Role → Text × Text → Result Text Text → List KeyRow × Result KeyError Printed
store_key table r key (err e) = (table, err (no_hash e))
store_key table r key (ok hash) = print_created key (create table r.name (row_of r hash key.1))

-- `hash_key` is the password hash of the `argon2` crate, with its salt drawn.
abbrev pub create_for :
    Crypto
    → (Text → Result Text Text)
    → List ℕ
    → List KeyRow
    → Result KeyError (Option Role)
    → List KeyRow × Result KeyError Printed
unfolding role create generate_key
create_for crypto hash_key secret_bytes table (err e) = (table, err e)
create_for crypto hash_key secret_bytes table (ok none) = (table, err no_role)
create_for crypto hash_key secret_bytes table (ok (some r)) =
    let key = generate_key crypto secret_bytes in store_key table r key (hash_key key.0)

abbrev pub print_revoked : List KeyRow × Bool → List KeyRow × Result KeyError Printed
print_revoked (table, changed) = (table, ok (revoked_key changed))

unfoldable pub run :
    Crypto
    → (Text → Result Text Text)
    → List ℕ
    → HubKeyAction
    → List KeyRow
    → List KeyRow × Result KeyError Printed
unfolding from_action role create generate_key revoke
run crypto hash_key secret_bytes (create_key agent hostname app dashboard) table =
    create_for crypto hash_key secret_bytes table
      (from_action (create_key agent hostname app dashboard))
run crypto hash_key secret_bytes list_keys table = (table, ok (listed_keys table))
run crypto hash_key secret_bytes (revoke_key key_id) table = print_revoked (revoke key_id table)
