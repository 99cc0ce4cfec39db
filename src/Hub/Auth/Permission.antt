-- ===== src/Hub/Auth/Permission.antt =====
-- src/hub/auth.rs: what a key may do, and the authenticated caller.
use sentinalysis.Base.{
  Bool, List, Option, Option-cases, Text, [], any, arith, codes, false, if◌then◌else◌, inl, inr,
  none, refl, some, text_eq, text_eq_iff, true, ◌++◌, ◌↔◌, ◌∷◌, ◌≡◌,
}
use sentinalysis.Base.Dict.{mem_text}

pub data Permission : Type 0 where
  ingest_metrics ingest_logs ingest_events read_dashboard : Permission

unfoldable pub as_str : Permission → Text
as_str ingest_metrics = codes "ingest:metrics"
as_str ingest_logs = codes "ingest:logs"
as_str ingest_events = codes "ingest:events"
as_str read_dashboard = codes "read:dashboard"

unfoldable pub parse : Text → Option Permission
parse value =
    if text_eq value (codes "ingest:metrics")
    then some ingest_metrics
    else if text_eq value (codes "ingest:logs")
    then some ingest_logs
    else if text_eq value (codes "ingest:events")
    then some ingest_events
    else if text_eq value (codes "read:dashboard")
    then some read_dashboard
    else none

abbrev pub permission_eq : Permission → Permission → Bool
permission_eq ingest_metrics ingest_metrics = true
permission_eq ingest_logs ingest_logs = true
permission_eq ingest_events ingest_events = true
permission_eq read_dashboard read_dashboard = true
permission_eq _ _ = false

-- The set of permissions is a list in which only membership is read.
pub record Principal : Type 0 where
  pub key_id : Text
  pub permissions : List Permission
  pub agent_id : Option Text
  pub hostname : Option Text
  pub app_name : Option Text

abbrev pub holds : Principal → Permission → Bool
holds p permission = any (permission_eq permission) p.permissions

-- `require`: `none` for `Ok(())`, or the message of the error.
unfoldable pub require : Principal → Permission → Option Text
require p permission =
    if holds p permission
    then none
    else some (codes "key lacks required permission '" ++ (as_str permission ++ codes "'"))

-- The columns of an `api_keys` row that authentication reads (src/db/repositories/api_key_repo.rs).
pub record ApiKeyRow : Type 0 where
  pub hash : Text
  pub permissions : List Text
  pub key_id : Text
  pub agent_id : Option Text
  pub hostname : Option Text
  pub app_name : Option Text

pub parse_all : List Text → List Permission
parse_all [] = []
parse_all (p ∷ ps) = elim (parse p) [ none ↦ parse_all ps | some q ↦ q ∷ parse_all ps ]

unfoldable pub principal_from_row : ApiKeyRow → Principal
unfolding parse_all
principal_from_row row = record {
  key_id = row.key_id;
  permissions = parse_all row.permissions;
  agent_id = row.agent_id;
  hostname = row.hostname;
  app_name = row.app_name;
}

parse-as_str : (p : Permission) → parse (as_str p) ≡ some p
unfolding parse as_str text_eq
parse-as_str ingest_metrics = refl
parse-as_str ingest_logs = refl
parse-as_str ingest_events = refl
parse-as_str read_dashboard = refl

as_str_of_parse : (value : Text) (p : Permission) → parse value ≡ some p → value ≡ as_str p
unfolding parse as_str
as_str_of_parse value ingest_metrics h = ground (
  arith,
  text_eq_iff value (codes "ingest:metrics"),
  text_eq_iff value (codes "ingest:logs"),
  text_eq_iff value (codes "ingest:events"),
  text_eq_iff value (codes "read:dashboard"),
)
as_str_of_parse value p h = ground (
  arith,
  text_eq_iff value (codes "ingest:metrics"),
  text_eq_iff value (codes "ingest:logs"),
  text_eq_iff value (codes "ingest:events"),
  text_eq_iff value (codes "read:dashboard"),
)

-- A text parses to a permission exactly if it is that permission's name.
pub parse_iff : (value : Text) (p : Permission) → (parse value ≡ some p) ↔ (value ≡ as_str p)
parse_iff value p = (as_str_of_parse value p, λ e. rw e (parse-as_str p))

permission_eq_iff : (p q : Permission) → (permission_eq p q ≡ true) ↔ (q ≡ p)
permission_eq_iff ingest_metrics q = ground arith
permission_eq_iff ingest_logs q = ground arith
permission_eq_iff ingest_events q = ground arith
permission_eq_iff read_dashboard q = ground arith

-- One listed name contributes its permission, and a name that is not known contributes none.
any-parse_all :
    (p : Permission) (names : List Text)
    → any (permission_eq p) (parse_all names) ≡ mem_text (as_str p) names
unfolding parse_all mem_text
any-parse_all p [] = refl
any-parse_all p (x ∷ xs) = elim (Option-cases (parse x)) [
  | inl unknown ↦
      rw (unknown, parse_all)
        (ground (arith, any-parse_all p xs, text_eq_iff x (as_str p), (parse_iff x p).1))
  | inr (r, known) ↦
      rw (known, parse_all)
        (ground (
          arith,
          any-parse_all p xs,
          text_eq_iff x (as_str p),
          permission_eq_iff p r,
          (parse_iff x p).1,
          (parse_iff x r).0 known,
        ))
]

-- A principal made from a row holds exactly the permissions whose names the row lists.
pub holds-principal_from_row :
    (row : ApiKeyRow) (p : Permission)
    → holds (principal_from_row row) p ≡ mem_text (as_str p) row.permissions
unfolding principal_from_row
holds-principal_from_row row p = any-parse_all p row.permissions

-- `require` on the principal of a row succeeds exactly if the row lists the permission's name.
pub require-principal_from_row :
    (row : ApiKeyRow) (p : Permission)
    → (require (principal_from_row row) p ≡ none) ↔ (mem_text (as_str p) row.permissions ≡ true)
unfolding require
require-principal_from_row row p = ground (arith, holds-principal_from_row row p)
