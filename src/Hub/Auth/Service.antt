-- ===== src/Hub/Auth/Service.antt =====
-- src/hub/auth.rs: `AuthService::authenticate`. The key table and the password hash are parameters;
-- the per-IP budget is checked by the callers, before this.
pub mod Sound
pub mod Replay
use sentinalysis.Base.{Option, Text, codes, none, some, ℕ, ◌++◌}
use sentinalysis.Base.Results.{Result, err, ok}
use sentinalysis.Hub.Auth.Cache.{VerifiedCache, get, insert_verified}
use sentinalysis.Hub.Auth.Permission.{ApiKeyRow, Principal, principal_from_row}
use sentinalysis.Hub.Auth.Key.{Matcher, parse_key_id}

pub data AuthError : Type 0 where
  malformed unknown_key bad_signature rate_limited : AuthError
  storage : Text → AuthError

-- The outcome of parsing a stored hash and verifying a key against it.
pub data HashCheck : Type 0 where
  verified mismatch : HashCheck
  unparseable : Text → HashCheck

-- What lies outside: the pattern matcher, the key table, and `argon2`.
pub record World : Type 0 where
  pub is_match : Matcher
  pub find_active_by_key_id : Text → Result Text (Option ApiKeyRow)
  -- The stored hash, then the raw key.
  pub verify_password : Text → Text → HashCheck

abbrev pub hash_result : HashCheck → Result AuthError (Unit {0})
hash_result verified = ok tt
hash_result mismatch = err bad_signature
hash_result (unparseable e) = err (storage (codes "stored hash unparseable: " ++ e))

unfoldable pub verify_hash : World → Text → Text → Result AuthError (Unit {0})
verify_hash w stored_hash raw_key = hash_result (w.verify_password stored_hash raw_key)

abbrev pub Reply : Type 0
Reply = VerifiedCache × Result AuthError Principal

-- A row was found: one verification, and an entry in the cache. `map_err` hides every cause.
abbrev pub check_hash : ℕ → VerifiedCache → ApiKeyRow → Result AuthError (Unit {0}) → Reply
check_hash stored_at c row (err e) = (c, err bad_signature)
check_hash stored_at c row (ok _) =
    (insert_verified stored_at c row.key_id (principal_from_row row), ok (principal_from_row row))

abbrev pub check_row : World → ℕ → VerifiedCache → Text → Result Text (Option ApiKeyRow) → Reply
check_row w stored_at c raw_key (err e) = (c, err (storage e))
check_row w stored_at c raw_key (ok none) = (c, err unknown_key)
check_row w stored_at c raw_key (ok (some row)) =
    check_hash stored_at c row (verify_hash w row.hash raw_key)

abbrev pub check_cache : World → ℕ → VerifiedCache → Text → Text → Option Principal → Reply
check_cache w stored_at c raw_key key_id (some p) = (c, ok p)
check_cache w stored_at c raw_key key_id none =
    check_row w stored_at c raw_key (w.find_active_by_key_id key_id)

abbrev pub check_key : World → ℕ → ℕ → VerifiedCache → Text → Option Text → Reply
check_key w now stored_at c raw_key none = (c, err malformed)
check_key w now stored_at c raw_key (some key_id) =
    check_cache w stored_at c raw_key key_id (get now c key_id)

-- The clock reads `now` at the look-up in the cache and `stored_at` at the insert.
unfoldable pub authenticate : World → ℕ → ℕ → VerifiedCache → Text → Reply
authenticate w now stored_at c raw_key =
    check_key w now stored_at c raw_key (parse_key_id w.is_match raw_key)
