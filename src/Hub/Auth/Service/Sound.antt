-- ===== src/Hub/Auth/Service/Sound.antt =====
-- What a success and each failure of `authenticate` mean.
use sentinalysis.Base.{Option, Text, none, refl, some, ℕ, ◌≡◌, ◌≢◌}
use sentinalysis.Base.Results.{Result, err, ok}
use sentinalysis.Hub.Auth.Cache.{VerifiedCache, get, insert_verified}
use sentinalysis.Hub.Auth.Permission.{ApiKeyRow, Principal, principal_from_row}
use sentinalysis.Hub.Auth.Service.{
  AuthError, HashCheck, Reply, World, authenticate, bad_signature, check_cache, check_hash,
  check_row, hash_result, mismatch, storage, unknown_key, unparseable, verified, verify_hash,
}
use sentinalysis.Hub.Auth.Key.{parse_key_id}

-- The key table answers a look-up by id with a row of that id, as its `WHERE key_id = $1` says.
abbrev pub RowsMatch : World → Type 0
RowsMatch w =
    (key_id : Text) (row : ApiKeyRow)
    → w.find_active_by_key_id key_id ≡ ok (some row)
    → row.key_id ≡ key_id

-- The key was verified against an active row, from which the principal is made.
pub record Verified (w : World) (raw_key key_id : Text) (p : Principal) : Type 0 where
  pub row : ApiKeyRow
  pub found : w.find_active_by_key_id key_id ≡ ok (some row)
  pub hash_matches : w.verify_password row.hash raw_key ≡ verified
  pub made : p ≡ principal_from_row row

-- Why a look-up or a verification fails.
pub data Fails (w : World) (raw_key key_id : Text) : AuthError → Type 0 where
  no_table :
      {e : Text} → w.find_active_by_key_id key_id ≡ err e → Fails w raw_key key_id (storage e)
  no_row : w.find_active_by_key_id key_id ≡ ok none → Fails w raw_key key_id unknown_key
  no_match :
      (row : ApiKeyRow)
      → w.find_active_by_key_id key_id ≡ ok (some row)
      → w.verify_password row.hash raw_key ≢ verified
      → Fails w raw_key key_id bad_signature

-- What a reply may be, for a key that parses to `key_id`.
pub data Allowed (w : World) (now stored_at : ℕ) (c : VerifiedCache) (raw_key key_id : Text)
    (r : Reply) : Type 0 where
  cached :
      (p : Principal)
      → get now c key_id ≡ some p
      → r ≡ (c, ok p)
      → Allowed w now stored_at c raw_key key_id r
  checked :
      (p : Principal)
      → get now c key_id ≡ none
      → Verified w raw_key key_id p
      → r ≡ (insert_verified stored_at c key_id p, ok p)
      → Allowed w now stored_at c raw_key key_id r
  failed :
      (e : AuthError)
      → get now c key_id ≡ none
      → Fails w raw_key key_id e
      → r ≡ (c, err e)
      → Allowed w now stored_at c raw_key key_id r

check_hash-Allowed :
    (w : World) (now stored_at : ℕ) (c : VerifiedCache) (raw_key key_id : Text) (row : ApiKeyRow)
    (h : HashCheck)
    → RowsMatch w
    → get now c key_id ≡ none
    → w.find_active_by_key_id key_id ≡ ok (some row)
    → w.verify_password row.hash raw_key ≡ h
    → Allowed w now stored_at c raw_key key_id (check_hash stored_at c row (hash_result h))
check_hash-Allowed w now t c raw k row verified m miss found h =
    checked (principal_from_row row) miss
      (record { row = row; found = found; hash_matches = h; made = refl }) (rw (m k row found))
check_hash-Allowed w now t c raw k row mismatch m miss found h =
    failed bad_signature miss (no_match row found (λ v. cc)) refl
check_hash-Allowed w now t c raw k row (unparseable e) m miss found h =
    failed bad_signature miss (no_match row found (λ v. cc)) refl

check_row-Allowed :
    (w : World) (now stored_at : ℕ) (c : VerifiedCache) (raw_key key_id : Text)
    (found : Result Text (Option ApiKeyRow))
    → RowsMatch w
    → get now c key_id ≡ none
    → w.find_active_by_key_id key_id ≡ found
    → Allowed w now stored_at c raw_key key_id (check_row w stored_at c raw_key found)
unfolding verify_hash
check_row-Allowed w now t c raw k (err e) m miss h = failed (storage e) miss (no_table h) refl
check_row-Allowed w now t c raw k (ok none) m miss h = failed unknown_key miss (no_row h) refl
check_row-Allowed w now t c raw k (ok (some row)) m miss h =
    check_hash-Allowed w now t c raw k row (w.verify_password row.hash raw) m miss h refl

check_cache-Allowed :
    (w : World) (now stored_at : ℕ) (c : VerifiedCache) (raw_key key_id : Text)
    (hit : Option Principal)
    → RowsMatch w
    → get now c key_id ≡ hit
    → Allowed w now stored_at c raw_key key_id (check_cache w stored_at c raw_key key_id hit)
check_cache-Allowed w now t c raw k none m h = check_row-Allowed w now t c raw k _ m h refl
check_cache-Allowed w now t c raw k (some p) m h = cached p h refl

-- With a key table that answers a look-up by id with a row of that id, a key that parses to an id
-- is answered in one of three ways: from a fresh entry of the cache, which stays as it is; or, on
-- a miss, by one verification against an active row, whose principal is then stored; or with an
-- error that leaves the cache as it is.
pub authenticate-Allowed :
    (w : World) (now stored_at : ℕ) (c : VerifiedCache) (raw_key key_id : Text)
    → RowsMatch w
    → parse_key_id w.is_match raw_key ≡ some key_id
    → Allowed w now stored_at c raw_key key_id (authenticate w now stored_at c raw_key)
unfolding authenticate
authenticate-Allowed w now t c raw k m e =
    rw e (check_cache-Allowed w now t c raw k (get now c k) m refl)
