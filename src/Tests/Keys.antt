-- ===== src/Tests/Keys.antt =====
-- The theorems about the life of a key at concrete inputs.
use sentinalysis.Base.{Text, [], codes, if◌then◌else◌, none, refl, some, text_eq, text_eq_self, ◌≡◌}
use sentinalysis.Base.Dict.{lookup}
use sentinalysis.Base.Results.{Result, err, ok}
use sentinalysis.Hub.Auth.Cache.{get, new}
use sentinalysis.Hub.Auth.Key.{generate_key}
use sentinalysis.Hub.Auth.Key.RoundTrip.{parse_key_id-generate_key}
use sentinalysis.Hub.Auth.Permission.{principal_from_row}
use sentinalysis.Hub.Auth.Service.{HashCheck, authenticate, mismatch, unknown_key, verified}
use sentinalysis.Hub.Keys.{
  Role, agent_role, create_key, created_key, from_action, revoke_key, role, row_of, run,
}
use sentinalysis.Hub.Keys.Lifecycle.{
  IsAnswer, authenticate-created, authenticate-revoked, from_action-IsAnswer, world_of,
}
use sentinalysis.Tests.Key.{
  repeated, sample_crypto, sample_crypto-CryptoSizes, sample_match, sample_match-KeyPattern,
}

-- A hash is the key itself.
abbrev plain_verify : Text → Text → HashCheck
plain_verify hash raw_key = if text_eq hash raw_key then verified else mismatch

abbrev plain_hash : Text → Result Text Text
plain_hash raw_key = ok raw_key

abbrev sample_key : Text × Text
sample_key = generate_key sample_crypto (repeated 32 7)

abbrev sample_role : Role
sample_role = agent_role (codes "a1") none

chosen : from_action (create_key (some (codes "a1")) none none none) ≡ ok (some sample_role)
unfolding from_action
chosen = refl

from_action-IsAnswer_example :
    IsAnswer
      (some (codes "a1"))
      none
      none
      (from_action (create_key (some (codes "a1")) none none none))
from_action-IsAnswer_example = from_action-IsAnswer (some (codes "a1")) none none none

authenticate-created_example :
    let done =
      run sample_crypto plain_hash
        (repeated 32 7)
        (create_key (some (codes "a1")) none none none)
        [] in
    (done.1
      ≡ ok (
          created_key sample_role.name sample_key.1 sample_key.0
            (role (row_of sample_role sample_key.0 sample_key.1))))
    × ((authenticate (world_of sample_match plain_verify done.0) 5 6 new sample_key.0).1
        ≡ ok (principal_from_row (row_of sample_role sample_key.0 sample_key.1)))
authenticate-created_example =
    authenticate-created sample_match plain_verify sample_crypto plain_hash (repeated 32 7) []
      (some (codes "a1")) none none none sample_role sample_key.0 5 6 new sample_match-KeyPattern
      sample_crypto-CryptoSizes refl chosen refl (rw (text_eq_self sample_key.0) refl) refl
      (unfold get lookup in refl)

authenticate-revoked_example :
    authenticate
      (world_of sample_match plain_verify
        (run sample_crypto plain_hash (repeated 32 7) (revoke_key sample_key.1) []).0)
      5
      6
      new
      sample_key.0
    ≡ (new, err unknown_key)
authenticate-revoked_example =
    authenticate-revoked sample_match plain_verify sample_crypto plain_hash (repeated 32 7) [] 5 6
      new sample_key.0 sample_key.1
      (parse_key_id-generate_key sample_match sample_crypto (repeated 32 7) sample_match-KeyPattern
        sample_crypto-CryptoSizes refl).1
      (unfold get lookup in refl)
