-- ===== src/Tests/Hub.antt =====
-- The hub's theorems at concrete inputs.
use sentinalysis.Base.{
  Bool, Option, Text, [], ap, arith, codes, false, get_range, none, refl, some, split_at_byte, sym,
  text_eq, text_eq_iff, true, ℕ, ◌++◌, ◌-◌, ◌∙◌, ◌∷◌, ◌≡◌, ◌≢◌, ◌≤◌, ◌⊎◌,
}
use sentinalysis.Base.Dict.{insert, lookup, mem_text}
use sentinalysis.Base.Results.{Result, ok}
use sentinalysis.Hub.Auth.Permission.{ApiKeyRow, principal_from_row}
use sentinalysis.Hub.Auth.Cache.{VerifiedCache, cache_ttl, evict, get, insert_verified, new, purge}
use sentinalysis.Hub.Auth.Key.{parse_key_id}
use sentinalysis.Hub.Auth.Service.{World, authenticate, verified, verify_hash}
use sentinalysis.Hub.Auth.Service.Sound.{RowsMatch, Verified}
use sentinalysis.Hub.Auth.Service.Replay.{
  Attempt, Granted, authenticate-Granted, authenticate_replay, start,
}
use sentinalysis.Hub.Validate.{sanitize_message, strip_newline}
use sentinalysis.Hub.Validate.Message.{Sanitized, sanitize_message-Sanitized}

abbrev some_id : Text
some_id = codes "0123abcd"

abbrev some_row : ApiKeyRow
some_row = record {
  hash = codes "argon";
  permissions = codes "ingest:logs" ∷ codes "unknown" ∷ [];
  key_id = some_id;
  agent_id = none;
  hostname = none;
  app_name = none;
}

-- A table with one row, whose hash any key matches.
abbrev row_for : Bool → Result Text (Option ApiKeyRow)
row_for true = ok (some some_row)
row_for false = ok none

abbrev some_world : World
unfolding text_eq
some_world = record {
  is_match = λ pattern s. true;
  find_active_by_key_id = λ k. row_for (text_eq some_id k);
  verify_password = λ stored_hash raw. verified;
}

row_for_matches :
    (b : Bool) (key_id : Text) (row : ApiKeyRow)
    → text_eq some_id key_id ≡ b
    → row_for b ≡ ok (some row)
    → row.key_id ≡ key_id
row_for_matches true key_id row e h =
    let same : some_row ≡ row = cc in
    ap (λ (r : ApiKeyRow). r.key_id) (sym same) ∙ (text_eq_iff some_id key_id).0 e
row_for_matches false key_id row e h = absurd (cc)

some_world-RowsMatch : RowsMatch some_world
unfolding some_world
some_world-RowsMatch key_id row h = row_for_matches (text_eq some_id key_id) key_id row refl h

abbrev raw_of : Text → Text
raw_of secret = codes "snt_0123abcd_" ++ secret

abbrev first_attempt : Attempt
first_attempt = record {
  world = some_world;
  now = 5;
  stored_at = 6;
  raw_key = raw_of (codes "good");
}

abbrev second_attempt : Attempt
second_attempt = record {
  world = some_world;
  now = 9;
  stored_at = 9;
  raw_key = raw_of (codes "bad");
}

parsed_first : parse_key_id some_world.is_match (raw_of (codes "good")) ≡ some some_id
unfolding parse_key_id get_range split_at_byte some_world
parsed_first = refl

parsed_second : parse_key_id some_world.is_match (raw_of (codes "bad")) ≡ some some_id
unfolding parse_key_id get_range split_at_byte some_world
parsed_second = refl

first_succeeds :
    (authenticate first_attempt.world 5 6 new first_attempt.raw_key).1
    ≡ ok (principal_from_row some_row)
unfolding authenticate some_world parse_key_id get_range split_at_byte get lookup verify_hash
    text_eq
first_succeeds = refl

authenticate-Granted_example :
    Verified some_world (raw_of (codes "good")) some_id (principal_from_row some_row)
    ⊎ ((t : ℕ) × Granted [] some_id (principal_from_row some_row) t × (5 - t ≤ cache_ttl))
authenticate-Granted_example =
    authenticate-Granted first_attempt some_id (principal_from_row some_row) start
      some_world-RowsMatch parsed_first first_succeeds

missed : get 5 new some_id ≡ none
unfolding get lookup
missed = refl

authenticate_replay_example :
    authenticate some_world 9 9
      (authenticate some_world 5 6 new (raw_of (codes "good"))).0
      (raw_of (codes "bad"))
    ≡ (
      (authenticate some_world 5 6 new (raw_of (codes "good"))).0,
      ok (principal_from_row some_row),
    )
authenticate_replay_example =
    authenticate_replay first_attempt second_attempt some_id (principal_from_row some_row) start
      some_world-RowsMatch parsed_first missed first_succeeds parsed_second (omega arith)

abbrev other_id : Text
other_id = codes "ffffffff"

abbrev two_keys : VerifiedCache
unfolding insert_verified
two_keys = insert_verified 4 new other_id (principal_from_row some_row)

other_found :
    get 9 (insert_verified 5 two_keys some_id (principal_from_row some_row)) other_id
    ≡ some (principal_from_row some_row)
unfolding get lookup insert_verified insert purge evict mem_text text_eq two_keys
other_found = refl

other_differs : other_id ≢ some_id
unfolding text_eq
other_differs e =
    let same : text_eq other_id some_id ≡ true = (text_eq_iff other_id some_id).1 e in
    let differ : text_eq other_id some_id ≡ false = refl in absurd (cc)

sanitize_message-Sanitized_example :
    (result : Text) × (sanitize_message (codes "hello\n") ≡ some result)
    × Sanitized (strip_newline (codes "hello\n")) result
sanitize_message-Sanitized_example = sanitize_message-Sanitized (codes "hello\n")

hello_sanitized : sanitize_message (codes "hello\n") ≡ some (codes "hello")
unfolding sanitize_message strip_newline
hello_sanitized = refl
