-- ===== src/Hub/Auth/Key.antt =====
-- src/hub/auth.rs: the format of an API key, its public id, and key generation. The `regex`,
-- `base64` and `sha2` crates and the random source are parameters.
pub mod RoundTrip
use sentinalysis.Base.{
  Bool, List, Option, Text, [], codes, get_range, if◌then◌else◌, len, ltb, none, not, take, ℕ, ◌%◌,
  ◌++◌, ◌+◌, ◌-◌, ◌/◌, ◌∷◌,
}

abbrev pub key_prefix : Text
key_prefix = codes "snt_"

abbrev pub key_id_len : ℕ
key_id_len = 8

abbrev pub secret_len : ℕ
secret_len = 43

-- The text that `key_format_re` builds from the constants.
abbrev pub key_format : Text
key_format = codes "^snt_[0-9a-f]{8}_[A-Za-z0-9_-]{43}$"

-- `Regex::new(pattern)` followed by `is_match(text)`.
abbrev pub Matcher : Type 0
Matcher = Text → Text → Bool

unfoldable pub is_wellformed : Matcher → Text → Bool
is_wellformed is_match raw_key = is_match key_format raw_key

unfoldable pub parse_key_id : Matcher → Text → Option Text
parse_key_id is_match raw_key =
    if not (is_match key_format raw_key)
    then none
    else get_range raw_key (len key_prefix) (len key_prefix + key_id_len)

-- One lowercase hexadecimal digit.
abbrev pub hex_digit : ℕ → ℕ
hex_digit n = if ltb n 10 then b'0' + n else b'a' + (n - 10)

-- `{b:02x}` for a byte.
abbrev pub hex_byte : ℕ → Text
hex_byte b = hex_digit (b / 16) ∷ hex_digit (b % 16) ∷ []

-- The fold of `hex_encode`, with its accumulator.
hex_onto : Text → List ℕ → Text
hex_onto out [] = out
hex_onto out (b ∷ bytes) = hex_onto (out ++ hex_byte b) bytes

unfoldable pub hex_encode : List ℕ → Text
unfolding hex_onto
hex_encode bytes = hex_onto [] bytes

-- `URL_SAFE_NO_PAD.encode` and `Sha256::digest`.
pub record Crypto : Type 0 where
  pub encode : List ℕ → Text
  pub digest : List ℕ → List ℕ

-- `as_bytes` of a text that is ASCII, as an encoded secret is.
abbrev pub as_bytes : Text → List ℕ
as_bytes s = s

-- `generate_key` for the 32 random bytes that it drew.
unfoldable pub generate_key : Crypto → List ℕ → Text × Text
generate_key crypto secret_bytes =
    let secret = crypto.encode secret_bytes in
    let key_id = hex_encode (take 4 (crypto.digest (as_bytes secret))) in
    (key_prefix ++ (key_id ++ (codes "_" ++ secret)), key_id)
