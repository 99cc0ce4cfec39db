-- ===== src/Hub/Auth/Key/RoundTrip.antt =====
-- A generated key is well formed, and its id is read back from it.
use mathlib.Core.Path.{subst}
use sentinalysis.Base.{
  All, Bool, List, Text, [], all, ap, append-nil, append_assoc, arith, codes, get_range, is_ascii,
  is_ascii_digit, is_ascii_lowercase, is_ascii_uppercase, len, len_of_ascii, length, length-take,
  refl, some, split_at_byte, split_at_byte-append, suc, sym, take, true, within, zero, ℕ, ◌%◌, ◌*◌,
  ◌++◌, ◌/◌, ◌<◌, ◌==◌, ◌||◌, ◌↔◌, ◌∙◌, ◌∷◌, ◌≡◌,
}
use sentinalysis.Hub.Auth.Key.{
  Crypto, Matcher, generate_key, hex_byte, hex_digit, hex_encode, hex_onto, is_wellformed,
  key_format, key_id_len, key_prefix, parse_key_id, secret_len,
}

abbrev pub is_lower_hex : ℕ → Bool
is_lower_hex c = is_ascii_digit c || within b'a' b'f' c

abbrev pub is_base64url : ℕ → Bool
is_base64url c =
    is_ascii_lowercase c || is_ascii_uppercase c || is_ascii_digit c || c == b'_' || c == b'-'

-- What the pattern of a key says, in the notation of the `regex` crate.
pub record HasKeyShape (s key_id secret : Text) : Type 0 where
  pub splits : s ≡ key_prefix ++ (key_id ++ (codes "_" ++ secret))
  pub id_length : length key_id ≡ key_id_len
  pub id_chars : all is_lower_hex key_id ≡ true
  pub secret_length : length secret ≡ secret_len
  pub secret_chars : all is_base64url secret ≡ true

-- The documented meaning of that pattern.
pub record KeyPattern (is_match : Matcher) : Type 0 where
  pub accepts :
      (s key_id secret : Text) → HasKeyShape s key_id secret → is_match key_format s ≡ true
  pub refuses :
      (s : Text) → is_match key_format s ≡ true → (i : Text) × (t : Text) × HasKeyShape s i t

-- The documented sizes and alphabets: 32 bytes encode to 43 characters, and a digest is 32 bytes.
pub record CryptoSizes (crypto : Crypto) : Type 0 where
  pub encoded_length : (b : List ℕ) → length b ≡ 32 → length (crypto.encode b) ≡ secret_len
  pub encoded_chars : (b : List ℕ) → all is_base64url (crypto.encode b) ≡ true
  pub digest_length : (b : List ℕ) → length (crypto.digest b) ≡ 32
  pub digest_bytes : (b : List ℕ) → All (λ x. x < 256) (crypto.digest b)

-- Two digits a byte.
hex : List ℕ → Text
hex [] = []
hex (b ∷ bytes) = hex_byte b ++ hex bytes

hex_onto-hex : (bytes : List ℕ) (out : Text) → hex_onto out bytes ≡ out ++ hex bytes
unfolding hex_onto hex
hex_onto-hex [] out = sym (append-nil out)
hex_onto-hex (b ∷ bytes) out =
    hex_onto-hex bytes (out ++ hex_byte b) ∙ append_assoc out (hex_byte b) (hex bytes)

hex_encode-hex : (bytes : List ℕ) → hex_encode bytes ≡ hex bytes
unfolding hex_encode
hex_encode-hex bytes = hex_onto-hex bytes []

length-hex : (bytes : List ℕ) → length (hex bytes) ≡ 2 * length bytes
unfolding hex
length-hex [] = refl
length-hex (b ∷ bytes) = omega (arith, length-hex bytes)

hex_digit-is_lower_hex : (n : ℕ) → n < 16 → is_lower_hex (hex_digit n) ≡ true
hex_digit-is_lower_hex n h = ground arith

hex-is_lower_hex : (bytes : List ℕ) → All (λ x. x < 256) bytes → all is_lower_hex (hex bytes) ≡ true
unfolding hex
hex-is_lower_hex [] h = refl
hex-is_lower_hex (b ∷ bytes) h = ground (
  arith,
  hex_digit-is_lower_hex (b / 16),
  hex_digit-is_lower_hex (b % 16),
  hex-is_lower_hex bytes h.1,
)

All-take : (n : ℕ) (bytes : List ℕ) → All (λ x. x < 256) bytes → All (λ x. x < 256) (take n bytes)
All-take zero bytes h = tt
All-take (suc n) [] h = tt
All-take (suc n) (b ∷ bytes) h = (h.0, All-take n bytes h.1)

lower_hex-is_ascii : (s : Text) → all is_lower_hex s ≡ true → all is_ascii s ≡ true
unfolding is_ascii
lower_hex-is_ascii [] h = refl
lower_hex-is_ascii (c ∷ s) h = ground (arith, lower_hex-is_ascii s)

-- The id of a key of the right shape is what stands between the prefix and the underscore.
pub parse_key_id-HasKeyShape :
    (is_match : Matcher) (s key_id secret : Text)
    → KeyPattern is_match
    → HasKeyShape s key_id secret
    → parse_key_id is_match s ≡ some key_id
unfolding parse_key_id get_range
parse_key_id-HasKeyShape is_match s key_id secret pattern shape =
    let behind = codes "_" ++ secret in
    let size : len key_id ≡ 8 =
      len_of_ascii key_id (lower_hex-is_ascii key_id shape.id_chars) ∙ shape.id_length in
    let first : split_at_byte s 4 ≡ some (key_prefix, key_id ++ behind) =
      ap (λ t. split_at_byte t 4) shape.splits
      ∙ split_at_byte-append key_prefix (key_id ++ behind) in
    let second : split_at_byte (key_id ++ behind) 8 ≡ some (key_id, behind) =
      ap (split_at_byte (key_id ++ behind)) (sym size) ∙ split_at_byte-append key_id behind in
    rw (pattern.accepts s key_id secret shape, first, second)

wellformed_of_parsed :
    (is_match : Matcher) (s : Text) {key_id : Text}
    → parse_key_id is_match s ≡ some key_id
    → is_match key_format s ≡ true
unfolding parse_key_id
wellformed_of_parsed is_match s h = ground arith

-- With the documented meaning of the key's pattern, a key parses to an id exactly if it is the
-- prefix, that id of eight lowercase hexadecimal digits, an underscore and a secret of 43
-- base64url characters.
pub parse_key_id_iff :
    (is_match : Matcher) (s key_id : Text)
    → KeyPattern is_match
    → (parse_key_id is_match s ≡ some key_id) ↔ ((secret : Text) × HasKeyShape s key_id secret)
parse_key_id_iff is_match s key_id pattern = (
  λ h.
      let (i, t, shape) = pattern.refuses s (wellformed_of_parsed is_match s h) in
      let back = parse_key_id-HasKeyShape is_match s i t pattern shape in
      let same : i ≡ key_id = cc in (t, subst (λ k. HasKeyShape s k t) same shape),
  λ (t, shape). parse_key_id-HasKeyShape is_match s key_id t pattern shape,
)

generate_key-HasKeyShape :
    (crypto : Crypto) (bytes : List ℕ)
    → CryptoSizes crypto
    → length bytes ≡ 32
    → HasKeyShape (generate_key crypto bytes).0 (generate_key crypto bytes).1 (crypto.encode bytes)
unfolding generate_key
generate_key-HasKeyShape crypto bytes sizes h =
    let hashed = crypto.digest (crypto.encode bytes) in
    let four = take 4 hashed in
    let small = All-take 4 hashed (sizes.digest_bytes (crypto.encode bytes)) in
    record {
      splits = refl;
      id_length =
          ap length (hex_encode-hex four)
          ∙ omega (
            arith,
            length-hex four,
            length-take 4 hashed,
            sizes.digest_length (crypto.encode bytes),
          );
      id_chars = ap (all is_lower_hex) (hex_encode-hex four) ∙ hex-is_lower_hex four small;
      secret_length = sizes.encoded_length bytes h;
      secret_chars = sizes.encoded_chars bytes;
    }

-- With the documented meaning of the key's pattern and the documented sizes and alphabets of the
-- encoding and the digest, a generated key is well formed, and its parsed id is the one that is
-- stored beside its hash.
pub parse_key_id-generate_key :
    (is_match : Matcher) (crypto : Crypto) (secret_bytes : List ℕ)
    → KeyPattern is_match
    → CryptoSizes crypto
    → length secret_bytes ≡ 32
    → (is_wellformed is_match (generate_key crypto secret_bytes).0 ≡ true)
      × (parse_key_id is_match (generate_key crypto secret_bytes).0
          ≡ some (generate_key crypto secret_bytes).1)
unfolding is_wellformed
parse_key_id-generate_key is_match crypto bytes pattern sizes h =
    let shape = generate_key-HasKeyShape crypto bytes sizes h in
    (pattern.accepts _ _ _ shape, parse_key_id-HasKeyShape is_match _ _ _ pattern shape)
