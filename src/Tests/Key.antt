-- ===== src/Tests/Key.antt =====
-- The theorems on API keys at a concrete matcher, encoding and digest.
use mathlib.Core.Path.{subst}
use sentinalysis.Base.{
  ==_iff, All, Bool, List, Text, [], all, ap, arith, codes, drop, length, length-drop, length-take,
  refl, some, starts_with, suc, sym, take, take-append-drop, true, zero, ℕ, ◌&&◌, ◌++◌, ◌<◌, ◌==◌,
  ◌∙◌, ◌∷◌, ◌≡◌,
}
use sentinalysis.Hub.Auth.Key.{
  Crypto, Matcher, generate_key, is_wellformed, key_prefix, parse_key_id,
}
use sentinalysis.Hub.Auth.Key.RoundTrip.{
  CryptoSizes, HasKeyShape, KeyPattern, is_base64url, is_lower_hex, parse_key_id-generate_key,
}

-- What the pattern of a key means, as a test.
abbrev pub is_key : Text → Bool
unfolding starts_with
is_key s =
    starts_with s key_prefix
    && all is_lower_hex (take 8 (drop 4 s))
    && starts_with (drop 12 s) (codes "_")
    && length (drop 13 s) == 43
    && all is_base64url (drop 13 s)

abbrev pub sample_match : Matcher
unfolding is_key
sample_match pattern s = is_key s

take-append : (a b : Text) → take (length a) (a ++ b) ≡ a
take-append [] b = refl
take-append (c ∷ a) b = ap (◌∷◌ c) (take-append a b)

drop-append : (a b : Text) → drop (length a) (a ++ b) ≡ b
drop-append [] b = refl
drop-append (c ∷ a) b = drop-append a b

drop-one : (n : ℕ) (l : Text) → drop (suc n) l ≡ drop 1 (drop n l)
drop-one zero l = refl
drop-one (suc n) [] = refl
drop-one (suc n) (c ∷ l) = drop-one n l

-- Four more characters dropped.
drop-four : (n : ℕ) (l : Text) → drop (suc (suc (suc (suc n)))) l ≡ drop n (drop 4 l)
drop-four zero l = refl
drop-four (suc n) [] = refl
drop-four n (a ∷ b ∷ c ∷ d ∷ l) = refl
drop-four (suc n) (a ∷ []) = refl
drop-four (suc n) (a ∷ b ∷ []) = refl
drop-four (suc n) (a ∷ b ∷ c ∷ []) = refl

starts_with-drop : (s p : Text) → starts_with s p ≡ true → s ≡ p ++ drop (length p) s
unfolding starts_with
starts_with-drop s [] h = refl
starts_with-drop [] (x ∷ p) h = absurd (cc)
starts_with-drop (c ∷ s) (x ∷ p) h =
    let same : c ≡ x = ground arith in let rest = starts_with-drop s p (ground arith) in cc

is_key-parts :
    (i t : Text)
    → length i ≡ 8
    → all is_lower_hex i ≡ true
    → length t ≡ 43
    → all is_base64url t ≡ true
    → is_key (key_prefix ++ (i ++ (codes "_" ++ t))) ≡ true
unfolding is_key starts_with
is_key-parts i t p q r u =
    let front : take 8 (i ++ b'_' ∷ t) ≡ i =
      ap (λ n. take n (i ++ b'_' ∷ t)) (sym p) ∙ take-append i (b'_' ∷ t) in
    let back : drop 8 (i ++ b'_' ∷ t) ≡ b'_' ∷ t =
      ap (λ n. drop n (i ++ b'_' ∷ t)) (sym p) ∙ drop-append i (b'_' ∷ t) in
    let tail : drop 9 (i ++ b'_' ∷ t) ≡ t = drop-one 8 (i ++ b'_' ∷ t) ∙ ap (drop 1) back in
    rw (front, back, tail, q, r, u) refl

five_hold :
    (a b c d e : Bool)
    → (a && b && c && d && e) ≡ true
    → (b ≡ true) × (c ≡ true) × (d ≡ true) × (e ≡ true)
five_hold a b c d e h = ground arith

-- The test on what follows the prefix.
parts_of :
    (s r : Text) → s ≡ key_prefix ++ r → is_key s ≡ true → HasKeyShape s (take 8 r) (drop 9 r)
unfolding is_key starts_with
parts_of s r e h =
    let tested : is_key (key_prefix ++ r) ≡ true = ap is_key (sym e) ∙ h in
    let parts =
      five_hold (starts_with (key_prefix ++ r) key_prefix) (all is_lower_hex (take 8 r))
        (starts_with (drop 8 r) (codes "_")) (length (drop 9 r) == 43) (all is_base64url (drop 9 r))
        tested in
    let size : length (drop 9 r) ≡ 43 = (==_iff (length (drop 9 r)) 43).0 parts.2 in
    let bar : starts_with (drop 8 r) (codes "_") ≡ true = parts.1 in
    let behind : drop 8 r ≡ codes "_" ++ drop 9 r =
      starts_with-drop (drop 8 r) (codes "_") bar ∙ ap (λ t. codes "_" ++ t) (sym (drop-one 8 r)) in
    record {
      splits =
          e
          ∙ ap (λ t. key_prefix ++ t) (sym (take-append-drop 8 r) ∙ ap (λ t. take 8 r ++ t) behind);
      id_length = omega (arith, length-take 8 r, length-drop 9 r, size);
      id_chars = parts.0;
      secret_length = size;
      secret_chars = parts.3;
    }

parts_shape :
    (s : Text)
    → s ≡ key_prefix ++ drop 4 s
    → is_key s ≡ true
    → HasKeyShape s (take 8 (drop 4 s)) (drop 13 s)
parts_shape s e h =
    subst (λ x. HasKeyShape s (take 8 (drop 4 s)) x) (sym (drop-four 9 s))
      (parts_of s (drop 4 s) e h)

starts_with-is_key : (s : Text) → is_key s ≡ true → starts_with s key_prefix ≡ true
unfolding is_key
starts_with-is_key s h = ground arith

pub sample_match-KeyPattern : KeyPattern sample_match
unfolding sample_match
sample_match-KeyPattern = record {
  accepts = λ s i t shape.
      ap is_key shape.splits
      ∙ is_key-parts i t shape.id_length shape.id_chars shape.secret_length shape.secret_chars;
  refuses = λ s h. (
    take 8 (drop 4 s),
    drop 13 s,
    parts_shape s (starts_with-drop s key_prefix (starts_with-is_key s h)) h,
  );
}

abbrev pub repeated : ℕ → ℕ → List ℕ
repeated zero x = []
repeated (suc n) x = x ∷ repeated n x

abbrev pub sample_crypto : Crypto
sample_crypto = record { encode = λ bytes. repeated 43 b'A'; digest = λ bytes. repeated 32 171 }

bytes_below : (n : ℕ) → All (λ x. x < 256) (repeated n 171)
bytes_below zero = tt
bytes_below (suc n) = (omega arith, bytes_below n)

pub sample_crypto-CryptoSizes : CryptoSizes sample_crypto
sample_crypto-CryptoSizes = record {
  encoded_length = λ b h. refl;
  encoded_chars = λ b. refl;
  digest_length = λ b. refl;
  digest_bytes = λ b. bytes_below 32;
}

parse_key_id-generate_key_example :
    (is_wellformed sample_match (generate_key sample_crypto (repeated 32 7)).0 ≡ true)
    × (parse_key_id sample_match (generate_key sample_crypto (repeated 32 7)).0
        ≡ some (generate_key sample_crypto (repeated 32 7)).1)
parse_key_id-generate_key_example =
    parse_key_id-generate_key sample_match sample_crypto (repeated 32 7) sample_match-KeyPattern
      sample_crypto-CryptoSizes refl
