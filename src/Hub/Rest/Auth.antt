-- ===== src/Hub/Rest/Auth.antt =====
-- src/hub/rest/auth.rs: the key of a request, and the middleware in front of every handler.
use sentinalysis.Base.{
  Bool, Option, Text, [], codes, false, if◌then◌else◌, none, some, true, ℕ, ◌++◌, ◌==◌, ◌∷◌,
}
use sentinalysis.Base.Results.{Result, err, ok}
use sentinalysis.Hub.Auth.Permission.{Principal}
use sentinalysis.Hub.Auth.Cache.{VerifiedCache}
use sentinalysis.Hub.Auth.Service.{
  AuthError, World, authenticate, bad_signature, malformed, rate_limited, storage, unknown_key,
}

-- What the middleware reads of a request: the two headers, as far as they are text, and the peer.
-- The clock reads `now` and `stored_at` during authentication.
pub record HttpRequest : Type 0 where
  pub x_api_key : Option Text
  pub authorization : Option Text
  pub peer_addr : Option Text
  pub now : ℕ
  pub stored_at : ℕ

-- The rest behind a prefix.
unfoldable pub strip_prefix : Text → Text → Option Text
strip_prefix [] s = some s
strip_prefix (p ∷ ps) [] = none
strip_prefix (p ∷ ps) (c ∷ cs) = let rest = strip_prefix ps cs in if c == p then rest else none

abbrev pub bearer : Option Text → Option Text
unfolding strip_prefix
bearer none = none
bearer (some value) = strip_prefix (codes "Bearer ") value

abbrev pub key_or : Option Text → Option Text → Option Text
key_or none fallback = fallback
key_or (some value) fallback = some value

unfoldable pub extract_key : HttpRequest → Option Text
unfolding strip_prefix
extract_key request = key_or request.x_api_key (bearer request.authorization)

unfoldable pub client_ip : HttpRequest → Text
client_ip request = elim request.peer_addr [ none ↦ codes "unknown" | some ip ↦ ip ]

-- The status of a failed authentication.
unfoldable pub auth_status_code : AuthError → ℕ
auth_status_code rate_limited = 429
auth_status_code (storage message) = 500
auth_status_code _ = 401

unfoldable pub auth_message : AuthError → Text
auth_message malformed = codes "malformed API key"
auth_message unknown_key = codes "unknown API key"
auth_message bad_signature = codes "invalid API key"
auth_message rate_limited = codes "too many authentication attempts"
auth_message (storage message) = codes "authentication storage failure: " ++ message

-- An answer: a body of type `B`, or the status and the message of an error.
pub data HttpResponse (B : Type 0) : Type 0 where
  answered : ℕ → B → HttpResponse B
  failed : ℕ → Text → HttpResponse B

-- The service's state: the cache, the limiter of attempts, and what the handlers use.
pub record Rest (L S : Type 0) : Type 0 where
  pub cache : VerifiedCache
  pub limiter : L
  pub inner : S

unfoldable pub reject : {B : Type 0} → AuthError → ℕ → HttpResponse B
unfolding auth_message
reject error status = failed status (auth_message error)

-- `spend` spends one attempt of an address. A handler is a step over its own state.
module _ {L S B : Type 0} (world : World) (spend : L → Text → L × Bool)
    (handler : Principal → S → S × HttpResponse B) where
  abbrev pub handled : Rest L S → S × HttpResponse B → Rest L S × HttpResponse B
  handled s (inner, response) = (record s { inner = inner }, response)

  abbrev pub on_reply :
      Rest L S → VerifiedCache × Result AuthError Principal → Rest L S × HttpResponse B
  on_reply s (cache, ok p) = handled (record s { cache = cache }) (handler p s.inner)
  on_reply s (cache, err e) = (record s { cache = cache }, reject e (auth_status_code e))

  abbrev pub on_key : HttpRequest → Rest L S → Option Text → Rest L S × HttpResponse B
  on_key request s none = (s, reject malformed 401)
  on_key request s (some raw_key) =
      on_reply s (authenticate world request.now request.stored_at s.cache raw_key)

  abbrev pub on_budget : HttpRequest → Rest L S → L × Bool → Rest L S × HttpResponse B
  on_budget request s (l, false) = (record s { limiter = l }, reject rate_limited 429)
  on_budget request s (l, true) = on_key request (record s { limiter = l }) (extract_key request)

  unfoldable pub call : HttpRequest → Rest L S → Rest L S × HttpResponse B
  unfolding client_ip
  call request s = on_budget request s (spend s.limiter (client_ip request))
