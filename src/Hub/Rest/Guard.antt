-- ===== src/Hub/Rest/Guard.antt =====
-- The middleware in front of the handlers: a handler runs for an authenticated caller only.
use sentinalysis.Base.{Bool, Option, Text, ap, false, inl, inr, none, refl, some, true, ℕ, ◌≡◌, ◌⊎◌}
use sentinalysis.Base.Results.{Result, err, ok}
use sentinalysis.Hub.Auth.Permission.{Principal}
use sentinalysis.Hub.Auth.Cache.{VerifiedCache}
use sentinalysis.Hub.Auth.Service.{
  AuthError, World, authenticate, bad_signature, malformed, rate_limited, storage, unknown_key,
}
use sentinalysis.Hub.Rest.Auth.{
  HttpRequest, HttpResponse, Rest, auth_message, auth_status_code, call, client_ip, extract_key,
  failed, on_budget, on_key, on_reply, reject,
}

abbrev pub IsFailure : {B : Type 0} → HttpResponse B → Type 0
IsFailure {B} response =
    (code : ℕ) × (message : Text) × (response ≡ failed code message)
    × ((code ≡ 401) ⊎ (code ≡ 429) ⊎ (code ≡ 500))

auth_status_code_one_of :
    (e : AuthError)
    → (auth_status_code e ≡ 401) ⊎ (auth_status_code e ≡ 429) ⊎ (auth_status_code e ≡ 500)
unfolding auth_status_code
auth_status_code_one_of rate_limited = inr (inl refl)
auth_status_code_one_of (storage message) = inr (inr refl)
auth_status_code_one_of malformed = inl refl
auth_status_code_one_of unknown_key = inl refl
auth_status_code_one_of bad_signature = inl refl

module _ {L S B : Type 0} (world : World) (spend : L → Text → L × Bool)
    (handler : Principal → S → S × HttpResponse B) (request : HttpRequest) (s : Rest L S) where
  -- The handler ran, for the principal of the request's key and within the address's budget.
  pub record Served (r : Rest L S × HttpResponse B) : Type 0 where
    pub raw_key : Text
    pub principal : Principal
    pub given : extract_key request ≡ some raw_key
    pub in_budget : (spend s.limiter (client_ip request)).1 ≡ true
    pub authentic :
        (authenticate world request.now request.stored_at s.cache raw_key).1 ≡ ok principal
    pub state : r.0.inner ≡ (handler principal s.inner).0
    pub response : r.1 ≡ (handler principal s.inner).1

  -- The handler did not run.
  abbrev pub Stopped : Rest L S × HttpResponse B → Type 0
  Stopped r = (r.0.inner ≡ s.inner) × IsFailure r.1

  on_reply-Served :
      (l : L) (raw_key : Text) (reply : VerifiedCache × Result AuthError Principal)
      → extract_key request ≡ some raw_key
      → (spend s.limiter (client_ip request)).1 ≡ true
      → authenticate world request.now request.stored_at s.cache raw_key ≡ reply
      → Served (on_reply world spend handler (record s { limiter = l }) reply)
        ⊎ Stopped (on_reply world spend handler (record s { limiter = l }) reply)
  on_reply-Served l raw_key (cache, ok p) g b a = inl (record {
    raw_key = raw_key;
    principal = p;
    given = g;
    in_budget = b;
    authentic = ap (λ q. q.1) a;
    state = refl;
    response = refl;
  })
  on_reply-Served l raw_key (cache, err e) g b a =
      inr (
        refl,
        (auth_status_code e, auth_message e, unfold reject in refl, auth_status_code_one_of e),
      )

  on_key-Served :
      (l : L) (key : Option Text)
      → extract_key request ≡ key
      → (spend s.limiter (client_ip request)).1 ≡ true
      → Served (on_key world spend handler request (record s { limiter = l }) key)
        ⊎ Stopped (on_key world spend handler request (record s { limiter = l }) key)
  on_key-Served l none g b =
      inr (refl, (401, auth_message malformed, unfold reject in refl, inl refl))
  on_key-Served l (some raw_key) g b = on_reply-Served l raw_key _ g b refl

  on_budget-Served :
      (budget : L × Bool)
      → spend s.limiter (client_ip request) ≡ budget
      → Served (on_budget world spend handler request s budget)
        ⊎ Stopped (on_budget world spend handler request s budget)
  on_budget-Served (l, false) b =
      inr (refl, (429, auth_message rate_limited, unfold reject in refl, inr (inl refl)))
  on_budget-Served (l, true) b = on_key-Served l (extract_key request) refl (ap (λ q. q.1) b)

  -- A REST request either reaches its handler, for the principal that its key authenticates as and
  -- within the budget of its address, with the handler's answer and state passed on; or the handler
  -- does not run, its state is as before, and the answer is an error with status 401, 429 or 500.
  pub call-Served :
      Served (call world spend handler request s) ⊎ Stopped (call world spend handler request s)
  unfolding call
  call-Served = on_budget-Served (spend s.limiter (client_ip request)) refl
