-- ===== src/Hub/Rest/Allowed.antt =====
-- The events that the checks of `validate_event` let through.
use sentinalysis.Base.{
  Bool-cases, List, Text, arith, false, inl, inr, is_nil, refl, some, true, ◌≡◌, ◌⊎◌,
}
use sentinalysis.Base.Int.{ℤ}
use sentinalysis.Base.Results.{Result, err, ok, ◌>>=◌}
use sentinalysis.Base.Dict.{mem_text}
use sentinalysis.Hub.Validate.{Reason, event_type, event_type_re, timestamp, user_id}
use sentinalysis.Hub.Auth.Key.{Matcher}
use sentinalysis.Hub.Ingest.Check.{if_some}
use sentinalysis.Hub.Ingest.Hosted.{OnOk}
use sentinalysis.Hub.Rest.Events.{
  IngestEvent, InsertAppEvent, Json, is_too_large, payload_shape, validate_event,
}

-- What is stored of an event for an app.
pub record IsAllowed {J : Type 0} (json : Json J) (is_match : Matcher) (app : Text)
    (allowlist : List Text) (row : InsertAppEvent J) : Type 0 where
  pub of_app : row.app_name ≡ app
  pub matches : is_match event_type_re row.event_type ≡ true
  pub listed : (is_nil allowlist ≡ true) ⊎ (mem_text row.event_type allowlist ≡ true)
  pub an_object : json.is_object row.payload ≡ true
  pub fits : is_too_large (json.serialized_len row.payload) ≡ false

-- What a passed check of the type and of the payload says.
type_passed :
    (is_match : Matcher) (value : Text) (allowlist : List Text)
    → event_type is_match value (some allowlist) ≡ ok tt
    → (is_match event_type_re value ≡ true)
      × ((is_nil allowlist ≡ true) ⊎ (mem_text value allowlist ≡ true))
unfolding event_type
type_passed is_match value allowlist h = elim (Bool-cases (is_match event_type_re value)) [
  | inl m ↦ elim (Bool-cases (is_nil allowlist)) [
    | inl n ↦ (m, inl n)
    | inr n ↦ (m, inr (ground arith))
  ]
  | inr m ↦ absurd (ground arith)
]

payload_passed :
    {J : Type 0} (json : Json J) (payload : J)
    → payload_shape json payload ≡ ok tt
    → (json.is_object payload ≡ true) × (is_too_large (json.serialized_len payload) ≡ false)
unfolding payload_shape
payload_passed json payload h = (ground arith, ground arith)

OnOk-passed :
    {A B : Type 0} (P : B → Type 0) (r : Result Reason A) (next : A → Result Reason B)
    → ((a : A) → r ≡ ok a → OnOk P (next a))
    → OnOk P (r >>= next)
OnOk-passed P (ok a) next after = after a refl
OnOk-passed P (err e) next after = tt

pub validate_event-IsAllowed :
    {J : Type 0} (json : Json J) (is_match : Matcher) (now : ℤ) (app : Text) (allowlist : List Text)
    (event : IngestEvent J)
    → OnOk
        (IsAllowed json is_match app allowlist)
        (validate_event json is_match now app allowlist event)
unfolding validate_event
validate_event-IsAllowed json is_match now app allowlist event =
    let P = IsAllowed json is_match app allowlist in
    OnOk-passed P (event_type is_match event.event_type (some allowlist)) _ (λ a t.
      OnOk-passed P (if_some user_id event.user_id) _ (λ b u.
        OnOk-passed P (payload_shape json event.payload) _ (λ c o.
          OnOk-passed P (timestamp event.timestamp now) _ (λ d w.
            let (matches, listed) = type_passed is_match event.event_type allowlist t in
            let (object, fits) = payload_passed json event.payload o in
            record {
              of_app = refl;
              matches = matches;
              listed = listed;
              an_object = object;
              fits = fits;
            }))))
