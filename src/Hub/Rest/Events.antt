-- ===== src/Hub/Rest/Events.antt =====
-- src/hub/rest/events.rs: the ingestion of app events. A payload is a value of the JSON library.
use sentinalysis.Base.{
  Bool, List, Option, Text, [], codes, false, if◌then◌else◌, is_nil, length, ltb, none, not, some,
  suc, true, ℕ, ◌&&◌, ◌++◌, ◌∷◌,
}
use sentinalysis.Base.Int.{ℤ}
use sentinalysis.Base.Results.{Result, err, ok, ◌>>=◌}
use sentinalysis.Hub.Validate.{
  Reason, app_name, event_type, max_events_per_request, max_payload_bytes, payload_not_object,
  payload_too_large, timestamp, user_id,
}
use sentinalysis.Hub.Auth.Key.{Matcher}
use sentinalysis.Hub.Auth.Permission.{Principal, holds, ingest_events}
use sentinalysis.Hub.Ingest.Check.{if_some}
use sentinalysis.Hub.Rest.Auth.{HttpResponse, answered, failed}

-- `is_object`, and the bytes that `to_vec` makes, if it makes any.
pub record Json (J : Type 0) : Type 0 where
  pub is_object : J → Bool
  pub serialized_len : J → Option ℕ

pub record IngestEvent (J : Type 0) : Type 0 where
  pub event_type : Text
  pub user_id : Option Text
  pub payload : J
  pub timestamp : ℤ

pub record InsertAppEvent (J : Type 0) : Type 0 where
  pub app_name : Text
  pub event_type : Text
  pub user_id : Option Text
  pub payload : J
  pub timestamp : ℤ

-- `none` stands for `usize::MAX`.
abbrev pub is_too_large : Option ℕ → Bool
is_too_large none = true
is_too_large (some n) = ltb max_payload_bytes n

module _ {J : Type 0} (json : Json J) where
  unfoldable pub payload_shape : J → Result Reason Unit
  payload_shape payload =
      if not (json.is_object payload)
      then err payload_not_object
      else if is_too_large (json.serialized_len payload)
      then err payload_too_large
      else ok tt

module _ {J : Type 0} (json : Json J) (is_match : Matcher) where
  unfoldable pub validate_event :
      ℤ → Text → List Text → IngestEvent J → Result Reason (InsertAppEvent J)
  unfolding event_type user_id payload_shape timestamp
  validate_event now app_name allowlist event = do
    type_ok ← event_type is_match event.event_type (some allowlist)
    user_ok ← if_some user_id event.user_id
    payload_ok ← payload_shape json event.payload
    time_ok ← timestamp event.timestamp now
    ok record {
      app_name = app_name;
      event_type = event.event_type;
      user_id = event.user_id;
      payload = event.payload;
      timestamp = event.timestamp;
    }

-- The limiter of events over its state `L`, and the table over its state `R`.
pub record EventsState (J L R : Type 0) : Type 0 where
  pub json : Json J
  pub is_match : Matcher
  pub allowed_event_types : List Text
  pub allow : L → Text → L × Bool
  pub insert_batch : R → List (InsertAppEvent J) → R × Result Text ℕ

-- The two lists of the loop, with the index of each error.
pub record Sorted (A : Type 0) : Type 0 where
  pub accepted : List A
  pub errors : List (ℕ × Reason)

abbrev pub sorted_one : {A : Type 0} → ℕ → Sorted A → Result Reason A → Sorted A
sorted_one index s (ok insert) = record s { accepted = s.accepted ++ insert ∷ [] }
sorted_one index s (err reason) = record s { errors = s.errors ++ (index, reason) ∷ [] }

-- The loop; the n-th event is checked at the clock's reading `n`.
unfoldable pub sort_events :
    {A E : Type 0} → (ℕ → E → Result Reason A) → ℕ → List E → Sorted A → Sorted A
sort_events check index [] s = s
sort_events check index (event ∷ events) s =
    sort_events check (suc index) events (sorted_one index s (check index event))

-- How many were stored, and the errors.
pub record IngestReply : Type 0 where
  pub accepted : ℕ
  pub rejected : ℕ
  pub errors : List (ℕ × Reason)

abbrev pub Posted : Type 0 → Type 0 → Type 0
Posted L R = (L × R) × HttpResponse IngestReply

module _ {J L R : Type 0} (state : EventsState J L R) where
  abbrev pub inserted : L → List (ℕ × Reason) → R × Result Text ℕ → Posted L R
  inserted l errors (r, ok n) =
      ((l, r), answered 202 (record { accepted = n; rejected = length errors; errors = errors }))
  inserted l errors (r, err e) = ((l, r), failed 500 (codes "storage failure"))

  -- The answer to the sorted events.
  abbrev pub store_sorted : L → R → Sorted (InsertAppEvent J) → Posted L R
  store_sorted l r s =
      if is_nil s.accepted && not (is_nil s.errors)
      then (
        (l, r),
        answered 422 (record { accepted = 0; rejected = length s.errors; errors = s.errors }),
      )
      else inserted l s.errors (state.insert_batch r s.accepted)

  unfoldable pub sorted_events : (ℕ → ℤ) → Text → List (IngestEvent J) → Sorted (InsertAppEvent J)
  unfolding sort_events validate_event
  sorted_events clock app_name events =
      sort_events
        (λ index event.
          validate_event state.json state.is_match (clock index) app_name state.allowed_event_types
            event)
        0 events (record { accepted = []; errors = [] })

  abbrev pub within_batch : (ℕ → ℤ) → Text → List (IngestEvent J) → R → L → Posted L R
  within_batch clock app_name events r l =
      if ltb max_events_per_request (length events)
      then ((l, r), failed 400 (codes "batch exceeds 500 events"))
      else store_sorted l r (sorted_events clock app_name events)

  abbrev pub within_rate : (ℕ → ℤ) → Text → List (IngestEvent J) → R → L × Bool → Posted L R
  within_rate clock app_name events r (l, false) =
      ((l, r), failed 429 (codes "rate limit exceeded"))
  within_rate clock app_name events r (l, true) = within_batch clock app_name events r l

  abbrev pub for_app : (ℕ → ℤ) → Principal → List (IngestEvent J) → L → R → Option Text → Posted L R
  for_app clock p events l r none = (
    (l, r),
    failed 403 (codes "this key is not bound to an app; app keys are required for event ingestion"),
  )
  for_app clock p events l r (some app_name) =
      within_rate clock app_name events r (state.allow l p.key_id)

  unfoldable pub post_events : (ℕ → ℤ) → List (IngestEvent J) → Principal → L × R → Posted L R
  unfolding sorted_events
  post_events clock events p (l, r) =
      if not (holds p ingest_events)
      then ((l, r), failed 403 (codes "key lacks ingest:events"))
      else for_app clock p events l r p.app_name
