-- ===== src/Hub/Rest/Posting.antt =====
-- Which events `post_events` stores, and for whom.
use sentinalysis.Base.{
  All, List, Text, [], if◌then◌else◌, is_nil, length, not, some, true, ℕ, ◌&&◌, ◌+◌, ◌≡◌, ◌≤◌,
}
use sentinalysis.Base.Int.{ℤ}
use sentinalysis.Base.Results.{Result, ok}
use sentinalysis.Hub.Validate.{Reason, max_events_per_request}
use sentinalysis.Hub.Auth.Permission.{Principal, holds, ingest_events}
use sentinalysis.Hub.Rest.Auth.{HttpResponse, answered, failed}
use sentinalysis.Hub.Rest.Events.{
  EventsState, IngestEvent, IngestReply, InsertAppEvent, Sorted, validate_event,
}
use sentinalysis.Hub.Rest.Sorting.{accepted_of, errors_of}
use sentinalysis.Hub.Rest.Allowed.{IsAllowed}

-- What holds of an answer that is no error.
abbrev OnAnswer : {S B : Type 0} → (S → ℕ → B → Type 0) → S → HttpResponse B → Type 0
OnAnswer P s (answered code body) = P s code body
OnAnswer P s (failed code message) = Unit

module _ {J L R : Type 0} (state : EventsState J L R) (clock : ℕ → ℤ)
    (events : List (IngestEvent J)) where
  unfoldable pub checked : Text → ℕ → IngestEvent J → Result Reason (InsertAppEvent J)
  checked app index event =
      validate_event state.json state.is_match (clock index) app state.allowed_event_types event

  -- What became of the accepted events.
  pub data Stored (r : R) (accepted : List (InsertAppEvent J)) : R → ℕ → ℕ → Type 0 where
    none_accepted : accepted ≡ [] → Stored r accepted r 422 0
    written :
        {after : R} {n : ℕ}
        → state.insert_batch r accepted ≡ (after, ok n)
        → Stored r accepted after 202 n

  -- What an answer without an error means.
  pub record Ingested (p : Principal) (l : L) (r after : R) (code : ℕ) (reply : IngestReply)
      : Type 0 where
    pub app : Text
    pub permitted : holds p ingest_events ≡ true
    pub of_app : p.app_name ≡ some app
    pub in_budget : (state.allow l p.key_id).1 ≡ true
    pub few : length events ≤ max_events_per_request
    pub stored : Stored r (accepted_of (checked app) 0 events) after code reply.accepted
    pub status :
        code
        ≡ (if is_nil (accepted_of (checked app) 0 events) && not (is_nil events) then 422 else 202)
    pub allowed :
        All
          (IsAllowed state.json state.is_match app state.allowed_event_types)
          (accepted_of (checked app) 0 events)
    pub accounted :
        length (accepted_of (checked app) 0 events) + length reply.errors ≡ length events
    pub errors : reply.errors ≡ errors_of (checked app) 0 events
    pub rejected : reply.rejected ≡ length reply.errors

  -- The last step of the handler, on the two lists.
  record Ended (r : R) (s : Sorted (InsertAppEvent J)) (last : L × R) (code : ℕ)
      (reply : IngestReply) : Type 0 where
    pub stored : Stored r s.accepted last.1 code reply.accepted
    pub status : code ≡ (if is_nil s.accepted && not (is_nil s.errors) then 422 else 202)
    pub errors : reply.errors ≡ s.errors
    pub rejected : reply.rejected ≡ length reply.errors

  Means : Principal → L → R → L × R → ℕ → IngestReply → Type 0
  Means p l r last code reply = Ingested p l r last.1 code reply
