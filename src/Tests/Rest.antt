-- ===== src/Tests/Rest.antt =====
-- The theorems about the REST interface at concrete inputs.
use sentinalysis.Base.{List, Text, [], codes, none, refl, some, text_eq, true, ℕ, ◌∷◌, ◌≡◌, ◌⊎◌}
use sentinalysis.Base.Int.{pos}
use sentinalysis.Base.Results.{ok}
use sentinalysis.Hub.Validate.{Reason, payload_too_large}
use sentinalysis.Hub.Auth.Permission.{Principal, ingest_events, read_dashboard}
use sentinalysis.Hub.Auth.Cache.{new}
use sentinalysis.Hub.Rest.Auth.{HttpRequest, HttpResponse, Rest, answered, call}
use sentinalysis.Hub.Rest.Guard.{Served, Stopped, call-Served}
use sentinalysis.Hub.Rest.Events.{EventsState, IngestEvent, IngestReply, InsertAppEvent}
use sentinalysis.Hub.Rest.Read.{EventsQuery, ListEvents, get_app_events}
use sentinalysis.Hub.Rest.Rows.{Formats, events_response}
use sentinalysis.Hub.Rest.Queries.{Listed, get_app_events-Listed}
use sentinalysis.Tests.Ingest.{agent_world, some_key}

abbrev some_request : HttpRequest
some_request = record {
  x_api_key = some some_key;
  authorization = none;
  peer_addr = none;
  now = 5;
  stored_at = 6;
}

abbrev some_rest : Rest Unit ℕ
some_rest = record { cache = new; limiter = tt; inner = 3 }

abbrev some_handler : Principal → ℕ → ℕ × HttpResponse ℕ
some_handler p n = (4, answered 200 n)

call-Served_example :
    Served agent_world
      (λ l ip. (l, true))
      some_handler
      some_request
      some_rest
      (call agent_world (λ l ip. (l, true)) some_handler some_request some_rest)
    ⊎ Stopped agent_world
        (λ l ip. (l, true))
        some_handler
        some_request
        some_rest
        (call agent_world (λ l ip. (l, true)) some_handler some_request some_rest)
call-Served_example =
    call-Served agent_world (λ l ip. (l, true)) some_handler some_request some_rest

-- A payload is its size; a table is the list of its rows.
abbrev some_events_state : EventsState ℕ Unit (List (InsertAppEvent ℕ))
some_events_state = record {
  json = record { is_object = λ j. true; serialized_len = λ j. some j };
  is_match = λ pattern s. true;
  allowed_event_types = [];
  allow = λ l key. (l, true);
  insert_batch = λ t rows. (rows, ok 1);
}

abbrev some_app : Principal
some_app = record {
  key_id = codes "0123abcd";
  permissions = ingest_events ∷ [];
  agent_id = none;
  hostname = none;
  app_name = some (codes "shop");
}

abbrev event_of : ℕ → IngestEvent ℕ
event_of size = record {
  event_type = codes "cart_add";
  user_id = none;
  payload = size;
  timestamp = pos 5;
}

abbrev two_events : List (IngestEvent ℕ)
two_events = event_of 10 ∷ event_of 5000 ∷ []

abbrev some_reply : IngestReply
some_reply = record { accepted = 1; rejected = 1; errors = (1, payload_too_large) ∷ [] }

abbrev some_query : EventsQuery
some_query = record {
  app = none;
  event_type = none;
  range = some (codes "7d");
  limit = some (pos 10);
  offset = none;
}

abbrev a_viewer : Principal
a_viewer = record {
  key_id = codes "0123abce";
  permissions = read_dashboard ∷ [];
  agent_id = none;
  hostname = none;
  app_name = none;
}

abbrev plain_formats : Formats
plain_formats = record { to_rfc3339 = λ t. codes "t"; as_i64 = λ x. pos 0 }

-- The tables have no event.
abbrev no_events : ListEvents ℕ
no_events filter = ok ([], pos 0)

abbrev no_reason : Reason → Text
no_reason reason = codes "bad value"

got_events :
    get_app_events (λ pattern s. true) plain_formats no_reason no_events a_viewer some_query
    ≡ answered 200 (events_response plain_formats ([], pos 0))
unfolding get_app_events text_eq
got_events = refl

get_app_events-Listed_example :
    Listed
      (λ pattern s. true)
      plain_formats
      no_events
      a_viewer
      some_query
      (events_response plain_formats ([], pos 0))
get_app_events-Listed_example =
    get_app_events-Listed (λ pattern s. true) plain_formats no_reason no_events a_viewer some_query
      200 (events_response plain_formats ([], pos 0)) got_events
