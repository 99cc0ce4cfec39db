-- ===== src/Tests/Docker.antt =====
-- The theorems about container logs at concrete inputs.
use sentinalysis.Base.{
  List, [], codes, is_nil, len, none, not, take, drop, split_at_byte, get_range, text_eq, refl,
  some, ◌∷◌, ◌≡◌,
}
use sentinalysis.Base.Int.{pos}
use sentinalysis.Base.Results.{ok}
use sentinalysis.Base.Dict.{insert, lookup, mem_text}
use sentinalysis.Hub.Auth.Permission.{parse, principal_from_row}
use sentinalysis.Hub.Auth.Cache.{evict, get, insert_verified, purge}
use sentinalysis.Hub.Auth.Key.{parse_key_id}
use sentinalysis.Hub.Auth.Service.{authenticate, verify_hash}
use sentinalysis.Hub.Ingest.Handlers.{Call, Deps, ack, authorize}
use sentinalysis.Hub.Ingest.Logs.{accept_logs, send_logs}
use sentinalysis.Hub.Ingest.Wire.{LogsRequest}
use sentinalysis.LogScanner.Tailer.State.Lines.{IsLine, is_plain}
use sentinalysis.Agent.Docker.{Decoder, Round, Tailed, drain, event, start}
use sentinalysis.Agent.Docker.Growth.{
  Appended, IsWhole, all_added, follow, follow-parsed_once, parsed_once, quiet,
}
use sentinalysis.Agent.Docker.Refused.{drain-refused, sent_lines}
use sentinalysis.Tests.Ingest.{Table, agent_row, some_deps, some_key, some_service}

-- Every text is an envelope whose log is the text itself.
abbrev some_decoder : Decoder
some_decoder = record {
  from_str = λ s. some record { log = s; stream = []; time = none };
  parse_rfc3339 = λ s. none;
}

abbrev some_tail : Tailed
some_tail = record { name = codes "web"; log_path = codes "/c.log"; offset = 4 }

abbrev some_growth : List Appended
some_growth =
    record { now_ms = pos 5; added = codes "a" ∷ [] ∷ codes "b" ∷ [] }
    ∷ record { now_ms = pos 6; added = codes "c" ∷ [] }
    ∷ []

follow-parsed_once_example : follow some_decoder (codes "old\n") some_growth some_tail ≡ (
  record some_tail { offset = len (all_added (codes "old\n") some_growth) },
  parsed_once some_decoder some_growth,
)
follow-parsed_once_example =
    follow-parsed_once some_decoder (codes "old\n") some_growth some_tail
      (unfold IsWhole IsLine is_plain in ((refl, (refl, (refl, tt))), ((refl, tt), tt))) refl

-- A matcher that refuses the empty text.
abbrev named_deps : Deps Table Unit
named_deps = record some_deps {
  env = record some_deps.env { is_match = λ pattern s. not (is_nil s) };
}

abbrev some_rounds : List Round
some_rounds =
    event (
      record { path = codes "/c.log"; file = some (quiet (codes "old\nnew\n")); now_ms = pos 5 }
      ∷ [])
    ∷ []

abbrev drained_call : Call LogsRequest
drained_call = record {
  api_key = some some_key;
  remote_addr = none;
  now = 5;
  stored_at = 6;
  clock = λ n. pos 5;
  message = record {
    lines =
        sent_lines
          (take 9 (drop 0 (drain some_decoder some_rounds (start (some_tail ∷ []) 9)).sent));
    parsed_lines = [];
  };
}

admitted : (authorize named_deps drained_call some_service).1 ≡ ok (principal_from_row agent_row)
unfolding authorize authenticate parse_key_id get_range split_at_byte get lookup verify_hash
    insert_verified insert purge evict mem_text text_eq parse principal_from_row
admitted = refl

cleared : accept_logs (principal_from_row agent_row) drained_call.message ≡ ok (codes "vps1")
unfolding accept_logs principal_from_row parse text_eq sent_lines drain start quiet
cleared = refl

drain-refused_example :
    ((send_logs named_deps drained_call some_service).1 ≡ ok (ack 0))
    × ((send_logs named_deps drained_call some_service).0.repo ≡ [])
drain-refused_example =
    drain-refused named_deps some_decoder some_rounds (some_tail ∷ []) 9 0 9 drained_call
      some_service (principal_from_row agent_row) (codes "vps1") refl refl admitted cleared
