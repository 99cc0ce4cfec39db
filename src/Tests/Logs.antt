-- ===== src/Tests/Logs.antt =====
-- The theorems about the agent's forwarding of rows at concrete inputs.
use sentinalysis.Base.{[], arith, codes, none, refl, some, text_eq, true, ◌+◌, ◌∷◌, ◌≡◌}
use sentinalysis.Base.Dict.{mem_text}
use sentinalysis.Base.Int.{pos, ◌-ℤ◌}
use sentinalysis.Base.Results.{ok}
use sentinalysis.Hub.Validate.{
  level, request_path, service_name, short_text, strip_newline, threat_categories, threat_level,
  timestamp, unit_type,
}
use sentinalysis.Hub.Ingest.Check.{Env, validate_parsed_entry}
use sentinalysis.LogScanner.Entry.{InsertLogEntry}
use sentinalysis.LogScanner.Pipeline.Row.{IsSendable}
use sentinalysis.Agent.Logs.{
  AgentServiceResolver, ServiceMeta, entry_to_proto, meta_of, new_resolver,
}
use sentinalysis.Agent.Logs.Identity.{
  IsValid, new_resolver-IsValid, resolve_all, resolve_all-IsValid,
}
use sentinalysis.Agent.Logs.RoundTrip.{Deliverable, delivered, validate_parsed_entry-entry_to_proto}

abbrev shop_meta : ServiceMeta
shop_meta = record {
  name = codes "shop";
  unit_type = codes "nginx-vhost";
  virtual_host = some (codes "shop");
}

resolve_all-IsValid_example :
    IsValid (λ n. n + 3) (resolve_all (λ n. n + 3) (shop_meta ∷ shop_meta ∷ []) new_resolver)
resolve_all-IsValid_example =
    resolve_all-IsValid (λ n. n + 3) (shop_meta ∷ shop_meta ∷ []) new_resolver
      (λ n m h. omega (arith, h)) (new_resolver-IsValid (λ n. n + 3))

abbrev some_env : Env
some_env = record {
  is_match = λ pattern s. true;
  from_millis = λ ms. some (pos 7_000_000);
  parses_ip = λ s. true;
}

abbrev some_row : InsertLogEntry
some_row = record {
  service_id = some 3;
  timestamp = pos 7_000_001;
  level = codes "info";
  message = codes "GET /a 200";
  raw_line = none;
  client_ip = none;
  request_path = some (codes "/a");
  status_code = some (pos 200);
  response_time_ms = none;
  is_noise = true;
  noise_reason = some (codes "health");
  threat_level = codes "none";
  threat_categories = [];
  source_host = none;
}

abbrev some_resolver : AgentServiceResolver
some_resolver = record { by_name = []; by_id = (3, shop_meta) ∷ []; drawn = 1 }

known : meta_of some_resolver 3 ≡ some shop_meta
unfolding meta_of
known = refl

some_row-IsSendable : IsSendable some_row
unfolding level threat_level threat_categories mem_text text_eq
some_row-IsSendable = record {
  level_ok = refl;
  threat_level_ok = refl;
  categories_ok = refl;
  noise_hides = λ noise. refl;
  noise_explained = refl;
}

some_row-Deliverable : Deliverable some_env (pos 5) some_row shop_meta
unfolding timestamp request_path short_text service_name unit_type strip_newline ◌-ℤ◌
some_row-Deliverable = record {
  in_range = refl;
  in_window = refl;
  message_clean = record { no_newline = refl; fits = omega arith };
  raw_line_clean = tt;
  ip_ok = refl;
  path_ok = refl;
  reason_ok = refl;
  status_fits = omega arith;
  time_fits = refl;
  named = refl;
  name_ok = refl;
  unit_named = refl;
  unit_ok = refl;
  vhost_ok = refl;
}

validate_parsed_entry-entry_to_proto_example :
    validate_parsed_entry some_env (pos 5) (codes "vps1") (entry_to_proto some_resolver some_row)
    ≡ ok (delivered (codes "vps1") some_row shop_meta)
validate_parsed_entry-entry_to_proto_example =
    validate_parsed_entry-entry_to_proto some_env (pos 5) some_row shop_meta (codes "vps1")
      some_resolver 3 refl known some_row-IsSendable some_row-Deliverable
