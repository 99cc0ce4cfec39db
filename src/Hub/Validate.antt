-- ===== src/Hub/Validate.antt =====
-- src/hub/validate.rs: the input checks that every ingestion path shares. A reason is a
-- constructor with what its message shows; the `regex` crate is a parameter.
pub mod Window
pub mod Message
use sentinalysis.Base.{
  Bool, List, Option, Text, [], all, any, codes, false, if◌then◌else◌, is_ascii_digit,
  is_ascii_lowercase, is_control, is_nil, leb, len, length, ltb, none, not, some, split_at_byte,
  suc, text_eq, true, zero, ℕ, ◌&&◌, ◌*◌, ◌++◌, ◌/◌, ◌==◌, ◌^◌, ◌||◌, ◌∷◌,
}
use sentinalysis.Base.Results.{Result, err, ok}
use sentinalysis.Base.Int.{leb_ℤ, ltb_ℤ, negsuc, pos, sub_ℕ, ℤ, ◌-ℤ◌}
use sentinalysis.Base.Dict.{mem_text}
use sentinalysis.Hub.Auth.Key.{Matcher}

abbrev pub max_payload_bytes : ℕ
max_payload_bytes = 4 * 1024

abbrev pub max_event_type_len : ℕ
max_event_type_len = 64

abbrev pub max_user_id_len : ℕ
max_user_id_len = 128

abbrev pub max_message_bytes : ℕ
max_message_bytes = 16 * 1024

abbrev pub max_events_per_request : ℕ
max_events_per_request = 500

abbrev pub max_lines_per_request : ℕ
max_lines_per_request = 1000

abbrev pub max_path_len : ℕ
max_path_len = 2048

abbrev pub levels : List Text
levels =
    codes "debug"
    ∷ codes "info"
    ∷ codes "warn"
    ∷ codes "error"
    ∷ codes "critical"
    ∷ codes "security"
    ∷ []

abbrev pub threat_levels : List Text
threat_levels = codes "none" ∷ codes "low" ∷ codes "medium" ∷ codes "high" ∷ codes "critical" ∷ []

abbrev pub max_threat_categories : ℕ
max_threat_categories = 16

abbrev pub min_limit : ℤ
min_limit = pos 1

abbrev pub max_limit : ℤ
max_limit = pos 200

abbrev pub max_offset : ℤ
max_offset = pos 100000

abbrev pub max_future_skew_secs : ℕ
max_future_skew_secs = 5 * 60

abbrev pub max_past_age_days : ℕ
max_past_age_days = 30

abbrev pub event_type_re : Text
event_type_re = codes "^[a-z0-9_.:-]{1,64}$"

abbrev pub app_name_re : Text
app_name_re = codes "^[a-z0-9._-]{1,64}$"

abbrev pub container_re : Text
container_re = codes "^[A-Za-z0-9._-]{1,64}$"

pub data Reason : Type 0 where
  bad_event_type not_in_allowlist bad_app_name bad_container bad_stream : Text → Reason
  bad_service_name bad_unit_type bad_level bad_threat_level bad_category : Text → Reason
  user_id_too_long user_id_control path_too_long path_control : Reason
  text_too_long text_control : Text → Reason
  too_many_categories bad_limit bad_offset : Reason
  in_future too_old : ℤ → Reason
  -- of the handlers that use the checks
  bad_status : ℤ → Reason
  negative_response_time no_service_identity payload_not_object payload_too_large : Reason
  not_finite bad_client_ip : Text → Reason

unfoldable pub event_type : Matcher → Text → Option (List Text) → Result Reason Unit
event_type is_match value allowlist =
    if not (is_match event_type_re value) then err (bad_event_type value) else elim allowlist [
      | some list ↦
          if not (is_nil list) && not (mem_text value list)
          then err (not_in_allowlist value)
          else ok tt
      | none ↦ ok tt
    ]

unfoldable pub app_name : Matcher → Text → Result Reason Unit
app_name is_match value =
    if not (is_match app_name_re value) then err (bad_app_name value) else ok tt

unfoldable pub user_id : Text → Result Reason Unit
user_id value =
    if ltb max_user_id_len (len value)
    then err user_id_too_long
    else if any is_control value
    then err user_id_control
    else ok tt

unfoldable pub container : Matcher → Text → Result Reason Unit
container is_match value =
    if not (is_match container_re value) then err (bad_container value) else ok tt

unfoldable pub stream : Text → Result Reason Unit
stream value =
    if not (text_eq value (codes "stdout")) && not (text_eq value (codes "stderr"))
    then err (bad_stream value)
    else ok tt

unfoldable pub service_name : Matcher → Text → Result Reason Unit
service_name is_match value =
    if not (is_match container_re value) then err (bad_service_name value) else ok tt

-- The characters of a token.
abbrev pub is_token_char : ℕ → Bool
is_token_char c = is_ascii_lowercase c || is_ascii_digit c || c == b'-'

unfoldable pub is_bad_token : Text → Bool
is_bad_token value =
    is_nil value || ltb max_event_type_len (len value) || not (all is_token_char value)

unfoldable pub unit_type : Text → Result Reason Unit
unfolding is_bad_token
unit_type value = if is_bad_token value then err (bad_unit_type value) else ok tt

unfoldable pub level : Text → Result Reason Unit
level value = if not (mem_text value levels) then err (bad_level value) else ok tt

unfoldable pub threat_level : Text → Result Reason Unit
threat_level value =
    if not (mem_text value threat_levels) then err (bad_threat_level value) else ok tt

unfoldable pub check_categories : List Text → Result Reason Unit
unfolding is_bad_token
check_categories [] = ok tt
check_categories (value ∷ values) =
    let rest = check_categories values in
    if is_bad_token value then err (bad_category value) else rest

unfoldable pub threat_categories : List Text → Result Reason Unit
unfolding check_categories
threat_categories values =
    if ltb max_threat_categories (length values)
    then err too_many_categories
    else check_categories values

-- `parse::<IpAddr>` is a parameter.
unfoldable pub client_ip : (Text → Bool) → Text → Result Reason Unit
client_ip parses_ip value = if parses_ip value then ok tt else err (bad_client_ip value)

unfoldable pub request_path : Text → Result Reason Unit
request_path value =
    if ltb max_path_len (len value)
    then err path_too_long
    else if any is_control value
    then err path_control
    else ok tt

unfoldable pub short_text : Text → Text → Result Reason Unit
short_text value name =
    if ltb max_user_id_len (len value)
    then err (text_too_long name)
    else if any is_control value
    then err (text_control name)
    else ok tt

abbrev pub neg_ℕ : ℕ → ℤ
neg_ℕ n = sub_ℕ 0 n

-- `TimeDelta::num_seconds`, which rounds towards zero, of nanoseconds.
abbrev pub num_seconds : ℤ → ℤ
num_seconds (pos n) = pos (n / 10 ^ 9)
num_seconds (negsuc n) = neg_ℕ (suc n / 10 ^ 9)

abbrev pub neg_ℤ : ℤ → ℤ
neg_ℤ z = pos 0 -ℤ z

unfoldable pub timestamp : ℤ → ℤ → Result Reason Unit
unfolding ◌-ℤ◌
timestamp ts now =
    let skew = num_seconds (ts -ℤ now) in
    let age = neg_ℤ skew in
    if ltb_ℤ (pos max_future_skew_secs) skew
    then err (in_future skew)
    else if ltb_ℤ (pos (max_past_age_days * 24 * 3600)) age
    then err (too_old age)
    else ok tt

-- `raw.strip_suffix('\n').unwrap_or(raw)`
unfoldable pub strip_newline : Text → Text
strip_newline [] = []
strip_newline (c ∷ []) = if c == 10 then [] else c ∷ []
strip_newline (c ∷ d ∷ cs) = c ∷ strip_newline (d ∷ cs)

abbrev pub is_some {ℓ} : {A : Type ℓ} → Option A → Bool
is_some none = false
is_some (some a) = true

unfoldable pub is_char_boundary : Text → ℕ → Bool
unfolding split_at_byte
is_char_boundary s n = is_some (split_at_byte s n)

-- The walk back from the cap.
unfoldable pub boundary_below : Text → ℕ → ℕ
unfolding is_char_boundary
boundary_below s zero = zero
boundary_below s (suc n) =
    let lower = boundary_below s n in if is_char_boundary s (suc n) then suc n else lower

abbrev pub front : Option (Text × Text) → Option Text
front none = none
front (some (a, b)) = some a

-- `format!("{}…", &s[..n])`, which panics on a slice off a boundary.
abbrev pub ellipsis : Option Text → Option Text
ellipsis none = none
ellipsis (some kept) = some (kept ++ codes "…")

unfoldable pub sanitize_message : Text → Option Text
unfolding strip_newline boundary_below split_at_byte
sanitize_message raw =
    let trimmed = strip_newline raw in
    if leb (len trimmed) max_message_bytes
    then some trimmed
    else ellipsis (front (split_at_byte trimmed (boundary_below trimmed max_message_bytes)))

unfoldable pub limit : ℤ → Result Reason ℤ
limit value =
    if not (leb_ℤ min_limit value && leb_ℤ value max_limit) then err bad_limit else ok value

unfoldable pub offset : ℤ → Result Reason ℤ
offset value =
    if not (leb_ℤ (pos 0) value && leb_ℤ value max_offset) then err bad_offset else ok value
