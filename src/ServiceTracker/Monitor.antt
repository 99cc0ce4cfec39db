-- ===== src/ServiceTracker/Monitor.antt =====
-- src/service_tracker/monitor.rs: the status of a service from the output of systemctl. Running the
-- command, white space and the floats are parameters.
pub mod Restarts
use sentinalysis.Base.{
  Bool, List, Option, Text, [], codes, ends_with, if◌then◌else◌, is_nil, none, not, some, text_eq,
  ℕ, ◌&&◌, ◌++◌, ◌==◌, ◌^◌, ◌||◌, ◌∷◌,
}
use sentinalysis.Base.Dict.{Dict, insert, lookup}
use sentinalysis.Base.Results.{Result, err, ok}
use sentinalysis.LogScanner.Parser.{parse_unsigned}
use sentinalysis.LogScanner.Source.{strip_suffix}
use sentinalysis.LogScanner.Tailer.State.{lines}

pub record Output : Type 0 where
  pub success : Bool
  pub stdout : Text
  pub stderr : Text

-- The command's output or the error of starting it, `char::is_whitespace`, and `f64`.
pub record Env (F : Type 0) : Type 0 where
  pub output : List Text → Result Text Output
  pub is_whitespace : ℕ → Bool
  pub parse_f64 : Text → Option F
  pub of_u64 : ℕ → F
  pub as_u64 : F → ℕ
  pub times : F → F → F
  pub per : F → F → F

pub record ServiceStatus (F : Type 0) : Type 0 where
  pub name : Text
  pub active_state : Text
  pub sub_state : Text
  pub load_state : Text
  pub main_pid : Option ℕ
  pub restart_count : ℕ
  pub memory_current : Option ℕ
  pub cpu_usage_seconds : Option F

-- `split_once('=')`
abbrev pub cons_key : ℕ → Option (Text × Text) → Option (Text × Text)
cons_key c none = none
cons_key c (some (key, value)) = some (c ∷ key, value)

unfoldable pub split_once : Text → Option (Text × Text)
split_once [] = none
split_once (c ∷ cs) =
    let rest = split_once cs in if c == b'=' then some ([], cs) else cons_key c rest

abbrev pub value_or : Option Text → Text → Text
value_or none default = default
value_or (some value) default = value

-- `str::parse` to an unsigned integer below `bound`.
unfoldable pub parse_number : ℕ → Text → Option ℕ
unfolding parse_unsigned
parse_number bound [] = none
parse_number bound (c ∷ cs) =
    if c == b'+' then parse_unsigned bound cs else parse_unsigned bound (c ∷ cs)

unfoldable pub parse_pid : Option Text → Option ℕ
unfolding text_eq parse_number
parse_pid none = none
parse_pid (some v) = if is_nil v || text_eq v (codes "0") then none else parse_number (2 ^ 32) v

abbrev pub number_or : Option ℕ → ℕ → ℕ
number_or none default = default
number_or (some n) default = n

unfoldable pub parse_u32 : Option Text → ℕ → ℕ
unfolding parse_number
parse_u32 none default = default
parse_u32 (some v) default = number_or (parse_number (2 ^ 32) v) default

unfoldable pub unit_of : Text → Text
unfolding ends_with
unit_of service_name =
    if ends_with service_name (codes ".service")
    then service_name
    else service_name ++ codes ".service"

abbrev pub show_arguments : Text → List Text
unfolding unit_of
show_arguments service_name =
    codes "show"
    ∷ codes "--property=ActiveState,SubState,LoadState,MainPID,NRestart,MemoryCurrent,CPUUsageNSec"
    ∷ unit_of service_name
    ∷ []

module _ {F : Type 0} (env : Env F) where
  unfoldable pub trim_start : Text → Text
  trim_start [] = []
  trim_start (c ∷ cs) = let rest = trim_start cs in if env.is_whitespace c then rest else c ∷ cs

  unfoldable pub trim_back : Text → Text
  trim_back [] = []
  trim_back (c ∷ cs) =
      let rest = trim_back cs in if is_nil rest && env.is_whitespace c then [] else c ∷ rest

  abbrev pub trim : Text → Text
  unfolding trim_start trim_back
  trim s = trim_back (trim_start s)

  abbrev pub kilo : F
  kilo = env.of_u64 1024

  abbrev pub scaled : (F → F) → Option F → Option ℕ
  scaled scale none = none
  scaled scale (some n) = some (env.as_u64 (scale n))

  abbrev pub giga_or_raw : Text → Option Text → Option ℕ
  unfolding parse_number
  giga_or_raw v (some stripped) =
      scaled (λ n. env.times (env.times (env.times n kilo) kilo) kilo) (env.parse_f64 stripped)
  giga_or_raw v none = parse_number (2 ^ 64) v

  abbrev pub mega_or_less : Text → Option Text → Option ℕ
  unfolding parse_number strip_suffix
  mega_or_less v (some stripped) =
      scaled (λ n. env.times (env.times n kilo) kilo) (env.parse_f64 stripped)
  mega_or_less v none = giga_or_raw v (strip_suffix v (codes "G"))

  abbrev pub kilo_or_more : Text → Option Text → Option ℕ
  unfolding parse_number strip_suffix
  kilo_or_more v (some stripped) = scaled (λ n. env.times n kilo) (env.parse_f64 stripped)
  kilo_or_more v none = mega_or_less v (strip_suffix v (codes "M"))

  unfoldable pub parse_bytes : Option Text → Option ℕ
  unfolding text_eq parse_number strip_suffix trim_start trim_back
  parse_bytes none = none
  parse_bytes (some v) =
      if is_nil v || text_eq v (codes "0") || text_eq v (codes "inactive")
      then none
      else kilo_or_more (trim v) (strip_suffix (trim v) (codes "K"))

  abbrev pub seconds_of : Option ℕ → Option F
  seconds_of none = none
  seconds_of (some nanos) = some (env.per (env.of_u64 nanos) (env.of_u64 1000000000))

  unfoldable pub parse_cpu_usec : Option Text → Option F
  unfolding text_eq parse_number
  parse_cpu_usec none = none
  parse_cpu_usec (some v) =
      if is_nil v || text_eq v (codes "0") then none else seconds_of (parse_number (2 ^ 64) v)

  abbrev pub with_property : Dict Text → Option (Text × Text) → Dict Text
  unfolding insert trim_start trim_back
  with_property properties none = properties
  with_property properties (some (key, value)) = insert (trim key) (trim value) properties

  unfoldable pub add_properties : List Text → Dict Text → Dict Text
  unfolding insert trim_start trim_back split_once
  add_properties [] properties = properties
  add_properties (line ∷ rest) properties =
      add_properties rest (with_property properties (split_once line))

  abbrev pub properties_read : Text → Result Text Output → Result Text (Dict Text)
  unfolding add_properties lines
  properties_read unit (err e) =
      err (codes "failed to run systemctl show '" ++ unit ++ codes "': " ++ e)
  properties_read unit (ok output) =
      if not output.success
      then err (codes "systemctl show '" ++ unit ++ codes "' failed: " ++ output.stderr)
      else ok (add_properties (lines output.stdout) [])

  unfoldable pub get_systemctl_properties : Text → Result Text (Dict Text)
  unfolding unit_of add_properties lines
  get_systemctl_properties service_name =
      properties_read (unit_of service_name) (env.output (show_arguments service_name))

  abbrev pub status_of : Text → Dict Text → ServiceStatus F
  unfolding lookup parse_pid parse_u32 parse_bytes parse_cpu_usec
  status_of service_name properties = record {
    name = service_name;
    active_state = value_or (lookup (codes "ActiveState") properties) (codes "unknown");
    sub_state = value_or (lookup (codes "SubState") properties) (codes "unknown");
    load_state = value_or (lookup (codes "LoadState") properties) (codes "not-found");
    main_pid = parse_pid (lookup (codes "MainPID") properties);
    restart_count = parse_u32 (lookup (codes "NRestart") properties) 0;
    memory_current = parse_bytes (lookup (codes "MemoryCurrent") properties);
    cpu_usage_seconds = parse_cpu_usec (lookup (codes "CPUUsageNSec") properties);
  }

  abbrev pub status_read : Text → Result Text (Dict Text) → Result Text (ServiceStatus F)
  unfolding lookup parse_pid parse_u32 parse_bytes parse_cpu_usec
  status_read service_name (err e) = err e
  status_read service_name (ok properties) = ok (status_of service_name properties)

  unfoldable pub get_status : Text → Result Text (ServiceStatus F)
  unfolding get_systemctl_properties lookup parse_pid parse_u32 parse_bytes parse_cpu_usec
  get_status service_name = status_read service_name (get_systemctl_properties service_name)

  -- The characters before the first white space.
  unfoldable pub first_word : Text → Text
  first_word [] = []
  first_word (c ∷ cs) = let rest = first_word cs in if env.is_whitespace c then [] else c ∷ rest

  abbrev pub cons_word : Text → List Text → List Text
  cons_word [] services = services
  cons_word (c ∷ cs) services = trim (c ∷ cs) ∷ services

  -- The first of the words of each line that has one.
  unfoldable pub first_words : List Text → List Text
  unfolding first_word trim_start trim_back
  first_words [] = []
  first_words (line ∷ rest) = cons_word (first_word (trim_start line)) (first_words rest)

  abbrev pub services_read : Result Text Output → Result Text (List Text)
  unfolding first_words lines
  services_read (err e) = err (codes "failed to run systemctl list-units: " ++ e)
  services_read (ok output) =
      if not output.success
      then err (codes "systemctl list-units failed: " ++ output.stderr)
      else ok (first_words (lines output.stdout))

  unfoldable pub list_active_services : Result Text (List Text)
  unfolding first_words lines
  list_active_services = services_read (
      env.output (
        codes "list-units"
        ∷ codes "--type=service"
        ∷ codes "--state=active"
        ∷ codes "--no-pager"
        ∷ codes "--no-legend"
        ∷ []))
