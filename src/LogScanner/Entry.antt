-- ===== src/LogScanner/Entry.antt =====
-- src/log_scanner/parser/mod.rs and src/db/models.rs: a parsed log entry, and the row that is stored.
use sentinalysis.Base.{
  Bool, List, Option, Text, codes, false, if◌then◌else◌, refl, text_eq, ℕ, ◌==◌, ◌≡◌,
}
use sentinalysis.Base.Int.{ℤ}

pub data LogLevel : Type 0 where
  debug info warn error critical security : LogLevel

unfoldable pub level_str : LogLevel → Text
level_str debug = codes "debug"
level_str info = codes "info"
level_str warn = codes "warn"
level_str error = codes "error"
level_str critical = codes "critical"
level_str security = codes "security"

unfoldable pub level_from_db : Text → LogLevel
level_from_db value =
    if text_eq value (codes "debug")
    then debug
    else if text_eq value (codes "warn")
    then warn
    else if text_eq value (codes "error")
    then error
    else if text_eq value (codes "critical")
    then critical
    else if text_eq value (codes "security")
    then security
    else info

-- `std::net::IpAddr`, as its number.
pub data IpAddr : Type 0 where
  v4 v6 : ℕ → IpAddr

abbrev pub ip_eq : IpAddr → IpAddr → Bool
ip_eq (v4 a) (v4 b) = a == b
ip_eq (v6 a) (v6 b) = a == b
ip_eq _ _ = false

pub record LogMetadata : Type 0 where
  pub client_ip : Option IpAddr
  pub request_method : Option Text
  pub request_path : Option Text
  pub status_code : Option ℕ
  pub bytes_sent : Option ℕ
  pub response_time_ms : Option ℕ
  pub user_agent : Option Text
  pub referer : Option Text
  pub virtual_host : Option Text
  pub upstream_service : Option Text

-- A `DateTime<Utc>` is its count of nanoseconds since the epoch.
pub record ParsedLogEntry : Type 0 where
  pub timestamp : ℤ
  pub source_name : Text
  pub level : LogLevel
  pub message : Text
  pub raw : Text
  pub metadata : LogMetadata

-- An id of a row, a `Uuid`, is a number here.
pub record InsertLogEntry : Type 0 where
  pub service_id : Option ℕ
  pub timestamp : ℤ
  pub level : Text
  pub message : Text
  pub raw_line : Option Text
  pub client_ip : Option Text
  pub request_path : Option Text
  pub status_code : Option ℤ
  pub response_time_ms : Option ℤ
  pub is_noise : Bool
  pub noise_reason : Option Text
  pub threat_level : Text
  pub threat_categories : List Text
  pub source_host : Option Text

-- A stored level reads back as itself.
pub level_from_db-level_str : (l : LogLevel) → level_from_db (level_str l) ≡ l
unfolding level_from_db level_str text_eq
level_from_db-level_str debug = refl
level_from_db-level_str info = refl
level_from_db-level_str warn = refl
level_from_db-level_str error = refl
level_from_db-level_str critical = refl
level_from_db-level_str security = refl
