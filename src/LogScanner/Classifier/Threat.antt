-- ===== src/LogScanner/Classifier/Threat.antt =====
-- src/log_scanner/classifier/mod.rs: threat levels and categories.
use sentinalysis.Base.{Bool, Text, codes, false, if◌then◌else◌, refl, text_eq, true, ℕ, ◌==◌, ◌≡◌}

pub data ThreatLevel : Type 0 where
  none_level low medium high critical_level : ThreatLevel

unfoldable pub threat_level_str : ThreatLevel → Text
threat_level_str none_level = codes "none"
threat_level_str low = codes "low"
threat_level_str medium = codes "medium"
threat_level_str high = codes "high"
threat_level_str critical_level = codes "critical"

unfoldable pub threat_level_from_db : Text → ThreatLevel
threat_level_from_db value =
    if text_eq value (codes "low")
    then low
    else if text_eq value (codes "medium")
    then medium
    else if text_eq value (codes "high")
    then high
    else if text_eq value (codes "critical")
    then critical_level
    else none_level

-- The derived order.
abbrev pub rank : ThreatLevel → ℕ
rank none_level = 0
rank low = 1
rank medium = 2
rank high = 3
rank critical_level = 4

pub data ThreatCategory : Type 0 where
  sql_injection xss path_traversal command_injection brute_force : ThreatCategory
  scanner sensitive_file tls_error suspicious_pattern : ThreatCategory

unfoldable pub category_str : ThreatCategory → Text
category_str sql_injection = codes "sql-injection"
category_str xss = codes "xss"
category_str path_traversal = codes "path-traversal"
category_str command_injection = codes "command-injection"
category_str brute_force = codes "brute-force"
category_str scanner = codes "scanner"
category_str sensitive_file = codes "sensitive-file"
category_str tls_error = codes "tls-error"
category_str suspicious_pattern = codes "suspicious-pattern"

unfoldable pub severity : ThreatCategory → ThreatLevel
severity command_injection = critical_level
severity sql_injection = high
severity xss = high
severity path_traversal = high
severity scanner = high
severity brute_force = medium
severity sensitive_file = medium
severity tls_error = low
severity suspicious_pattern = low

unfoldable pub is_strong : ThreatCategory → Bool
is_strong command_injection = true
is_strong sql_injection = true
is_strong scanner = true
is_strong _ = false

-- The position in the declaration, which tells categories apart.
abbrev pub category_index : ThreatCategory → ℕ
category_index sql_injection = 0
category_index xss = 1
category_index path_traversal = 2
category_index command_injection = 3
category_index brute_force = 4
category_index scanner = 5
category_index sensitive_file = 6
category_index tls_error = 7
category_index suspicious_pattern = 8

unfoldable pub category_eq : ThreatCategory → ThreatCategory → Bool
category_eq a b = category_index a == category_index b

-- A stored threat level reads back as itself.
pub threat_level_from_db-threat_level_str :
    (l : ThreatLevel) → threat_level_from_db (threat_level_str l) ≡ l
unfolding threat_level_from_db threat_level_str text_eq
threat_level_from_db-threat_level_str none_level = refl
threat_level_from_db-threat_level_str low = refl
threat_level_from_db-threat_level_str medium = refl
threat_level_from_db-threat_level_str high = refl
threat_level_from_db-threat_level_str critical_level = refl
