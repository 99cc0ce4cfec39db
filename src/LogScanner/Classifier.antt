-- ===== src/LogScanner/Classifier.antt =====
-- src/log_scanner/classifier/mod.rs: classification of one parsed entry. The Unicode lowercasing is
-- a parameter, and a confidence is a number of hundredths.
pub mod Threat
pub mod Patterns
pub mod Categories
pub mod Level
pub mod Count
use sentinalysis.Base.{
  Bool, List, Option, Text, [], any, codes, contains, false, if◌then◌else◌, is_nil, leb, length,
  min, none, not, some, true, ℕ, ◌&&◌, ◌++◌, ◌+◌, ◌==◌, ◌||◌, ◌∷◌,
}
use sentinalysis.LogScanner.Entry.{LogLevel, LogMetadata, ParsedLogEntry, error}
use sentinalysis.LogScanner.Classifier.Threat.{
  ThreatCategory, ThreatLevel, brute_force, category_eq, critical_level, high, is_strong, low,
  medium, none_level, rank, severity, suspicious_pattern,
}
use sentinalysis.LogScanner.Classifier.Patterns.{PatternRule, matches, pattern_rules}

pub record ThreatResult : Type 0 where
  pub threat_level : ThreatLevel
  pub categories : List ThreatCategory
  pub confidence : ℕ

-- `categories.contains(&category)`
unfoldable pub has : ThreatCategory → List ThreatCategory → Bool
has c [] = false
has c (x ∷ xs) = category_eq x c || has c xs

unfoldable pub add_category : List ThreatCategory → ThreatCategory → List ThreatCategory
unfolding has
add_category cs c = if not (has c cs) then cs ++ c ∷ [] else cs

unfoldable pub add_if : Bool → List ThreatCategory → ThreatCategory → List ThreatCategory
add_if fires cs c = if fires then add_category cs c else cs

-- The loop over the table.
unfoldable pub run_rules :
    List PatternRule → Text → Text → Option Text → List ThreatCategory → List ThreatCategory
run_rules [] t p ua cs = cs
run_rules (r ∷ rs) t p ua cs = run_rules rs t p ua (add_if (matches r t p ua) cs r.category)

abbrev pub is_error : LogLevel → Bool
is_error error = true
is_error _ = false

unfoldable pub brute_force_fires : Text → ParsedLogEntry → Bool
brute_force_fires t entry = is_error entry.level && contains t (codes "password")

unfoldable pub suspicious_paths : List Text
suspicious_paths =
    codes "/admin"
    ∷ codes "/wp-admin"
    ∷ codes "/phpmyadmin"
    ∷ codes "/manager"
    ∷ codes "/console"
    ∷ codes "/config"
    ∷ codes "/.env"
    ∷ codes "/backup"
    ∷ []

abbrev pub is_denied : Option ℕ → Bool
is_denied none = false
is_denied (some status) = status == 403 || status == 404

unfoldable pub error_response_fires : LogMetadata → Text → Bool
error_response_fires m p = is_denied m.status_code && any (contains p) suspicious_paths

unfoldable pub calculate_threat_level : List ThreatCategory → ThreatLevel
unfolding severity
calculate_threat_level cs =
    let has_critical = any (λ c. rank (severity c) == rank critical_level) cs in
    let has_high = any (λ c. leb (rank high) (rank (severity c))) cs in
    let has_medium = any (λ c. leb (rank medium) (rank (severity c))) cs in
    let category_count = length cs in
    if has_critical || (has_high && leb 2 category_count)
    then critical_level
    else if has_high
    then high
    else if has_medium || leb 2 category_count
    then medium
    else if not (is_nil cs)
    then low
    else none_level

abbrev pub base_confidence : ℕ → ℕ
base_confidence n =
    if n == 1 then 70 else if n == 2 then 85 else if leb 3 n && leb n 4 then 95 else 100

unfoldable pub calculate_confidence : List ThreatCategory → ℕ
unfolding is_strong
calculate_confidence cs =
    let base = base_confidence (length cs) in if any is_strong cs then min (base + 10) 100 else base

abbrev pub or_empty : Option Text → Text
or_empty none = []
or_empty (some t) = t

abbrev pub lowered : (Text → Text) → Option Text → Option Text
lowered to_lowercase none = none
lowered to_lowercase (some t) = some (to_lowercase t)

-- The lowercased inputs of the rules.
abbrev pub text_of : (Text → Text) → ParsedLogEntry → Text
text_of to_lowercase entry = to_lowercase (entry.message ++ (codes " " ++ entry.raw))

abbrev pub path_of : (Text → Text) → ParsedLogEntry → Text
path_of to_lowercase entry = or_empty (lowered to_lowercase entry.metadata.request_path)

unfoldable pub classify_categories : (Text → Text) → ParsedLogEntry → List ThreatCategory
classify_categories to_lowercase entry =
    let t = text_of to_lowercase entry in
    let p = path_of to_lowercase entry in
    let ua = lowered to_lowercase entry.metadata.user_agent in
    let matched = run_rules pattern_rules t p ua [] in
    let guessed = add_if (brute_force_fires t entry) matched brute_force in
    add_if (error_response_fires entry.metadata p) guessed suspicious_pattern

unfoldable pub classify : (Text → Text) → ParsedLogEntry → ThreatResult
classify to_lowercase entry =
    let cs = classify_categories to_lowercase entry in
    if is_nil cs
    then record { threat_level = none_level; categories = cs; confidence = 0 }
    else record {
      threat_level = calculate_threat_level cs;
      categories = cs;
      confidence = calculate_confidence cs;
    }
