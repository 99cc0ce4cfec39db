-- ===== src/LogScanner/Filter.antt =====
-- src/log_scanner/filter.rs: the noise rules. The `regex` crate is a parameter: `escape`, and a
-- pattern with `is_match`.
use sentinalysis.Base.{
  Bool, List, Option, Text, [], any, codes, contains, false, if◌then◌else◌, is_nil, map, none, some,
  text_eq, true, ◌++◌, ◌∷◌,
}
use sentinalysis.LogScanner.Entry.{IpAddr, ParsedLogEntry, ip_eq}
use sentinalysis.Hub.Auth.Key.{Matcher}

pub record NoiseFilterConfig : Type 0 where
  pub excluded_ips : List IpAddr
  pub health_check_paths : List Text
  pub static_asset_extensions : List Text
  pub known_bot_user_agents : List Text

pub record NoiseFilter : Type 0 where
  pub excluded_ips : List IpAddr
  pub health_check_paths : List Text
  pub static_asset_pattern : Text
  pub bot_user_agents : List Text
  pub scanner_paths : Text

pub data FilterResult : Type 0 where
  keep : FilterResult
  exclude aggregate flag_security : Text → FilterResult

unfoldable pub extension_pattern : (Text → Text) → Text → Text
extension_pattern escape ext =
    if contains ext (codes ".") then escape ext else codes "\\." ++ escape ext

-- `join("|")`
abbrev pub join_bar : List Text → Text
join_bar [] = []
join_bar (t ∷ []) = t
join_bar (t ∷ u ∷ ts) = t ++ (codes "|" ++ join_bar (u ∷ ts))

unfoldable pub from_config : (Text → Text) → NoiseFilterConfig → NoiseFilter
unfolding extension_pattern
from_config escape config = record {
  excluded_ips = config.excluded_ips;
  health_check_paths = config.health_check_paths;
  static_asset_pattern =
      if is_nil config.static_asset_extensions
      then codes "$^"
      else codes "(?:"
        ++ (join_bar (map (extension_pattern escape) config.static_asset_extensions) ++ codes ")$");
  bot_user_agents = map escape config.known_bot_user_agents;
  scanner_paths =
      codes "(/wp-admin|/wp-login|/phpmyadmin|/\\.env|/\\.git|/admin\\.php|/xmlrpc\\.php)";
}

-- `is_some_and`, the test of an `if let` chain.
abbrev pub holds_on {ℓ} : {A : Type ℓ} → (A → Bool) → Option A → Bool
holds_on p none = false
holds_on p (some a) = p a

abbrev pub text_or_empty : Option Text → Text
text_or_empty none = []
text_or_empty (some t) = t

unfoldable pub evaluate : Matcher → NoiseFilter → ParsedLogEntry → FilterResult
unfolding text_eq
evaluate is_match filter entry =
    let ip = entry.metadata.client_ip in
    let path = entry.metadata.request_path in
    let ua = entry.metadata.user_agent in
    if holds_on (λ i. any (ip_eq i) filter.excluded_ips) ip
    then exclude (codes "excluded IP")
    else if holds_on (λ p. any (λ h. text_eq h p) filter.health_check_paths) path
    then aggregate (codes "health check")
    else if holds_on (is_match filter.scanner_paths) path
    then flag_security (codes "scanner path: " ++ text_or_empty path)
    else if holds_on (is_match filter.static_asset_pattern) path
    then aggregate (codes "static asset")
    else if holds_on (λ u. any (λ b. is_match b u) filter.bot_user_agents) ua
    then aggregate (codes "bot: " ++ text_or_empty ua)
    else keep

unfoldable pub should_store : FilterResult → Bool
should_store (exclude reason) = false
should_store _ = true

unfoldable pub is_security_flag : FilterResult → Bool
is_security_flag (flag_security reason) = true
is_security_flag _ = false
