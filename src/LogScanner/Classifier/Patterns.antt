-- ===== src/LogScanner/Classifier/Patterns.antt =====
-- src/log_scanner/classifier/patterns.rs: the table of detection rules, in its order.
use sentinalysis.Base.{
  Bool, List, Option, Text, [], codes, contains, false, none, some, starts_with, text_eq, ◌++◌,
  ◌||◌, ◌∷◌,
}
use sentinalysis.LogScanner.Classifier.Threat.{
  ThreatCategory, brute_force, command_injection, path_traversal, scanner, sensitive_file,
  sql_injection, tls_error, xss,
}

pub data PatternScope : Type 0 where
  text path text_and_path user_agent path_prefix : PatternScope

pub record PatternRule : Type 0 where
  pub category : ThreatCategory
  pub scope : PatternScope
  pub pattern : Text

pub rule : ThreatCategory → PatternScope → Text → PatternRule
rule c s p = record { category = c; scope = s; pattern = p }

unfoldable pub command_injection_rules : List PatternRule
unfolding rule
command_injection_rules =
    rule command_injection text_and_path (codes ";cat ")
    ∷ rule command_injection text_and_path (codes ";ls ")
    ∷ rule command_injection text_and_path (codes ";whoami")
    ∷ rule command_injection text_and_path (codes ";id ")
    ∷ rule command_injection text_and_path (codes ";rm ")
    ∷ rule command_injection text_and_path (codes "|grep")
    ∷ rule command_injection text_and_path (codes "|cat ")
    ∷ rule command_injection text_and_path (codes "`whoami`")
    ∷ rule command_injection text_and_path (codes "`id`")
    ∷ rule command_injection text_and_path (codes "$(wget")
    ∷ rule command_injection text_and_path (codes "$(curl")
    ∷ rule command_injection text_and_path (codes "$(cat ")
    ∷ rule command_injection text_and_path (codes ";wget ")
    ∷ rule command_injection text_and_path (codes ";curl ")
    ∷ rule command_injection text_and_path (codes ";nc ")
    ∷ rule command_injection text_and_path (codes ";bash ")
    ∷ rule command_injection text_and_path (codes ";sh ")
    ∷ rule command_injection text_and_path (codes ";python ")
    ∷ rule command_injection text_and_path (codes ";perl ")
    ∷ rule command_injection text_and_path (codes ";ruby ")
    ∷ rule command_injection text_and_path (codes ";php ")
    ∷ []

unfoldable pub sql_injection_rules : List PatternRule
unfolding rule
sql_injection_rules =
    rule sql_injection text_and_path (codes "' or '")
    ∷ rule sql_injection text_and_path (codes "' or 1")
    ∷ rule sql_injection text_and_path (codes " or 1=1")
    ∷ rule sql_injection text_and_path (codes " or '1'='1")
    ∷ rule sql_injection text_and_path (codes "union select")
    ∷ rule sql_injection text_and_path (codes "union all select")
    ∷ rule sql_injection text_and_path (codes "drop table")
    ∷ rule sql_injection text_and_path (codes "drop database")
    ∷ rule sql_injection text_and_path (codes "insert into")
    ∷ rule sql_injection text_and_path (codes "delete from")
    ∷ rule sql_injection text_and_path (codes "update .* set")
    ∷ rule sql_injection text_and_path (codes "exec xp_")
    ∷ rule sql_injection text_and_path (codes "exec sp_")
    ∷ rule sql_injection text_and_path (codes "';--")
    ∷ rule sql_injection text_and_path (codes "'--")
    ∷ rule sql_injection text_and_path (codes "admin'--")
    ∷ rule sql_injection text_and_path (codes "1; drop")
    ∷ rule sql_injection text_and_path (codes "1 and 1=1")
    ∷ rule sql_injection text_and_path (codes "1' and '1'='1")
    ∷ []

unfoldable pub xss_rules : List PatternRule
unfolding rule
xss_rules =
    rule xss text_and_path (codes "<script")
    ∷ rule xss text_and_path (codes "javascript:")
    ∷ rule xss text_and_path (codes "onerror=")
    ∷ rule xss text_and_path (codes "onload=")
    ∷ rule xss text_and_path (codes "onclick=")
    ∷ rule xss text_and_path (codes "onmouseover=")
    ∷ rule xss text_and_path (codes "<img src=")
    ∷ rule xss text_and_path (codes "<svg ")
    ∷ rule xss text_and_path (codes "<iframe")
    ∷ rule xss text_and_path (codes "alert(")
    ∷ rule xss text_and_path (codes "document.cookie")
    ∷ rule xss text_and_path (codes "eval(")
    ∷ []

unfoldable pub path_traversal_rules : List PatternRule
unfolding rule
path_traversal_rules =
    rule path_traversal path (codes "../")
    ∷ rule path_traversal path (codes "..\\")
    ∷ rule path_traversal path (codes "..%2f")
    ∷ rule path_traversal path (codes "..%5c")
    ∷ rule path_traversal path (codes "%2e%2e/")
    ∷ rule path_traversal path (codes "....//")
    ∷ rule path_traversal path (codes "/etc/passwd")
    ∷ rule path_traversal path (codes "/etc/shadow")
    ∷ rule path_traversal path (codes "/proc/self")
    ∷ rule path_traversal path (codes "php://filter")
    ∷ rule path_traversal path (codes "php://input")
    ∷ rule path_traversal path (codes "file://")
    ∷ []

unfoldable pub brute_force_rules : List PatternRule
unfolding rule
brute_force_rules =
    rule brute_force text (codes "failed password")
    ∷ rule brute_force text (codes "authentication failure")
    ∷ rule brute_force text (codes "invalid user")
    ∷ rule brute_force text (codes "maximum authentication attempts")
    ∷ rule brute_force text (codes "too many authentication failures")
    ∷ rule brute_force text (codes "access denied")
    ∷ rule brute_force text (codes "login failed")
    ∷ []

unfoldable pub scanner_rules : List PatternRule
unfolding rule
scanner_rules =
    rule scanner user_agent (codes "sqlmap")
    ∷ rule scanner user_agent (codes "nikto")
    ∷ rule scanner user_agent (codes "nmap")
    ∷ rule scanner user_agent (codes "masscan")
    ∷ rule scanner user_agent (codes "hydra")
    ∷ rule scanner user_agent (codes "medusa")
    ∷ rule scanner user_agent (codes "burp suite")
    ∷ rule scanner user_agent (codes "dirbuster")
    ∷ rule scanner user_agent (codes "gobuster")
    ∷ rule scanner user_agent (codes "wpscan")
    ∷ rule scanner user_agent (codes "nuclei")
    ∷ rule scanner user_agent (codes "ffuf")
    ∷ rule scanner user_agent (codes "feroxbuster")
    ∷ rule scanner user_agent (codes "w3af")
    ∷ []

unfoldable pub sensitive_file_rules : List PatternRule
unfolding rule
sensitive_file_rules =
    rule sensitive_file path_prefix (codes "/.env")
    ∷ rule sensitive_file path_prefix (codes "/.git")
    ∷ rule sensitive_file path_prefix (codes "/.htaccess")
    ∷ rule sensitive_file path_prefix (codes "/.htpasswd")
    ∷ rule sensitive_file path_prefix (codes "/wp-config.php")
    ∷ rule sensitive_file path_prefix (codes "/config/database.yml")
    ∷ rule sensitive_file path_prefix (codes "/config/database.yaml")
    ∷ rule sensitive_file path_prefix (codes "/config/secrets.yml")
    ∷ rule sensitive_file path_prefix (codes "/.aws/credentials")
    ∷ rule sensitive_file path_prefix (codes "/.ssh/id_rsa")
    ∷ rule sensitive_file path_prefix (codes "/proc/self/environ")
    ∷ rule sensitive_file path_prefix (codes "/boot.ini")
    ∷ rule sensitive_file path_prefix (codes "/web.config")
    ∷ rule sensitive_file path_prefix (codes "/phpinfo.php")
    ∷ rule sensitive_file path_prefix (codes "/server-status")
    ∷ rule sensitive_file path_prefix (codes "/.svn")
    ∷ rule sensitive_file path_prefix (codes "/.ds_store")
    ∷ []

unfoldable pub tls_error_rules : List PatternRule
unfolding rule
tls_error_rules =
    rule tls_error text (codes "ssl_do_handshake")
    ∷ rule tls_error text (codes "ssl_error")
    ∷ rule tls_error text (codes "certificate verify failed")
    ∷ rule tls_error text (codes "tls alert")
    ∷ rule tls_error text (codes "handshake failure")
    ∷ []

unfoldable pub pattern_rules : List PatternRule
unfolding command_injection_rules sql_injection_rules xss_rules path_traversal_rules
    brute_force_rules scanner_rules sensitive_file_rules tls_error_rules
pattern_rules =
    command_injection_rules
    ++ (sql_injection_rules
        ++ (xss_rules
            ++ (path_traversal_rules
                ++ (brute_force_rules
                    ++ (scanner_rules ++ (sensitive_file_rules ++ (tls_error_rules)))))))

pub contains_in : Option Text → Text → Bool
contains_in none pattern = false
contains_in (some ua) pattern = contains ua pattern

pub matches_in : PatternScope → Text → Text → Text → Option Text → Bool
unfolding contains_in
matches_in text pattern t p ua = contains t pattern
matches_in path pattern t p ua = contains p pattern
matches_in text_and_path pattern t p ua = contains t pattern || contains p pattern
matches_in user_agent pattern t p ua = contains_in ua pattern
matches_in path_prefix pattern t p ua = text_eq p pattern || starts_with p pattern

-- Whether the pattern occurs in the lowercased fields.
unfoldable pub matches : PatternRule → Text → Text → Option Text → Bool
unfolding matches_in
matches r text_field path_field ua = matches_in r.scope r.pattern text_field path_field ua
