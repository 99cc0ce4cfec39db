-- ===== src/LogScanner/Discovery/Listing.antt =====
-- Which sources src/log_scanner/source_discovery.rs lists, and in which order.
use sentinalysis.Base.{Bool, List, Text, [], any, arith, false, map, refl, ◌++◌, ◌||◌, ◌≡◌}
use sentinalysis.Base.Dict.{mem_text}
use sentinalysis.LogScanner.Discovery.{SourceDiscovery, as_source, discover, found}
use sentinalysis.Tui.Data.{Source, system_log, vhost}
use sentinalysis.LogScanner.Discovery.Order.{IsAscending}
use sentinalysis.LogScanner.Discovery.Adds.{
  Adds, then-Adds, discover_directories-Adds, discover_files-Adds, directories_give, gives_vhost,
  gives_system_log, gives_file,
}

-- The sources are those of the virtual hosts and then those of the server, each list in strict
-- ascending order and of exactly the names that the file system gives.
pub record IsListing (s : SourceDiscovery) (sources : List Source) : Type 0 where
  pub vhosts : List Text
  pub system_logs : List Text
  pub listed : sources ≡ (map (as_source vhost) vhosts ++ map (as_source system_log) system_logs)
  pub vhosts_ascend : IsAscending vhosts
  pub system_logs_ascend : IsAscending system_logs
  pub are_vhosts : (k : Text) → mem_text k vhosts ≡ directories_give gives_vhost s.directories k
  pub are_system_logs :
      (k : Text)
      → mem_text k system_logs
        ≡ (directories_give gives_system_log s.directories k || any (λ e. gives_file e k) s.files)

found-Adds :
    (s : SourceDiscovery)
    → Adds
        (record { vhosts = []; system_logs = [] })
        (found s)
        (λ k. directories_give gives_vhost s.directories k || false)
        (λ k.
          directories_give gives_system_log s.directories k || any (λ e. gives_file e k) s.files)
unfolding found
found-Adds s =
    then-Adds _ _ _ _ _ _ _
      (discover_directories-Adds s.directories (record { vhosts = []; system_logs = [] }))
      (discover_files-Adds s.files _)

or_falses : (a b : Bool) → b ≡ ((a || false) || false) → b ≡ a
or_falses a b h = ground arith

or_false : (a b : Bool) → b ≡ (a || false) → b ≡ a
or_false a b h = ground arith

-- `discover` lists the virtual hosts and then the logs of the whole server, each in ascending order
-- without repetition. A virtual host is listed if and only if a directory that can be read, with a
-- valid pattern, has a file that matches the pattern, is no rotated log and is named after that
-- host. A log of the server is listed if and only if it is access.log and such a file names it, or
-- it is the name of a configured file that exists.
pub discover-IsListing : (s : SourceDiscovery) → IsListing s (discover s)
unfolding discover mem_text
discover-IsListing s =
    let a = found-Adds s in
    record {
      vhosts = (found s).vhosts;
      system_logs = (found s).system_logs;
      listed = refl;
      vhosts_ascend = a.vhosts_ascend tt;
      system_logs_ascend = a.system_logs_ascend tt;
      are_vhosts = λ k. or_falses _ _ (a.more_vhosts k);
      are_system_logs = λ k. or_false _ _ (a.more_system_logs k);
    }
