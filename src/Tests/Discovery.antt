-- ===== src/Tests/Discovery.antt =====
-- The theorem on the discovery of sources at a concrete configuration.
use sentinalysis.Base.{[], codes, refl, some, text_eq, true, false, ◌∷◌, ◌≡◌, ends_with}
use sentinalysis.Tui.Data.{system_log, vhost}
use sentinalysis.LogScanner.Source.{is_rotated_log, vhost_from_file_path}
use sentinalysis.LogScanner.Discovery.{
  LogDirectoryConfig, SourceDiscovery, add_entries, as_source, discover, discover_directories,
  discover_directory, discover_files, insert_set, text_ltb,
}
use sentinalysis.LogScanner.Discovery.Listing.{IsListing, discover-IsListing}

abbrev nginx_directory : LogDirectoryConfig
unfolding ends_with
nginx_directory = record {
  entries = some (
      record { file_name = some (codes "b.io-access.log"); is_file = true }
      ∷ record { file_name = some (codes "a.io-access.log.1"); is_file = true }
      ∷ record { file_name = some (codes "access.log"); is_file = true }
      ∷ record { file_name = some (codes "a.io-access.log"); is_file = true }
      ∷ record { file_name = some (codes "old-access.log"); is_file = false }
      ∷ []);
  pattern = some (λ n. true);
}

abbrev some_discovery : SourceDiscovery
some_discovery = record {
  directories = nginx_directory ∷ nginx_directory ∷ [];
  files = record { file_name = some (codes "auth.log"); is_file = true } ∷ [];
}

some_discovery_sources : discover some_discovery ≡ (
    as_source vhost (codes "a.io")
    ∷ as_source vhost (codes "b.io")
    ∷ as_source system_log (codes "access.log")
    ∷ as_source system_log (codes "auth.log")
    ∷ [])
unfolding discover discover_files discover_directories discover_directory add_entries insert_set
    text_ltb text_eq is_rotated_log vhost_from_file_path
some_discovery_sources = refl

discover-IsListing_example : IsListing some_discovery (discover some_discovery)
discover-IsListing_example = discover-IsListing some_discovery
