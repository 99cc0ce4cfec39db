-- ===== src/Tests/Services.antt =====
-- The theorem on the units of systemd at concrete search paths.
use sentinalysis.Base.{List, [], codes, none, some, refl, true, text_eq, ◌∷◌, ◌≡◌, map}
use sentinalysis.LogScanner.Discovery.{text_ltb}
use sentinalysis.ServiceTracker.Discoverer.{
  SearchPath, discover, insert_by_name, is_user_created_service, parse_service_file, push_entries,
  push_paths, sort_by_name,
}

abbrev search_paths : List SearchPath
search_paths =
    record {
      is_dir = true;
      entries = some (
          record {
            path = codes "/etc/systemd/system/web.service";
            extension = some (codes "service");
            file_stem = some (codes "web");
            parent = some (codes "/etc/systemd/system");
          }
          ∷ record {
            path = codes "/etc/systemd/system/app.service";
            extension = some (codes "service");
            file_stem = some (codes "app");
            parent = some (codes "/etc/systemd/system");
          }
          ∷ record {
            path = codes "/etc/systemd/system/app.timer";
            extension = some (codes "timer");
            file_stem = some (codes "app");
            parent = some (codes "/etc/systemd/system");
          }
          ∷ []);
    }
    ∷ record { is_dir = true; entries = none }
    ∷ []

search_paths_names : map (λ s. s.name) (discover search_paths) ≡ (codes "app" ∷ codes "web" ∷ [])
unfolding discover push_paths push_entries parse_service_file is_user_created_service sort_by_name
    insert_by_name text_ltb text_eq
search_paths_names = refl
