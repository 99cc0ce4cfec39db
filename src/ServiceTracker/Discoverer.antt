-- ===== src/ServiceTracker/Discoverer.antt =====
-- src/service_tracker/discoverer.rs: the unit files in the configured search paths. What the file
-- system answers, and the parts of a path, are part of the configuration.
pub mod Catalogue
use sentinalysis.Base.{
  Bool, List, Option, Text, [], any, codes, false, if◌then◌else◌, none, not, some, text_eq, true,
  ◌++◌, ◌∷◌,
}
use sentinalysis.LogScanner.Discovery.{text_ltb}

-- The parts of a path that are UTF-8.
pub record PathBuf : Type 0 where
  pub path : Text
  pub extension : Option Text
  pub file_stem : Option Text
  pub parent : Option Text

-- A search path; its entries are `none` if `read_dir` fails, and lack those that fail.
pub record SearchPath : Type 0 where
  pub is_dir : Bool
  pub entries : Option (List PathBuf)

pub record SystemdService : Type 0 where
  pub name : Text
  pub unit_path : PathBuf
  pub unit_type : Text

abbrev pub unwrap_or_empty : Option Text → Text
unwrap_or_empty none = []
unwrap_or_empty (some s) = s

abbrev pub user_directories : List Text
user_directories =
    codes "/etc/systemd/system"
    ∷ codes "/etc/systemd/user"
    ∷ codes "/usr/local/lib/systemd/system"
    ∷ codes "/usr/local/lib/systemd/user"
    ∷ []

unfoldable pub is_user_created_service : PathBuf → Bool
unfolding text_eq
is_user_created_service path = any (text_eq (unwrap_or_empty path.parent)) user_directories

abbrev pub unit_type_of : PathBuf → Text
unfolding is_user_created_service
unit_type_of path = if is_user_created_service path then codes "user-created" else codes "system"

abbrev pub service_named : PathBuf → Option Text → Option SystemdService
unfolding is_user_created_service
service_named path none = none
service_named path (some name) =
    some (record { name = name; unit_path = path; unit_type = unit_type_of path })

abbrev pub with_extension : PathBuf → Option Text → Option SystemdService
unfolding text_eq is_user_created_service
with_extension path none = none
with_extension path (some extension) =
    if not (text_eq extension (codes "service")) then none else service_named path path.file_stem

unfoldable pub parse_service_file : PathBuf → Option SystemdService
unfolding text_eq is_user_created_service
parse_service_file path = with_extension path path.extension

abbrev pub pushed : List SystemdService → Option SystemdService → List SystemdService
pushed services none = services
pushed services (some service) = services ++ service ∷ []

unfoldable pub push_entries : List PathBuf → List SystemdService → List SystemdService
unfolding parse_service_file
push_entries [] services = services
push_entries (file_path ∷ entries) services =
    push_entries entries (pushed services (parse_service_file file_path))

abbrev pub push_read : Option (List PathBuf) → List SystemdService → List SystemdService
unfolding push_entries
push_read none services = services
push_read (some entries) services = push_entries entries services

unfoldable pub push_paths : List SearchPath → List SystemdService → List SystemdService
unfolding push_entries
push_paths [] services = services
push_paths (path ∷ paths) services =
    push_paths paths (if not path.is_dir then services else push_read path.entries services)

-- The stable sort by name, as an insertion sort.
unfoldable pub insert_by_name : SystemdService → List SystemdService → List SystemdService
unfolding text_ltb
insert_by_name x [] = x ∷ []
insert_by_name x (y ∷ ys) =
    let rest = insert_by_name x ys in if text_ltb y.name x.name then y ∷ rest else x ∷ y ∷ ys

unfoldable pub sort_by_name : List SystemdService → List SystemdService
unfolding insert_by_name
sort_by_name [] = []
sort_by_name (x ∷ xs) = insert_by_name x (sort_by_name xs)

-- `discover` never fails.
unfoldable pub discover : List SearchPath → List SystemdService
unfolding sort_by_name push_paths
discover discovery_paths = sort_by_name (push_paths discovery_paths [])
