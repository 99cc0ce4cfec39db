-- ===== src/LogScanner/Discovery.antt =====
-- src/log_scanner/source_discovery.rs: the sources of the configured targets. What the file system
-- and the glob crate answer is part of the configuration.
pub mod Order
pub mod Adds
pub mod Listing
use sentinalysis.Base.{
  Bool, List, Option, Text, [], codes, false, if◌then◌else◌, ltb, map, none, not, some, text_eq,
  true, ℕ, ◌&&◌, ◌++◌, ◌==◌, ◌||◌, ◌∷◌,
}
use sentinalysis.LogScanner.Source.{is_rotated_log, vhost_from_file_path}
use sentinalysis.Tui.Data.{Source, SourceKind, system_log, vhost}

-- The order of texts, which is that of their code points.
unfoldable pub text_ltb : Text → Text → Bool
text_ltb s [] = false
text_ltb [] (d ∷ t) = true
text_ltb (c ∷ s) (d ∷ t) = ltb c d || c == d && text_ltb s t

-- A `BTreeSet<String>` is the list of its elements in order.
unfoldable pub insert_set : Text → List Text → List Text
unfolding text_eq text_ltb
insert_set x [] = x ∷ []
insert_set x (y ∷ ys) =
    let rest = insert_set x ys in
    if text_eq x y then y ∷ ys else if text_ltb x y then x ∷ y ∷ ys else y ∷ rest

-- A path: its file name, if that is UTF-8, and whether it is a file.
pub record PathEntry : Type 0 where
  pub file_name : Option Text
  pub is_file : Bool

-- `read_dir` without the entries that fail, and the compiled pattern, `none` if it is invalid.
pub record LogDirectoryConfig : Type 0 where
  pub entries : Option (List PathEntry)
  pub pattern : Option (Text → Bool)

pub record SourceDiscovery : Type 0 where
  pub directories : List LogDirectoryConfig
  pub files : List PathEntry

-- The two sets that `discover` fills.
pub record Found : Type 0 where
  pub vhosts : List Text
  pub system_logs : List Text

abbrev pub access_log : Text
access_log = codes "access.log"

abbrev pub add_source : Text → Option Text → Found → Found
unfolding insert_set text_eq
add_source file_name (some name) f = record f { vhosts = insert_set name f.vhosts }
add_source file_name none f =
    if text_eq file_name access_log
    then record f { system_logs = insert_set access_log f.system_logs }
    else f

abbrev pub add_named : (Text → Bool) → Option Text → Found → Found
unfolding insert_set is_rotated_log vhost_from_file_path text_eq
add_named matches none f = f
add_named matches (some file_name) f =
    if not (matches file_name) || is_rotated_log file_name
    then f
    else add_source file_name (vhost_from_file_path (some file_name)) f

unfoldable pub add_entries : (Text → Bool) → List PathEntry → Found → Found
unfolding insert_set is_rotated_log vhost_from_file_path text_eq
add_entries matches [] f = f
add_entries matches (e ∷ es) f =
    add_entries matches es (if not e.is_file then f else add_named matches e.file_name f)

abbrev pub matching_entries : Option (Text → Bool) → List PathEntry → Found → Found
unfolding add_entries
matching_entries none es f = f
matching_entries (some matches) es f = add_entries matches es f

abbrev pub read_entries : LogDirectoryConfig → Option (List PathEntry) → Found → Found
unfolding add_entries
read_entries dir none f = f
read_entries dir (some es) f = matching_entries dir.pattern es f

unfoldable pub discover_directory : LogDirectoryConfig → Found → Found
unfolding add_entries
discover_directory dir f = read_entries dir dir.entries f

unfoldable pub discover_directories : List LogDirectoryConfig → Found → Found
unfolding discover_directory
discover_directories [] f = f
discover_directories (dir ∷ dirs) f = discover_directories dirs (discover_directory dir f)

abbrev pub add_file : Option Text → Found → Found
unfolding insert_set
add_file none f = f
add_file (some name) f = record f { system_logs = insert_set name f.system_logs }

unfoldable pub discover_files : List PathEntry → Found → Found
unfolding insert_set
discover_files [] f = f
discover_files (e ∷ es) f = discover_files es (if e.is_file then add_file e.file_name f else f)

abbrev pub found : SourceDiscovery → Found
unfolding discover_files discover_directories
found s =
    discover_files s.files
      (discover_directories s.directories (record { vhosts = []; system_logs = [] }))

abbrev pub as_source : SourceKind → Text → Source
as_source kind name = record { kind = kind; name = name }

unfoldable pub discover : SourceDiscovery → List Source
unfolding discover_files discover_directories
discover s =
    map (as_source vhost) (found s).vhosts ++ map (as_source system_log) (found s).system_logs
