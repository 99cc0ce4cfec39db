-- ===== src/LogScanner/Discovery/Adds.antt =====
-- What each step of the discovery in source_discovery.rs adds to the sets.
use sentinalysis.Base.{
  Bool, Bool-cases, List, Option, Text, [], any, arith, false, if◌then◌else◌, inl, inr, none, not,
  refl, some, text_eq, true, ◌&&◌, ◌||◌, ◌∷◌, ◌≡◌,
}
use sentinalysis.Base.Dict.{mem_text}
use sentinalysis.LogScanner.Source.{is_rotated_log, vhost_from_file_path}
use sentinalysis.LogScanner.Discovery.{
  Found, LogDirectoryConfig, PathEntry, access_log, add_entries, add_file, add_named, add_source,
  discover_directories, discover_directory, discover_files, insert_set, matching_entries,
  read_entries,
}
use sentinalysis.LogScanner.Discovery.Order.{
  IsAscending, IsAscending-insert_set, mem_text-insert_set,
}

abbrev pub holds_of : (Text → Bool) → Option Text → Bool
holds_of p none = false
holds_of p (some s) = p s

abbrev pub is_none : Option Text → Bool
is_none none = true
is_none (some s) = false

abbrev pub is_watched : (Text → Bool) → Text → Bool
is_watched matches n = matches n && not (is_rotated_log n)

-- The file of this entry is a log of the virtual host `k`.
abbrev pub gives_vhost : (Text → Bool) → PathEntry → Text → Bool
gives_vhost matches e k =
    e.is_file
    && holds_of
        (λ n. is_watched matches n && holds_of (λ v. text_eq v k) (vhost_from_file_path (some n)))
        e.file_name

-- The file of this entry is the log `k` of the whole server.
abbrev pub gives_system_log : (Text → Bool) → PathEntry → Text → Bool
gives_system_log matches e k =
    e.is_file
    && holds_of
        (λ n.
          is_watched matches n
          && is_none (vhost_from_file_path (some n))
          && text_eq n access_log
          && text_eq access_log k)
        e.file_name

abbrev pub entries_give :
    ((Text → Bool) → PathEntry → Text → Bool) → Option (Text → Bool) → List PathEntry → Text → Bool
entries_give gives none es k = false
entries_give gives (some matches) es k = any (λ e. gives matches e k) es

abbrev pub dir_gives :
    ((Text → Bool) → PathEntry → Text → Bool)
    → Option (Text → Bool)
    → Option (List PathEntry)
    → Text
    → Bool
dir_gives gives pattern none k = false
dir_gives gives pattern (some es) k = entries_give gives pattern es k

-- Some directory that can be read has such a file under its pattern.
abbrev pub directories_give :
    ((Text → Bool) → PathEntry → Text → Bool) → List LogDirectoryConfig → Text → Bool
directories_give gives dirs k = any (λ d. dir_gives gives d.pattern d.entries k) dirs

-- The explicit file of this entry exists and is named `k`.
abbrev pub gives_file : PathEntry → Text → Bool
gives_file e k = e.is_file && holds_of (λ n. text_eq n k) e.file_name

-- What a step adds to the two sets, which stay in order.
pub record Adds (f g : Found) (vhosts system_logs : Text → Bool) : Type 0 where
  pub more_vhosts : (k : Text) → mem_text k g.vhosts ≡ (vhosts k || mem_text k f.vhosts)
  pub more_system_logs :
      (k : Text) → mem_text k g.system_logs ≡ (system_logs k || mem_text k f.system_logs)
  pub vhosts_ascend : IsAscending f.vhosts → IsAscending g.vhosts
  pub system_logs_ascend : IsAscending f.system_logs → IsAscending g.system_logs

nothing-Adds : (f : Found) → Adds f f (λ k. false) (λ k. false)
nothing-Adds f = record {
  more_vhosts = λ k. refl;
  more_system_logs = λ k. refl;
  vhosts_ascend = λ h. h;
  system_logs_ascend = λ h. h;
}

or_both : (a b c x y : Bool) → y ≡ (b || x) → x ≡ (a || c) → y ≡ ((a || b) || c)
or_both a b c x y h k = ground arith

pub then-Adds :
    (f g h : Found) (v s w t : Text → Bool)
    → Adds f g v s
    → Adds g h w t
    → Adds f h (λ k. v k || w k) (λ k. s k || t k)
then-Adds f g h v s w t a b = record {
  more_vhosts = λ k. or_both _ _ _ _ _ (b.more_vhosts k) (a.more_vhosts k);
  more_system_logs = λ k. or_both _ _ _ _ _ (b.more_system_logs k) (a.more_system_logs k);
  vhosts_ascend = λ i. b.vhosts_ascend (a.vhosts_ascend i);
  system_logs_ascend = λ i. b.system_logs_ascend (a.system_logs_ascend i);
}

vhost-Adds :
    (f : Found) (name : Text)
    → Adds f (record f { vhosts = insert_set name f.vhosts }) (text_eq name) (λ k. false)
vhost-Adds f name = record {
  more_vhosts = λ k. mem_text-insert_set k name f.vhosts;
  more_system_logs = λ k. refl;
  vhosts_ascend = IsAscending-insert_set name f.vhosts;
  system_logs_ascend = λ h. h;
}

system_log-Adds :
    (f : Found) (name : Text)
    → Adds f (record f { system_logs = insert_set name f.system_logs }) (λ k. false) (text_eq name)
system_log-Adds f name = record {
  more_vhosts = λ k. refl;
  more_system_logs = λ k. mem_text-insert_set k name f.system_logs;
  vhosts_ascend = λ h. h;
  system_logs_ascend = IsAscending-insert_set name f.system_logs;
}

add_source-Adds :
    (f : Found) (n : Text) (v : Option Text)
    → Adds f
        (add_source n v f)
        (λ k. holds_of (λ s. text_eq s k) v)
        (λ k. is_none v && text_eq n access_log && text_eq access_log k)
unfolding add_source
add_source-Adds f n (some v) = vhost-Adds f v
add_source-Adds f n none = elim (Bool-cases (text_eq n access_log)) [
  | inl e ↦ rw e (system_log-Adds f access_log)
  | inr e ↦ rw e (nothing-Adds f)
]

add_named-Adds :
    (matches : Text → Bool) (f : Found) (file_name : Option Text)
    → Adds f
        (add_named matches file_name f)
        (λ k.
          holds_of
            (λ n.
              is_watched matches n && holds_of (λ v. text_eq v k) (vhost_from_file_path (some n)))
            file_name)
        (λ k.
          holds_of
            (λ n.
              is_watched matches n
              && is_none (vhost_from_file_path (some n))
              && text_eq n access_log
              && text_eq access_log k)
            file_name)
unfolding add_named
add_named-Adds matches f none = nothing-Adds f
add_named-Adds matches f (some n) = elim (Bool-cases (matches n)) [
  | inr m ↦ rw m (nothing-Adds f)
  | inl m ↦ elim (Bool-cases (is_rotated_log n)) [
    | inl r ↦ rw (m, r) (nothing-Adds f)
    | inr r ↦ rw (m, r) (add_source-Adds f n (vhost_from_file_path (some n)))
  ]
]

add_entries-Adds :
    (matches : Text → Bool) (es : List PathEntry) (f : Found)
    → Adds f
        (add_entries matches es f)
        (λ k. any (λ e. gives_vhost matches e k) es)
        (λ k. any (λ e. gives_system_log matches e k) es)
unfolding add_entries
add_entries-Adds matches [] f = nothing-Adds f
add_entries-Adds matches (e ∷ es) f = elim (Bool-cases e.is_file) [
  | inl b ↦ rw b (
      then-Adds _ _ _ _ _ _ _ (add_named-Adds matches f e.file_name)
        (add_entries-Adds matches es (add_named matches e.file_name f)))
  | inr b ↦ rw b (add_entries-Adds matches es f)
]

matching_entries-Adds :
    (pattern : Option (Text → Bool)) (es : List PathEntry) (f : Found)
    → Adds f
        (matching_entries pattern es f)
        (entries_give gives_vhost pattern es)
        (entries_give gives_system_log pattern es)
unfolding matching_entries
matching_entries-Adds none es f = nothing-Adds f
matching_entries-Adds (some m) es f = add_entries-Adds m es f

read_entries-Adds :
    (d : LogDirectoryConfig) (f : Found) (entries : Option (List PathEntry))
    → Adds f
        (read_entries d entries f)
        (dir_gives gives_vhost d.pattern entries)
        (dir_gives gives_system_log d.pattern entries)
unfolding read_entries
read_entries-Adds d f none = nothing-Adds f
read_entries-Adds d f (some es) = matching_entries-Adds d.pattern es f

discover_directory-Adds :
    (d : LogDirectoryConfig) (f : Found)
    → Adds f
        (discover_directory d f)
        (dir_gives gives_vhost d.pattern d.entries)
        (dir_gives gives_system_log d.pattern d.entries)
unfolding discover_directory
discover_directory-Adds d f = read_entries-Adds d f d.entries

pub discover_directories-Adds :
    (ds : List LogDirectoryConfig) (f : Found)
    → Adds f
        (discover_directories ds f)
        (directories_give gives_vhost ds)
        (directories_give gives_system_log ds)
unfolding discover_directories
discover_directories-Adds [] f = nothing-Adds f
discover_directories-Adds (d ∷ ds) f =
    then-Adds _ _ _ _ _ _ _ (discover_directory-Adds d f)
      (discover_directories-Adds ds (discover_directory d f))

add_file-Adds :
    (n : Option Text) (f : Found)
    → Adds f (add_file n f) (λ k. false) (λ k. holds_of (λ s. text_eq s k) n)
unfolding add_file
add_file-Adds none f = nothing-Adds f
add_file-Adds (some n) f = system_log-Adds f n

file-Adds :
    (e : PathEntry) (f : Found)
    → Adds f (if e.is_file then add_file e.file_name f else f) (λ k. false) (gives_file e)
file-Adds e f = elim (Bool-cases e.is_file) [
  | inl b ↦ rw b (add_file-Adds e.file_name f)
  | inr b ↦ rw b (nothing-Adds f)
]

pub discover_files-Adds :
    (es : List PathEntry) (f : Found)
    → Adds f (discover_files es f) (λ k. false) (λ k. any (λ e. gives_file e k) es)
unfolding discover_files
discover_files-Adds [] f = nothing-Adds f
discover_files-Adds (e ∷ es) f =
    then-Adds _ _ _ _ _ _ _ (file-Adds e f)
      (discover_files-Adds es (if e.is_file then add_file e.file_name f else f))
