-- ===== src/Tui/Data.antt =====
-- src/tui/data: what the log viewer shows, the source it reads from, and the source in memory. An
-- id is a number, and `W` is what a source reads at the moment of a call.
use sentinalysis.Base.{
  Bool, List, Option, Text, [], false, if◌then◌else◌, ltb, none, not, some, take, text_eq, true, ℕ,
  ◌&&◌, ◌++◌, ◌||◌, ◌∷◌,
}
use sentinalysis.Base.Int.{ltb_ℤ, ℤ}
use sentinalysis.Base.Dict.{Dict, lookup}
use sentinalysis.Base.Results.{Result, ok}
use sentinalysis.LogScanner.Entry.{LogLevel}
use sentinalysis.LogScanner.Classifier.Threat.{ThreatLevel}

pub data SourceKind : Type 0 where
  vhost system_log : SourceKind

pub record Source : Type 0 where
  pub kind : SourceKind
  pub name : Text

abbrev pub kind_eq : SourceKind → SourceKind → Bool
kind_eq vhost vhost = true
kind_eq system_log system_log = true
kind_eq _ _ = false

-- The derived `==`.
unfoldable pub source_eq : Source → Source → Bool
unfolding text_eq
source_eq a b = kind_eq a.kind b.kind && text_eq a.name b.name

pub record DisplayLogEntry : Type 0 where
  pub id : ℕ
  pub timestamp : ℤ
  pub level : LogLevel
  pub threat_level : ThreatLevel
  pub message : Text
  pub raw : Text
  pub source_name : Text
  pub threat_categories : List Text

pub record SourceInfo : Type 0 where
  pub source : Source
  pub entry_count : ℕ

pub record LogDataSource (W : Type 0) : Type 0 where
  pub sources : W → Result Text (List SourceInfo)
  pub recent : W → Source → ℕ → Result Text (List DisplayLogEntry)
  -- the timestamp and the id of the cursor, then the limit
  pub newer : W → Source → ℤ → ℕ → ℕ → Result Text (List DisplayLogEntry)

pub record MemoryLogDataSource : Type 0 where
  pub vhosts : List SourceInfo
  pub system_logs : List SourceInfo
  pub entries : Dict (List DisplayLogEntry)

-- The tuple order of `(timestamp, id)`.
unfoldable pub is_newer : ℤ → ℕ → DisplayLogEntry → Bool
is_newer since since_id e =
    ltb_ℤ since e.timestamp || not (ltb_ℤ e.timestamp since) && ltb since_id e.id

unfoldable pub keep_newer : ℤ → ℕ → List DisplayLogEntry → List DisplayLogEntry
unfolding is_newer
keep_newer since since_id [] = []
keep_newer since since_id (e ∷ es) =
    let rest = keep_newer since since_id es in if is_newer since since_id e then e ∷ rest else rest

abbrev pub or_none : Option (List DisplayLogEntry) → List DisplayLogEntry
or_none none = []
or_none (some es) = es

-- The calls never fail.
unfoldable pub memory_source : LogDataSource MemoryLogDataSource
unfolding lookup keep_newer
memory_source = record {
  sources = λ m. ok (m.vhosts ++ m.system_logs);
  recent = λ m source limit. ok (take limit (or_none (lookup source.name m.entries)));
  newer = λ m source since since_id limit.
      ok (take limit (keep_newer since since_id (or_none (lookup source.name m.entries))));
}
