-- ===== src/Tests/Tui.antt =====
-- The theorems about the log viewer at concrete inputs.
use sentinalysis.Base.{
  [], all, true, arith, codes, min, refl, some, take, text_eq, ℕ, ◌++◌, ◌+◌, ◌∷◌, ◌≡◌,
}
use sentinalysis.Base.Dict.{lookup}
use sentinalysis.Base.Int.{pos}
use sentinalysis.Base.Results.{ok}
use sentinalysis.LogScanner.Entry.{info}
use sentinalysis.LogScanner.Classifier.Threat.{low}
use sentinalysis.Tui.Data.{
  DisplayLogEntry, LogDataSource, MemoryLogDataSource, Source, is_newer, memory_source, vhost,
}
use sentinalysis.Tui.Viewer.{
  LogViewer, check_new_entries, new, max_entries_per_host, new_entries_per_poll,
}
use sentinalysis.Tui.Terminal.{KeyCode, Turn, char, key, run}
use sentinalysis.Tui.Terminal.Typing.{is_typable, run-untypable}
use sentinalysis.Tui.Viewer.Polling.{
  Descending, check_new_entries-misses, polls, check_new_entries-up_to_date,
}

abbrev entry_at : ℕ → DisplayLogEntry
entry_at n = record {
  id = n;
  timestamp = pos n;
  level = info;
  threat_level = low;
  message = codes "m";
  raw = [];
  source_name = codes "shop";
  threat_categories = [];
}

abbrev shop : Source
shop = record { kind = vhost; name = codes "shop" }

-- Three entries are stored, and the two older ones are on screen.
abbrev some_store : MemoryLogDataSource
some_store = record {
  vhosts = record { source = shop; entry_count = 3 } ∷ [];
  system_logs = [];
  entries = (codes "shop", entry_at 3 ∷ entry_at 2 ∷ entry_at 1 ∷ []) ∷ [];
}

abbrev some_viewer : LogViewer
some_viewer = record new {
  log_entries = (codes "shop", entry_at 2 ∷ entry_at 1 ∷ []) ∷ [];
  selected_source = some shop;
}

-- A source with no entries.
abbrev empty_source : LogDataSource Unit
empty_source = record {
  sources = λ w. ok [];
  recent = λ w source limit. ok [];
  newer = λ w source since since_id limit. ok [];
}

stored : lookup (codes "shop") some_store.entries ≡ some (entry_at 3 ∷ entry_at 2 ∷ entry_at 1 ∷ [])
unfolding lookup text_eq
stored = refl

on_screen : lookup (codes "shop") some_viewer.log_entries ≡ some (entry_at 2 ∷ entry_at 1 ∷ [])
unfolding lookup text_eq
on_screen = refl

descending : Descending (entry_at 3 ∷ entry_at 2 ∷ entry_at 1 ∷ [])
unfolding is_newer
descending = ((refl, (refl, tt)), ((refl, tt), (tt, tt)))

check_new_entries-up_to_date_example :
    lookup
      (codes "shop")
      (check_new_entries memory_source some_store some_viewer shop).0.log_entries
    ≡ some (take (min max_entries_per_host (1 + 2)) (entry_at 3 ∷ entry_at 2 ∷ entry_at 1 ∷ []))
check_new_entries-up_to_date_example =
    check_new_entries-up_to_date some_store some_viewer shop (entry_at 3 ∷ []) (entry_at 2)
      (entry_at 1 ∷ []) (entry_at 1 ∷ []) stored descending on_screen (omega arith) 2 (omega arith)
      refl

check_new_entries-misses_example :
    lookup (codes "shop") (polls some_store shop 3 some_viewer).log_entries
    ≡ some (
        take max_entries_per_host
          (take new_entries_per_poll (entry_at 3 ∷ []) ++ entry_at 2 ∷ entry_at 1 ∷ []))
check_new_entries-misses_example =
    check_new_entries-misses some_store some_viewer shop (entry_at 3 ∷ []) (entry_at 2)
      (entry_at 1 ∷ []) (entry_at 1 ∷ []) stored descending on_screen (omega arith) 2 (entry_at 3)
      [] refl

abbrev typed : KeyCode → Turn Unit
typed code = record { drawn = true; event = key code; now = 5; polled_at = 6; world = tt }

-- "/" opens the filter; "e" is typed, "r" leaves the filter, and "q" quits.
run-untypable_example :
    all is_typable
      (run empty_source
        (typed (char b'/') ∷ typed (char b'e') ∷ typed (char b'r') ∷ typed (char b'q') ∷ [])
        new).filter_text
    ≡ true
run-untypable_example =
    run-untypable empty_source
      (typed (char b'/') ∷ typed (char b'e') ∷ typed (char b'r') ∷ typed (char b'q') ∷ []) new refl
