-- ===== src/Tui/Viewer/Validity.antt =====
-- Every action keeps the selected rows within their panels, and the cached lists short.
use sentinalysis.Base.{List, Option, Text, arith, none, refl, some, ◌-◌, ◌≡◌}
use sentinalysis.Base.Results.{Result, err, ok}
use sentinalysis.Tui.Data.{DisplayLogEntry, LogDataSource, Source, SourceInfo, system_log, vhost}
use sentinalysis.Tui.Viewer.{
  LogViewer, load_recent_entries, loaded, log_list_max, max_entries_per_host, new,
  total_host_list_len,
}
use sentinalysis.Tui.Viewer.Actions.{discovered, first_source, init, of_kind, show_first}
use sentinalysis.Tui.Viewer.Selection.{
  AreShort, AreShort-insert, InPanel, IsValid, Limited, new-IsValid,
}

module _ {W : Type 0} (data_source : LogDataSource W) (w : W) (limited : Limited data_source) where
  loaded-IsValid :
      (v : LogViewer) (source : Source) (answer : Result Text (List DisplayLogEntry))
      → data_source.recent w source max_entries_per_host ≡ answer
      → v.log_state ≡ some 0
      → InPanel (total_host_list_len v - 1) v.host_state
      → AreShort v.log_entries
      → IsValid (loaded v source answer).0
  unfolding log_list_max total_host_list_len
  loaded-IsValid v source (err e) h at host short = record {
    host_in = host;
    log_in = rw at (omega arith);
    short = short;
  }
  loaded-IsValid v source (ok es) h at host short = record {
    host_in = host;
    log_in = omega arith;
    short =
        AreShort-insert source.name es v.log_entries (limited w source max_entries_per_host es h)
          short;
  }

  load_recent_entries-IsValid :
      (v : LogViewer) (source : Source)
      → v.log_state ≡ some 0
      → InPanel (total_host_list_len v - 1) v.host_state
      → AreShort v.log_entries
      → IsValid (load_recent_entries data_source w v source).0
  unfolding load_recent_entries
  load_recent_entries-IsValid v source at host short = loaded-IsValid v source _ refl at host short

  show_first-IsValid :
      (v : LogViewer) (first : Option Source)
      → v.log_state ≡ some 0
      → InPanel (total_host_list_len v - 1) v.host_state
      → IsValid v
      → IsValid (show_first data_source w v first).0
  show_first-IsValid v none at host h = h
  show_first-IsValid v (some first) at host h =
      load_recent_entries-IsValid (record v { selected_source = some first }) first at
        (unfold total_host_list_len in host) h.short

  discovered-IsValid :
      (found : Result Text (List SourceInfo)) → IsValid (discovered data_source w new found).0
  unfolding log_list_max total_host_list_len
  discovered-IsValid (err e) = new-IsValid
  discovered-IsValid (ok infos) =
      let v = record new {
        virtual_hosts = of_kind vhost infos;
        system_logs = of_kind system_log infos;
      } in
      let start : IsValid new = new-IsValid in
      show_first-IsValid v (first_source (of_kind vhost infos)) refl (omega arith)
        (record { host_in = omega arith; log_in = omega arith; short = start.short })

  pub init-IsValid : IsValid (init data_source w new).0
  unfolding init
  init-IsValid = discovered-IsValid (data_source.sources w)
