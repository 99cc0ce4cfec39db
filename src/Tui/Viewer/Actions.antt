-- ===== src/Tui/Viewer/Actions.antt =====
-- src/tui/components/log_viewer/mod.rs: `init` and `handle_action`.
use sentinalysis.Base.{
  Bool, List, Option, Text, [], false, if◌then◌else◌, leb, min, none, some, true, ℕ, ◌+◌, ◌-◌, ◌∷◌,
}
use sentinalysis.Base.Int.{negsuc, pos}
use sentinalysis.Base.Dict.{lookup}
use sentinalysis.Base.Results.{Result, err, ok}
use sentinalysis.Tui.Data.{
  LogDataSource, Source, SourceInfo, SourceKind, kind_eq, source_eq, system_log, vhost,
}
use sentinalysis.Tui.Viewer.{
  Action, LogViewer, Outcome, PanelFocus, check_new_entries, clear_filter, handle_filter_action,
  host_list, load_recent_entries, log_list, log_list_max, move_selection, page_down, page_up,
  refresh, resolve_selection, scroll_to_bottom, scroll_to_top, select_down, select_up, tick,
  toggle_filter, toggle_focus,
}

-- `partition`
unfoldable pub of_kind : SourceKind → List SourceInfo → List SourceInfo
of_kind kind [] = []
of_kind kind (info ∷ infos) =
    let rest = of_kind kind infos in if kind_eq info.source.kind kind then info ∷ rest else rest

abbrev pub first_source : List SourceInfo → Option Source
first_source [] = none
first_source (info ∷ infos) = some info.source

abbrev pub toggled : PanelFocus → PanelFocus
toggled host_list = log_list
toggled log_list = host_list

abbrev pub is_selected : LogViewer → Source → Option Source → Bool
is_selected v source none = false
is_selected v source (some selected) = source_eq selected source

abbrev pub paged_up : Option ℕ → Option ℕ
paged_up none = none
paged_up (some i) = some (i - 20)

abbrev pub paged_down : ℕ → Option ℕ → Option ℕ
paged_down last none = none
paged_down last (some i) = some (min (i + 20) last)

abbrev pub is_cached : LogViewer → Option Source → Bool
is_cached v none = false
is_cached v (some s) = elim (lookup s.name v.log_entries) [ none ↦ false | some es ↦ true ]

abbrev pub is_due : ℕ → ℕ → Option ℕ → Bool
is_due now interval none = true
is_due now interval (some last) = leb interval (now - last)

module _ {W : Type 0} (data_source : LogDataSource W) (w : W) where
  abbrev pub show_first : LogViewer → Option Source → Outcome
  show_first v none = (v, ok tt)
  show_first v (some first) =
      load_recent_entries data_source w (record v { selected_source = some first }) first

  abbrev pub discovered : LogViewer → Result Text (List SourceInfo) → Outcome
  discovered v (err e) = (v, err e)
  discovered v (ok infos) =
      let vhosts = of_kind vhost infos in
      show_first (record v { virtual_hosts = vhosts; system_logs = of_kind system_log infos })
        (first_source vhosts)

  unfoldable pub init : LogViewer → Outcome
  unfolding of_kind load_recent_entries
  init v = discovered v (data_source.sources w)

  -- Another row is shown; a failure to load is only logged.
  abbrev pub selected : LogViewer → Option Source → LogViewer
  selected v none = v
  selected v (some source) =
      if is_selected v source v.selected_source
      then v
      else (load_recent_entries data_source w
          (record v { selected_source = some source; log_state = some 0 }) source).0

  abbrev pub refreshed : LogViewer → Option ℕ → LogViewer
  refreshed v none = v
  refreshed v (some i) = selected v (resolve_selection v i)

  -- A failure to poll is only logged.
  abbrev pub ticked : ℕ → LogViewer → Option Source → LogViewer
  ticked polled_at v none = v
  ticked polled_at v (some source) =
      (check_new_entries data_source w (record v { last_poll = some polled_at }) source).0

  -- The clock reads `now` at the test, and `polled_at` when the poll begins.
  unfoldable pub handle_unfiltered : ℕ → ℕ → LogViewer → Action → LogViewer
  unfolding move_selection load_recent_entries check_new_entries resolve_selection log_list_max
      source_eq
  handle_unfiltered now polled_at v toggle_focus = record v { focus = toggled v.focus }
  handle_unfiltered now polled_at v select_up = move_selection v (negsuc 0)
  handle_unfiltered now polled_at v select_down = move_selection v (pos 1)
  handle_unfiltered now polled_at v refresh = refreshed v v.host_state
  handle_unfiltered now polled_at v toggle_filter = record v { filter_mode = true }
  handle_unfiltered now polled_at v clear_filter = record v { filter_text = [] }
  handle_unfiltered now polled_at v page_up = record v { log_state = paged_up v.log_state }
  handle_unfiltered now polled_at v page_down = record v {
    log_state = paged_down (log_list_max v) v.log_state;
  }
  handle_unfiltered now polled_at v scroll_to_top = record v { log_state = some 0 }
  handle_unfiltered now polled_at v scroll_to_bottom =
      if is_cached v v.selected_source then record v { log_state = some (log_list_max v) } else v
  handle_unfiltered now polled_at v tick =
      if is_due now v.poll_interval v.last_poll then ticked polled_at v v.selected_source else v
  handle_unfiltered now polled_at v _ = v

  unfoldable pub handle_action : ℕ → ℕ → LogViewer → Action → LogViewer
  unfolding handle_filter_action handle_unfiltered
  handle_action now polled_at v action =
      if v.filter_mode
      then handle_filter_action v action
      else handle_unfiltered now polled_at v action
