-- ===== src/Tui/Viewer.antt =====
-- src/tui/components/log_viewer/mod.rs: the state of the log viewer and its answer to each action of
-- src/tui/action.rs. The clock is an argument.
pub mod Actions
pub mod Selection
pub mod Validity
pub mod Polling
use sentinalysis.Base.{
  Bool, List, Option, Text, [], false, if◌then◌else◌, is_nil, length, ltb, min, none, not, some,
  suc, take, zero, ℕ, ◌&&◌, ◌++◌, ◌+◌, ◌-◌, ◌^◌, ◌∷◌,
}
use sentinalysis.Base.Int.{negsuc, pos, ℤ}
use sentinalysis.Base.Dict.{Dict, insert, lookup}
use sentinalysis.Base.Results.{Result, err, ok}
use sentinalysis.Tui.Data.{DisplayLogEntry, LogDataSource, Source, SourceInfo}

abbrev pub max_entries_per_host : ℕ
max_entries_per_host = 1000

abbrev pub new_entries_per_poll : ℕ
new_entries_per_poll = 100

abbrev pub default_poll_interval : ℕ
default_poll_interval = 2000

pub data PanelFocus : Type 0 where
  host_list log_list : PanelFocus

pub data Action : Type 0 where
  quit tick select_up select_down refresh toggle_filter clear_filter log_entry_added : Action
  scroll_up scroll_down page_up page_down scroll_to_top scroll_to_bottom : Action
  filter_input : ℕ → Action
  filter_backspace load_older_entries toggle_focus : Action

-- The data source is passed to each call. `host_state` and `log_state` are the selected rows;
-- instants are milliseconds.
pub record LogViewer : Type 0 where
  pub virtual_hosts : List SourceInfo
  pub system_logs : List SourceInfo
  pub host_state : Option ℕ
  pub log_entries : Dict (List DisplayLogEntry)
  pub log_state : Option ℕ
  pub selected_source : Option Source
  pub filter_mode : Bool
  pub filter_text : Text
  pub focus : PanelFocus
  pub poll_interval : ℕ
  pub last_poll : Option ℕ

abbrev pub new : LogViewer
new = record {
  virtual_hosts = [];
  system_logs = [];
  host_state = some 0;
  log_entries = [];
  log_state = some 0;
  selected_source = none;
  filter_mode = false;
  filter_text = [];
  focus = host_list;
  poll_interval = default_poll_interval;
  last_poll = none;
}

-- The viewer, and the result of the call.
abbrev pub Outcome : Type 0
Outcome = LogViewer × Result Text (Unit {0})

abbrev pub loaded : LogViewer → Source → Result Text (List DisplayLogEntry) → Outcome
loaded v source (err e) = (v, err e)
loaded v source (ok entries) =
    (record v { log_entries = insert source.name entries v.log_entries; log_state = some 0 }, ok tt)

unfoldable pub load_recent_entries :
    {W : Type 0} → LogDataSource W → W → LogViewer → Source → Outcome
unfolding insert
load_recent_entries data_source w v source =
    loaded v source (data_source.recent w source max_entries_per_host)

-- The newest entry on screen.
abbrev pub first_of : Option (List DisplayLogEntry) → Option DisplayLogEntry
first_of none = none
first_of (some []) = none
first_of (some (e ∷ es)) = some e

-- `splice(0..0, …)`, then `truncate`.
abbrev pub prepended :
    LogViewer → Source → List DisplayLogEntry → Option (List DisplayLogEntry) → LogViewer
prepended v source fresh none = v
prepended v source fresh (some shown) = record v {
  log_entries = insert source.name (take max_entries_per_host (fresh ++ shown)) v.log_entries;
}

abbrev pub polled : LogViewer → Source → Result Text (List DisplayLogEntry) → Outcome
polled v source (err e) = (v, err e)
polled v source (ok fresh) = (
  (if is_nil fresh then v else prepended v source fresh (lookup source.name v.log_entries)),
  ok tt,
)

abbrev pub poll_since :
    {W : Type 0} → LogDataSource W → W → LogViewer → Source → Option DisplayLogEntry → Outcome
poll_since data_source w v source none = (v, ok tt)
poll_since data_source w v source (some newest) =
    polled v source (data_source.newer w source newest.timestamp newest.id new_entries_per_poll)

unfoldable pub check_new_entries : {W : Type 0} → LogDataSource W → W → LogViewer → Source → Outcome
unfolding lookup insert
check_new_entries data_source w v source =
    poll_since data_source w v source (first_of (lookup source.name v.log_entries))

unfoldable pub total_host_list_len : LogViewer → ℕ
total_host_list_len v =
    1 + length v.virtual_hosts + (if is_nil v.system_logs then 0 else 1 + length v.system_logs)

unfoldable pub get_elem? : {A : Type 0} → List A → ℕ → Option A
get_elem? [] n = none
get_elem? (a ∷ l) zero = some a
get_elem? (a ∷ l) (suc n) = get_elem? l n

abbrev pub source_of : Option SourceInfo → Option Source → Option Source
source_of none other = other
source_of (some info) other = some info.source

-- A row behind the header of the system logs.
abbrev pub resolve_system_log : LogViewer → ℕ → Option Source
resolve_system_log v index =
    let system_header = 1 + length v.virtual_hosts in
    if not (is_nil v.system_logs) && ltb system_header index
    then source_of (get_elem? v.system_logs (index - system_header - 1)) none
    else none

unfoldable pub resolve_selection : LogViewer → ℕ → Option Source
unfolding get_elem?
resolve_selection v zero = none
resolve_selection v (suc n) = source_of (get_elem? v.virtual_hosts n) (resolve_system_log v (suc n))

abbrev pub last_index : Option (List DisplayLogEntry) → ℕ
last_index none = 0
last_index (some es) = length es - 1

abbrev pub log_list_max_of : Dict (List DisplayLogEntry) → Option Source → ℕ
log_list_max_of entries none = 0
log_list_max_of entries (some s) = last_index (lookup s.name entries)

unfoldable pub log_list_max : LogViewer → ℕ
unfolding lookup
log_list_max v = log_list_max_of v.log_entries v.selected_source

-- `pop`
unfoldable pub without_last : Text → Text
without_last [] = []
without_last (c ∷ []) = []
without_last (c ∷ d ∷ cs) = c ∷ without_last (d ∷ cs)

unfoldable pub handle_filter_action : LogViewer → Action → LogViewer
unfolding without_last
handle_filter_action v (filter_input c) = record v { filter_text = v.filter_text ++ c ∷ [] }
handle_filter_action v filter_backspace = record v { filter_text = without_last v.filter_text }
handle_filter_action v clear_filter = record v { filter_mode = false; filter_text = [] }
handle_filter_action v toggle_filter = record v { filter_mode = false }
handle_filter_action v refresh = record v { filter_mode = false }
handle_filter_action v _ = v

-- `saturating_add_signed` on a 64-bit `usize`.
abbrev pub saturating_add_signed : ℕ → ℤ → ℕ
saturating_add_signed i (pos d) = min (i + d) (2 ^ 64 - 1)
saturating_add_signed i (negsuc d) = i - suc d

-- The row of a panel, moved within its bounds.
abbrev pub moved : ℤ → ℕ → Option ℕ → Option ℕ
moved delta last none = none
moved delta last (some i) = some (min (saturating_add_signed i delta) last)

abbrev pub move_in : LogViewer → ℤ → PanelFocus → LogViewer
move_in v delta host_list = record v {
  host_state = moved delta (total_host_list_len v - 1) v.host_state;
}
move_in v delta log_list = record v { log_state = moved delta (log_list_max v) v.log_state }

unfoldable pub move_selection : LogViewer → ℤ → LogViewer
unfolding log_list_max total_host_list_len
move_selection v delta = move_in v delta v.focus
