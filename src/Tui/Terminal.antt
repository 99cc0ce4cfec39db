-- ===== src/Tui/Terminal.antt =====
-- src/tui/terminal.rs: the actions of keys, and the event loop over the viewer of src/tui/app.rs.
-- The status bar keeps no state, and every action succeeds.
pub mod Typing
use sentinalysis.Base.{Bool, List, Option, [], false, if◌then◌else◌, none, some, true, ℕ, ◌==◌, ◌∷◌}
use sentinalysis.Tui.Data.{LogDataSource}
use sentinalysis.Tui.Viewer.{
  Action, LogViewer, clear_filter, filter_backspace, filter_input, page_down, page_up, quit,
  refresh, scroll_to_bottom, scroll_to_top, select_down, select_up, tick, toggle_filter,
  toggle_focus,
}
use sentinalysis.Tui.Viewer.Actions.{handle_action}

-- The keys that the source names, and any other.
pub data KeyCode : Type 0 where
  char : ℕ → KeyCode
  key_up key_down tab enter esc backspace key_page_up key_page_down home end_key other : KeyCode

pub data Event : Type 0 where
  tick_event : Event
  key : KeyCode → Event
  focus_lost focus_gained mouse : Event
  resize : ℕ → ℕ → Event

abbrev pub char_to_action : ℕ → Action
char_to_action c =
    if c == b'q'
    then quit
    else if c == b'/'
    then toggle_filter
    else if c == b'r'
    then refresh
    else filter_input c

unfoldable pub key_to_action : KeyCode → Option Action
key_to_action (char c) = some (char_to_action c)
key_to_action key_up = some select_up
key_to_action key_down = some select_down
key_to_action tab = some toggle_focus
key_to_action enter = some refresh
key_to_action esc = some clear_filter
key_to_action backspace = some filter_backspace
key_to_action key_page_up = some page_up
key_to_action key_page_down = some page_down
key_to_action home = some scroll_to_top
key_to_action end_key = some scroll_to_bottom
key_to_action other = none

unfoldable pub event_to_action : Event → Option Action
unfolding key_to_action
event_to_action (key code) = key_to_action code
event_to_action tick_event = some tick
event_to_action _ = none

abbrev pub is_quit : Action → Bool
is_quit quit = true
is_quit _ = false

-- A turn of the loop: whether the frame was drawn, the event, and what the handler finds.
pub record Turn (W : Type 0) : Type 0 where
  pub drawn : Bool
  pub event : Event
  pub now : ℕ
  pub polled_at : ℕ
  pub world : W

module _ {W : Type 0} (data_source : LogDataSource W) where
  -- The viewer after a turn, or `none` when the loop ends there.
  abbrev pub act : Turn W → LogViewer → Option Action → Option LogViewer
  act turn v none = some v
  act turn v (some action) =
      if is_quit action
      then none
      else some (handle_action data_source turn.world turn.now turn.polled_at v action)

  unfoldable pub turn_of : Turn W → LogViewer → Option LogViewer
  unfolding event_to_action handle_action
  turn_of turn v = if turn.drawn then act turn v (event_to_action turn.event) else none

  -- The viewer when the loop ends: it quits, cannot draw, or the channel closes.
  unfoldable pub run : List (Turn W) → LogViewer → LogViewer
  unfolding turn_of
  run [] v = v
  run (turn ∷ turns) v = elim (turn_of turn v) [ none ↦ v | some next ↦ run turns next ]
