-- ===== src/Tui/Terminal/Typing.antt =====
-- What can be typed into the filter.
use sentinalysis.Base.{
  Bool, Bool-cases, List, Option, Text, [], all, arith, false, if◌then◌else◌, inl, inr, none, not,
  refl, some, true, ℕ, ◌&&◌, ◌++◌, ◌==◌, ◌∷◌, ◌≡◌,
}
use sentinalysis.Base.Int.{negsuc, pos, ℤ}
use sentinalysis.Base.Results.{Result, err, ok}
use sentinalysis.Base.Dict.{lookup}
use sentinalysis.Tui.Data.{DisplayLogEntry, LogDataSource, Source}
use sentinalysis.Tui.Viewer.{
  Action, LogViewer, PanelFocus, first_of, host_list, log_list, tick, select_up, select_down,
  refresh, toggle_filter, clear_filter, page_up, page_down, scroll_to_top, scroll_to_bottom,
  filter_input, filter_backspace, toggle_focus, check_new_entries, handle_filter_action,
  load_recent_entries, loaded, poll_since, polled, prepended, move_in, move_selection,
  resolve_selection, without_last, max_entries_per_host, new_entries_per_poll,
}
use sentinalysis.Tui.Viewer.Actions.{
  handle_action, handle_unfiltered, is_cached, is_due, is_selected, refreshed, selected, ticked,
}
use sentinalysis.Tui.Terminal.{
  Event, KeyCode, Turn, act, is_quit, key, tick_event, char, char_to_action, event_to_action,
  key_to_action, run, turn_of,
}

-- Neither "q", "/" nor "r".
unfoldable pub is_typable : ℕ → Bool
is_typable c = not (c == b'q') && not (c == b'/') && not (c == b'r')

Typable : LogViewer → Type 0
Typable v = all is_typable v.filter_text ≡ true

-- An action that types only such a character.
abbrev Types : Action → Type 0
Types (filter_input c) = is_typable c ≡ true
Types _ = Unit

all-append :
    (s t : Text)
    → all is_typable s ≡ true
    → all is_typable t ≡ true
    → all is_typable (s ++ t) ≡ true
all-append [] t h k = k
all-append (c ∷ s) t h k = ground (arith, all-append s t)

without_last-typable : (s : Text) → all is_typable s ≡ true → all is_typable (without_last s) ≡ true
unfolding without_last
without_last-typable [] h = refl
without_last-typable (c ∷ []) h = refl
without_last-typable (c ∷ d ∷ s) h = ground (arith, without_last-typable (d ∷ s))

filter_action-Typable :
    (v : LogViewer) (a : Action) → Types a → Typable v → Typable (handle_filter_action v a)
unfolding handle_filter_action Typable
filter_action-Typable v (filter_input c) t h = all-append v.filter_text (c ∷ []) h (ground arith)
filter_action-Typable v filter_backspace t h = without_last-typable v.filter_text h
filter_action-Typable v clear_filter t h = refl
filter_action-Typable v _ t h = h

move_in-Typable :
    (v : LogViewer) (delta : ℤ) (focus : PanelFocus) → Typable v → Typable (move_in v delta focus)
unfolding Typable
move_in-Typable v delta host_list h = h
move_in-Typable v delta log_list h = h

move_selection-Typable : (v : LogViewer) (delta : ℤ) → Typable v → Typable (move_selection v delta)
unfolding move_selection
move_selection-Typable v delta h = move_in-Typable v delta v.focus h

module _ {W : Type 0} (data_source : LogDataSource W) (w : W) where
  loaded-Typable :
      (v : LogViewer) (source : Source) (answer : Result Text (List DisplayLogEntry))
      → Typable v
      → Typable (loaded v source answer).0
  unfolding Typable
  loaded-Typable v source (err e) h = h
  loaded-Typable v source (ok es) h = h

  selected_if-Typable :
      (v : LogViewer) (source : Source) (same : Bool)
      → Typable v
      → Typable (
          if same
          then v
          else (load_recent_entries data_source w
              (record v { selected_source = some source; log_state = some 0 })
              source).0)
  unfolding load_recent_entries Typable
  selected_if-Typable v source true h = h
  selected_if-Typable v source false h =
      loaded-Typable (record v { selected_source = some source; log_state = some 0 }) source
        (data_source.recent w source max_entries_per_host) h

  selected-Typable :
      (v : LogViewer) (row : Option Source) → Typable v → Typable (selected data_source w v row)
  selected-Typable v none h = h
  selected-Typable v (some source) h =
      selected_if-Typable v source (is_selected v source v.selected_source) h

  refreshed-Typable :
      (v : LogViewer) (row : Option ℕ) → Typable v → Typable (refreshed data_source w v row)
  refreshed-Typable v none h = h
  refreshed-Typable v (some i) h = selected-Typable v (resolve_selection v i) h

  prepended-Typable :
      (v : LogViewer) (source : Source) (fresh : List DisplayLogEntry)
      (shown : Option (List DisplayLogEntry))
      → Typable v
      → Typable (prepended v source fresh shown)
  unfolding Typable
  prepended-Typable v source fresh none h = h
  prepended-Typable v source fresh (some shown) h = h

  polled-Typable :
      (v : LogViewer) (source : Source) (answer : Result Text (List DisplayLogEntry))
      → Typable v
      → Typable (polled v source answer).0
  polled-Typable v source (err e) h = h
  polled-Typable v source (ok []) h = h
  polled-Typable v source (ok (e ∷ es)) h =
      prepended-Typable v source (e ∷ es) (lookup source.name v.log_entries) h

  poll_since-Typable :
      (v : LogViewer) (source : Source) (newest : Option DisplayLogEntry)
      → Typable v
      → Typable (poll_since data_source w v source newest).0
  poll_since-Typable v source none h = h
  poll_since-Typable v source (some e) h =
      polled-Typable v source (data_source.newer w source e.timestamp e.id new_entries_per_poll) h

  ticked-Typable :
      (polled_at : ℕ) (v : LogViewer) (source : Option Source)
      → Typable v
      → Typable (ticked data_source w polled_at v source)
  unfolding check_new_entries Typable
  ticked-Typable polled_at v none h = h
  ticked-Typable polled_at v (some source) h =
      poll_since-Typable (record v { last_poll = some polled_at }) source
        (first_of (lookup source.name v.log_entries)) h

  either-Typable :
      (b : Bool) (v u : LogViewer) → Typable v → Typable u → Typable (if b then v else u)
  either-Typable true v u h k = h
  either-Typable false v u h k = k

  unfiltered-Typable :
      (now polled_at : ℕ) (v : LogViewer) (a : Action)
      → Typable v
      → Typable (handle_unfiltered data_source w now polled_at v a)
  unfolding handle_unfiltered Typable
  unfiltered-Typable now polled_at v toggle_focus h = h
  unfiltered-Typable now polled_at v select_up h = move_selection-Typable v (negsuc 0) h
  unfiltered-Typable now polled_at v select_down h = move_selection-Typable v (pos 1) h
  unfiltered-Typable now polled_at v refresh h = refreshed-Typable v v.host_state h
  unfiltered-Typable now polled_at v toggle_filter h = h
  unfiltered-Typable now polled_at v clear_filter h = refl
  unfiltered-Typable now polled_at v page_up h = h
  unfiltered-Typable now polled_at v page_down h = h
  unfiltered-Typable now polled_at v scroll_to_top h = h
  unfiltered-Typable now polled_at v scroll_to_bottom h =
      either-Typable (is_cached v v.selected_source) _ v h h
  unfiltered-Typable now polled_at v tick h =
      either-Typable (is_due now v.poll_interval v.last_poll) _ v
        (ticked-Typable polled_at v v.selected_source h) h
  unfiltered-Typable now polled_at v _ h = h

  handle_action-Typable :
      (now polled_at : ℕ) (v : LogViewer) (a : Action)
      → Types a
      → Typable v
      → Typable (handle_action data_source w now polled_at v a)
  unfolding handle_action
  handle_action-Typable now polled_at v a t h =
      either-Typable v.filter_mode _ _ (filter_action-Typable v a t h)
        (unfiltered-Typable now polled_at v a h)

-- The keys type only typable characters.
char_to_action-Types : (c : ℕ) → Types (char_to_action c)
unfolding is_typable
char_to_action-Types c = elim (Bool-cases (c == b'q')) [
  | inl e ↦ rw e tt
  | inr e ↦ elim (Bool-cases (c == b'/')) [
    | inl k ↦ rw (e, k) tt
    | inr k ↦ elim (Bool-cases (c == b'r')) [
      | inl j ↦ rw (e, k, j) tt
      | inr j ↦ rw (e, k, j) (ground arith)
    ]
  ]
]

abbrev TypesSome : Option Action → Type 0
TypesSome none = Unit
TypesSome (some a) = Types a

key_to_action-Types : (code : KeyCode) → TypesSome (key_to_action code)
unfolding key_to_action
key_to_action-Types (char c) = char_to_action-Types c
key_to_action-Types _ = tt

event_to_action-Types : (event : Event) → TypesSome (event_to_action event)
unfolding event_to_action
event_to_action-Types (key code) = key_to_action-Types code
event_to_action-Types tick_event = tt
event_to_action-Types _ = tt

abbrev TypableSome : Option LogViewer → Type 0
TypableSome none = Unit
TypableSome (some v) = Typable v

some_unless-Typable :
    (b : Bool) (v : LogViewer) → Typable v → TypableSome (if b then none else some v)
some_unless-Typable true v h = tt
some_unless-Typable false v h = h

drawn-Typable :
    (b : Bool) (next : Option LogViewer) → TypableSome next → TypableSome (if b then next else none)
drawn-Typable true next h = h
drawn-Typable false next h = tt

module _ {W : Type 0} (data_source : LogDataSource W) where
  act-Typable :
      (turn : Turn W) (v : LogViewer) (action : Option Action)
      → TypesSome action
      → Typable v
      → TypableSome (act data_source turn v action)
  act-Typable turn v none t h = h
  act-Typable turn v (some action) t h =
      some_unless-Typable (is_quit action) _
        (handle_action-Typable data_source turn.world turn.now turn.polled_at v action t h)

  turn_of-Typable :
      (turn : Turn W) (v : LogViewer) → Typable v → TypableSome (turn_of data_source turn v)
  unfolding turn_of
  turn_of-Typable turn v h =
      drawn-Typable turn.drawn _
        (act-Typable turn v (event_to_action turn.event) (event_to_action-Types turn.event) h)

  run_on-Typable :
      (turns : List (Turn W)) (v : LogViewer) (next : Option LogViewer)
      → ((u : LogViewer) → Typable u → Typable (run data_source turns u))
      → Typable v
      → TypableSome next
      → Typable (elim next [ none ↦ v | some u ↦ run data_source turns u ])
  run_on-Typable turns v none rest h k = h
  run_on-Typable turns v (some u) rest h k = rest u k

  run-Typable :
      (turns : List (Turn W)) (v : LogViewer) → Typable v → Typable (run data_source turns v)
  unfolding run
  run-Typable [] v h = h
  run-Typable (turn ∷ turns) v h =
      run_on-Typable turns v (turn_of data_source turn v) (run-Typable turns) h
        (turn_of-Typable turn v h)

  -- Whatever events reach the terminal's loop, and whatever the data source answers, a filter text
  -- that holds none of the characters "q", "/" and "r" when the loop begins holds none when it ends:
  -- these three cannot be typed into the filter, even in filter mode.
  pub run-untypable :
      (turns : List (Turn W)) (v : LogViewer)
      → all is_typable v.filter_text ≡ true
      → all is_typable (run data_source turns v).filter_text ≡ true
  unfolding Typable
  run-untypable turns v h = run-Typable turns v h
