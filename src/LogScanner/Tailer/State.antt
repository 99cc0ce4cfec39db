-- ===== src/LogScanner/Tailer/State.antt =====
-- src/log_scanner/tailer/state.rs: the lines of a tailed file and the byte position to resume
-- from. A file is its text, a path is a text, and the receiver of the channel is the number of
-- lines that it still takes.
pub mod Lines
pub mod Resume
pub mod Unterminated
use sentinalysis.Base.{
  Bool, List, Option, Text, [], false, if◌then◌else◌, leb, len, length, none, not, some,
  split_at_byte, suc, text_eq, true, zero, ℕ, ◌&&◌, ◌++◌, ◌+◌, ◌-◌, ◌==◌, ◌||◌, ◌∷◌,
}
use sentinalysis.LogScanner.Source.{is_rotated_log}
use sentinalysis.Base.Dict.{Dict, insert, lookup, mem_text, remove}

pub record TailLine : Type 0 where
  pub file_path : Text
  pub line : Text
  pub byte_offset : ℕ

pub record TailerState : Type 0 where
  pub positions : Dict ℕ
  pub tailed_files : List Text

abbrev pub new : List Text → TailerState
new initial_files = record { positions = []; tailed_files = initial_files }

abbrev pub cons_line : ℕ → List Text → List Text
cons_line c [] = (c ∷ []) ∷ []
cons_line c (l ∷ ls) = (c ∷ l) ∷ ls

-- `str::lines`: the line ends are "\n" and "\r\n", and nothing follows the last one.
unfoldable pub lines : Text → List Text
lines [] = []
lines (c ∷ []) = if c == 10 then [] ∷ [] else (c ∷ []) ∷ []
lines (c ∷ d ∷ cs) =
    let rest = lines (d ∷ cs) in
    if c == 10 then [] ∷ rest else if c == 13 && d == 10 then rest else cons_line c rest

-- The sent lines, the offset after them, and whether the receiver took them all.
pub record Sent : Type 0 where
  pub sent : List TailLine
  pub next_offset : ℕ
  pub all_sent : Bool

abbrev pub add_sent : TailLine → Sent → Sent
add_sent l s = record s { sent = l ∷ s.sent }

-- The loop over the lines.
unfoldable pub send_lines : ℕ → Text → ℕ → List Text → Sent
send_lines takes file offset [] = record { sent = []; next_offset = offset; all_sent = true }
send_lines zero file offset (l ∷ ls) = record { sent = []; next_offset = offset; all_sent = false }
send_lines (suc takes) file offset (l ∷ ls) =
    add_sent record { file_path = file; line = l; byte_offset = offset }
      (send_lines takes file (offset + (len l + 1)) ls)

-- `read_existing_lines` on a file that can be read.
unfoldable pub read_existing_lines : ℕ → Text → Text → TailerState → TailerState × List TailLine
unfolding lines send_lines insert
read_existing_lines takes file content st =
    let done = send_lines takes file 0 (lines content) in
    (record st { positions = insert file done.next_offset st.positions }, done.sent)

abbrev pub behind : Option (Text × Text) → Option Text
behind none = none
behind (some (a, b)) = some b

-- The text after byte `n`: empty past the end, and no text from inside a character.
unfoldable pub read_from : ℕ → Text → Option Text
unfolding split_at_byte
read_from n content = if leb (len content) n then some [] else behind (split_at_byte content n)

-- The kinds of event that the handler tells apart.
pub data EventKind : Type 0 where
  modify_data modify_name created removed other : EventKind

-- One path of an event: the file name in UTF-8, the content if it is a file, and whether a watched
-- directory has it and its pattern matches.
pub record Seen : Type 0 where
  pub path : Text
  pub file_name : Option Text
  pub content : Option Text
  pub is_watched : Bool

-- How one round of the loop over the paths ends: on to the next path, `return Ok(())`, or an error.
pub data Next : Type 0 where
  goes_on returns fails : Next

pub record Round : Type 0 where
  pub state : TailerState
  pub emitted : List TailLine
  pub next : Next

abbrev pub quiet : TailerState → Round
quiet st = record { state = st; emitted = []; next = goes_on }

abbrev pub forget : Text → List Text → List Text
forget k [] = []
forget k (x ∷ xs) = let rest = forget k xs in if text_eq x k then rest else x ∷ rest

-- The lines behind `pos`.
unfoldable pub read_appended : ℕ → Text → ℕ → Option Text → TailerState → Round
unfolding lines send_lines insert
read_appended takes path pos none st = record { state = st; emitted = []; next = fails }
read_appended takes path pos (some new_content) st =
    let done = send_lines takes path pos (lines new_content) in
    if done.all_sent
    then record {
      state = record st { positions = insert path done.next_offset st.positions };
      emitted = done.sent;
      next = goes_on;
    }
    else record { state = st; emitted = done.sent; next = returns }

unfoldable pub on_position : ℕ → Text → Text → Option ℕ → TailerState → Round
unfolding read_appended read_from
on_position takes path content none st = quiet st
on_position takes path content (some pos) st =
    read_appended takes path pos (read_from pos content) st

unfoldable pub on_modified : ℕ → Text → Text → TailerState → Round
unfolding on_position lookup
on_modified takes path content st = on_position takes path content (lookup path st.positions) st

unfoldable pub on_created : ℕ → Text → Text → Bool → TailerState → Round
unfolding read_existing_lines insert mem_text
on_created takes path content is_watched st =
    let tailed =
      if mem_text path st.tailed_files then st.tailed_files else path ∷ st.tailed_files in
    let adopted : TailerState = record {
      positions = insert path 0 st.positions;
      tailed_files = tailed;
    } in
    let done = read_existing_lines takes path content adopted in
    if is_watched then record { state = done.0; emitted = done.1; next = goes_on } else quiet st

unfoldable pub on_removed : Text → TailerState → Round
unfolding remove
on_removed path st =
    quiet
      record { positions = remove path st.positions; tailed_files = forget path st.tailed_files }

abbrev pub is_modify_data : EventKind → Bool
is_modify_data modify_data = true
is_modify_data _ = false

abbrev pub is_create : EventKind → Bool
is_create created = true
is_create _ = false

abbrev pub is_remove : EventKind → Bool
is_remove removed = true
is_remove _ = false

abbrev pub is_modify_name : EventKind → Bool
is_modify_name modify_name = true
is_modify_name _ = false

-- The body of the loop, on a file with a name.
unfoldable pub react : ℕ → EventKind → Text → Text → Text → Bool → TailerState → Round
unfolding on_modified on_created on_removed is_rotated_log mem_text
react takes kind path file_name content is_watched st =
    if is_modify_data kind && mem_text path st.tailed_files
    then on_modified takes path content st
    else if is_create kind && not (is_rotated_log file_name)
    then on_created takes path content is_watched st
    else if is_remove kind || (is_modify_name kind && is_rotated_log file_name)
    then on_removed path st
    else quiet st

abbrev pub react_to : ℕ → EventKind → Text → Bool → Option Text → Option Text → TailerState → Round
react_to takes kind path is_watched (some content) (some file_name) st =
    react takes kind path file_name content is_watched st
react_to takes kind path is_watched _ _ st = quiet st

-- A path that is no file, or has no such name, is skipped.
unfoldable pub handle_path : ℕ → EventKind → Seen → TailerState → Round
handle_path takes kind seen st =
    react_to takes kind seen.path seen.is_watched seen.content seen.file_name st

-- The first round, and the rest after it if the loop goes on.
abbrev pub followed_by : Next → Round → Round → Round
followed_by goes_on first rest = record rest { emitted = first.emitted ++ rest.emitted }
followed_by _ first rest = first

-- The loop over the paths of an event.
unfoldable pub handle_event : ℕ → EventKind → List Seen → TailerState → Round
unfolding handle_path
handle_event takes kind [] st = quiet st
handle_event takes kind (seen ∷ paths) st =
    let first = handle_path takes kind seen st in
    let rest = handle_event (takes - length first.emitted) kind paths first.state in
    followed_by first.next first rest
