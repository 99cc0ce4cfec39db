-- ===== src/LogScanner/Tailer/State/Resume.antt =====
-- Where reading resumes: on files whose lines all end in a newline, and on the others.
use mathlib.Core.Path.{subst}
use sentinalysis.Base.{
  All, Bool, Bool-cases, List, Text, [], ap, append-nil, append_assoc, arith, if◌then◌else◌, inl,
  inr, leb, leb→le, len, len-append, length, map, refl, some, split_at_byte-append, suc, sym,
  text_eq_self, true, zero, ℕ, ◌++◌, ◌+◌, ◌∙◌, ◌∷◌, ◌≡◌, ◌≤◌,
}
use sentinalysis.LogScanner.Tailer.State.Lines.{IsLine, lines-unlines, unlines}
use sentinalysis.LogScanner.Tailer.State.{
  Seen, Sent, TailLine, TailerState, add_sent, goes_on, handle_path, modify_data, on_modified,
  on_position, react, read_appended, read_existing_lines, read_from, send_lines,
}
use sentinalysis.Base.Dict.{Dict, insert, lookup, lookup-insert, mem_text}

-- The line stands at its offset in the content, and a newline follows.
pub record StandsIn (content : Text) (l : TailLine) : Type 0 where
  pub before : Text
  pub after : Text
  pub parts : content ≡ before ++ (l.line ++ 10 ∷ after)
  pub offset : l.byte_offset ≡ len before

-- The lines `ls` of a file, sent from the offset where they start.
record SendsAll (content file : Text) (ls : List Text) (s : Sent) : Type 0 where
  same_lines : map TailLine.line s.sent ≡ ls
  at_end : s.next_offset ≡ len content
  complete : s.all_sent ≡ true
  in_place : All (StandsIn content) s.sent

SendsAll-first :
    (before file l : Text) (ls : List Text) (s : Sent)
    → SendsAll (before ++ (l ++ 10 ∷ unlines ls)) file ls s
    → SendsAll
        (before ++ (l ++ 10 ∷ unlines ls))
        file
        (l ∷ ls)
        (add_sent record { file_path = file; line = l; byte_offset = len before } s)
SendsAll-first before file l ls s h = record {
  same_lines = ap (◌∷◌ l) h.same_lines;
  at_end = h.at_end;
  complete = h.complete;
  in_place =
      (record { before = before; after = unlines ls; parts = refl; offset = refl }, h.in_place);
}

send_lines-SendsAll :
    (takes : ℕ) (file before : Text) (ls : List Text)
    → length ls ≤ takes
    → SendsAll (before ++ unlines ls) file ls (send_lines takes file (len before) ls)
unfolding send_lines unlines
send_lines-SendsAll takes file before [] h = record {
  same_lines = refl;
  at_end = ap len (sym (append-nil before));
  complete = refl;
  in_place = tt;
}
send_lines-SendsAll zero file before (l ∷ ls) h = absurd (omega arith)
send_lines-SendsAll (suc takes) file before (l ∷ ls) h =
    let further : Text = before ++ (l ++ 10 ∷ []) in
    let rest = send_lines-SendsAll takes file further ls (omega arith) in
    let regroup : further ++ unlines ls ≡ before ++ (l ++ 10 ∷ unlines ls) =
      append_assoc before (l ++ 10 ∷ []) (unlines ls)
      ∙ ap (λ t. before ++ t) (append_assoc l (10 ∷ []) (unlines ls)) in
    let place : len further ≡ len before + (len l + 1) =
      len-append before (l ++ 10 ∷ []) ∙ ap (λ n. len before + n) (len-append l (10 ∷ [])) in
    let moved =
      subst (λ n. SendsAll (further ++ unlines ls) file ls (send_lines takes file n ls)) place
        rest in
    let later = send_lines takes file (len before + (len l + 1)) ls in
    SendsAll-first before file l ls later (subst (λ c. SendsAll c file ls later) regroup moved)

-- What a round that took every new line leaves behind.
pub record Resumed (path content : Text) (ms : List Text) (st : TailerState) (ls : List TailLine)
    : Type 0 where
  pub all_lines : map TailLine.line ls ≡ ms
  pub position : lookup path st.positions ≡ some (len content)
  pub in_place : All (StandsIn content) ls

pub lookup-insert_self : (k : Text) (v : ℕ) (m : Dict ℕ) → lookup k (insert k v m) ≡ some v
lookup-insert_self k v m =
    lookup-insert k k v m ∙ ap (λ b. if b then some v else lookup k m) (text_eq_self k)

-- On a file of lines that each end in a newline and hold no carriage return, with a receiver that
-- takes them all, the first read emits exactly the lines, each with the byte offset at which it
-- stands, and records the file's length as the position.
pub read_existing_lines-Resumed :
    (takes : ℕ) (path : Text) (ls : List Text) (st : TailerState)
    → All IsLine ls
    → length ls ≤ takes
    → Resumed path
        (unlines ls)
        ls
        (read_existing_lines takes path (unlines ls) st).0
        (read_existing_lines takes path (unlines ls) st).1
unfolding read_existing_lines
read_existing_lines-Resumed takes path ls st h k =
    let done = send_lines-SendsAll takes path [] ls k in
    let same = lines-unlines ls h in
    subst
      (λ found.
        Resumed path (unlines ls) ls
          (record st {
            positions = insert path (send_lines takes path 0 found).next_offset st.positions;
          })
          (send_lines takes path 0 found).sent)
      (sym same)
      record {
        all_lines = done.same_lines;
        position = lookup-insert_self path _ st.positions ∙ ap some done.at_end;
        in_place = done.in_place;
      }

len-zero : (s : Text) → len s ≡ 0 → s ≡ []
len-zero [] h = refl
len-zero (c ∷ s) h = absurd (ground arith)

pub read_from-append : (a b : Text) → read_from (len a) (a ++ b) ≡ some b
unfolding read_from
read_from-append a b = elim (Bool-cases (leb (len (a ++ b)) (len a))) [
  | inl e ↦
      let nothing : b ≡ [] = len-zero b (omega (arith, leb→le _ _ e, len-append a b)) in
      rw (e, nothing) refl
  | inr e ↦ rw (e, split_at_byte-append a b) refl
]

appended-Resumed :
    (takes : ℕ) (path before : Text) (ms : List Text) (st : TailerState)
    → All IsLine ms
    → length ms ≤ takes
    → Resumed path
        (before ++ unlines ms)
        ms
        (read_appended takes path (len before) (some (unlines ms)) st).state
        (read_appended takes path (len before) (some (unlines ms)) st).emitted
      × ((read_appended takes path (len before) (some (unlines ms)) st).next ≡ goes_on)
unfolding read_appended
appended-Resumed takes path before ms st h k =
    let done = send_lines-SendsAll takes path before ms k in
    let same = lines-unlines ms h in
    rw (same, done.complete)
      (
        record {
          all_lines = done.same_lines;
          position = lookup-insert_self path _ st.positions ∙ ap some done.at_end;
          in_place = done.in_place;
        },
        refl,
      )

-- When a tailed file was read up to the end of `before` and now holds further lines that each end
-- in a newline and hold no carriage return, and the receiver takes them all, the handling of its
-- data event emits exactly those lines, each with the byte offset at which it stands in the file,
-- and leaves the position at the end of the file.
pub handle_path-Resumed :
    (takes : ℕ) (path file_name before : Text) (ms : List Text) (is_watched : Bool)
    (st : TailerState)
    → mem_text path st.tailed_files ≡ true
    → lookup path st.positions ≡ some (len before)
    → All IsLine ms
    → length ms ≤ takes
    → let seen : Seen = record {
      path = path;
      file_name = some file_name;
      content = some (before ++ unlines ms);
      is_watched = is_watched;
    } in
      let round = handle_path takes modify_data seen st in
      Resumed path (before ++ unlines ms) ms round.state round.emitted × (round.next ≡ goes_on)
unfolding handle_path react on_modified on_position
handle_path-Resumed takes path file_name before ms is_watched st tailed at h k =
    rw (tailed, at, read_from-append before (unlines ms))
      (appended-Resumed takes path before ms st h k)
