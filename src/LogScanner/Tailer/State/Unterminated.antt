-- ===== src/LogScanner/Tailer/State/Unterminated.antt =====
-- Reading a file whose last line has no newline yet.
use sentinalysis.Base.{
  All, Bool, Bool-cases, List, Text, [], ap, append_assoc, arith, inl, inr, is_ascii, len,
  len-append, length, length-append, map, refl, some, suc, sym, true, zero, ℕ, ◌++◌, ◌+◌, ◌<◌, ◌∙◌,
  ◌∷◌, ◌≡◌, ◌≤◌,
}
use sentinalysis.Base.Dict.{lookup, mem_text}
use sentinalysis.LogScanner.Tailer.State.Lines.{IsLine, lines-unlines, lines-unlines_last, unlines}
use sentinalysis.LogScanner.Tailer.State.{
  Seen, TailLine, TailerState, handle_path, lines, modify_data, on_modified, on_position, react,
  read_appended, read_existing_lines, read_from, send_lines,
}
use sentinalysis.LogScanner.Tailer.State.Resume.{lookup-insert_self, read_from-append}

send_lines_offset :
    (takes : ℕ) (file : Text) (n : ℕ) (ls : List Text)
    → length ls ≤ takes
    → (send_lines takes file n ls).next_offset ≡ n + len (unlines ls)
unfolding send_lines unlines
send_lines_offset takes file n [] h = omega arith
send_lines_offset zero file n (l ∷ ls) h = absurd (omega arith)
send_lines_offset (suc takes) file n (l ∷ ls) h = omega (
  arith,
  send_lines_offset takes file (n + (len l + 1)) ls (omega arith),
  len-append l (10 ∷ unlines ls),
)

unlines-last :
    (ls : List Text) (l : Text) → len (unlines (ls ++ l ∷ [])) ≡ suc (len (unlines ls ++ l))
unfolding unlines
unlines-last [] l = omega (arith, len-append l (10 ∷ []))
unlines-last (x ∷ ls) l = omega (
  arith,
  unlines-last ls l,
  len-append x (10 ∷ unlines (ls ++ l ∷ [])),
  len-append x (10 ∷ unlines ls),
  len-append (x ++ 10 ∷ unlines ls) l,
  len-append (unlines ls) l,
)

-- When the last line of the file has no newline yet, and no line holds a carriage return, the
-- first read records a position one byte past the end of the file.
pub read_existing_lines-past_end :
    (takes : ℕ) (path : Text) (ls : List Text) (c : ℕ) (l : Text) (st : TailerState)
    → All IsLine ls
    → IsLine (c ∷ l)
    → length ls < takes
    → lookup path (read_existing_lines takes path (unlines ls ++ c ∷ l) st).0.positions
      ≡ some (suc (len (unlines ls ++ c ∷ l)))
unfolding read_existing_lines
read_existing_lines-past_end takes path ls c l st h k few =
    let found = lines-unlines_last ls c l h k in
    lookup-insert_self path _ st.positions
    ∙ ap (λ f. some (send_lines takes path 0 f).next_offset) found
    ∙ ap some (
        send_lines_offset takes path 0 (ls ++ (c ∷ l) ∷ [])
          (omega (arith, length-append ls ((c ∷ l) ∷ []))))
    ∙ ap some (omega (arith, unlines-last ls (c ∷ l)))

read_from-past_end :
    (a : Text) (x : ℕ) (b : Text)
    → is_ascii x ≡ true
    → read_from (suc (len a)) (a ++ x ∷ b) ≡ some b
unfolding is_ascii
read_from-past_end a x b h =
    let one : len (a ++ x ∷ []) ≡ suc (len a) = ground (arith, len-append a (x ∷ [])) in
    let regroup : (a ++ x ∷ []) ++ b ≡ a ++ x ∷ b = append_assoc a (x ∷ []) b in
    sym (ap (λ n. read_from n (a ++ x ∷ b)) one)
    ∙ sym (ap (read_from (len (a ++ x ∷ []))) regroup)
    ∙ read_from-append (a ++ x ∷ []) b

send_lines-sent :
    (takes : ℕ) (file : Text) (n : ℕ) (ls : List Text)
    → length ls ≤ takes
    → map TailLine.line (send_lines takes file n ls).sent ≡ ls
unfolding send_lines
send_lines-sent takes file n [] h = refl
send_lines-sent zero file n (l ∷ ls) h = absurd (omega arith)
send_lines-sent (suc takes) file n (l ∷ ls) h =
    ap (◌∷◌ l) (send_lines-sent takes file (n + (len l + 1)) ls (omega arith))

-- A read from one byte past what was read before.
handle_path-one_past :
    (takes : ℕ) (path file_name a : Text) (x : ℕ) (b : Text) (is_watched : Bool) (st : TailerState)
    → mem_text path st.tailed_files ≡ true
    → lookup path st.positions ≡ some (suc (len a))
    → is_ascii x ≡ true
    → let seen : Seen = record {
      path = path;
      file_name = some file_name;
      content = some (a ++ x ∷ b);
      is_watched = is_watched;
    } in
      (handle_path takes modify_data seen st).emitted
      ≡ (send_lines takes path (suc (len a)) (lines b)).sent
unfolding handle_path react on_modified on_position read_appended
handle_path-one_past takes path file_name a x b is_watched st tailed at h =
    rw (tailed, at, read_from-past_end a x b h)
      (elim (Bool-cases (send_lines takes path (suc (len a)) (lines b)).all_sent) [
        | inl e ↦ rw e refl
        | inr e ↦ rw e refl
      ])

-- A tailed file is read when its last line has no newline yet; then the writer appends `x`, the rest
-- `m` of that line with its newline, and further lines `ms`. The data event emits the lines from `m`
-- on: the first appended character is in no emitted line. The lines hold no line end, `x` is an
-- ASCII character, and the receiver takes every line.
pub handle_path-past_end :
    (takes : ℕ) (path file_name : Text) (ls : List Text) (c : ℕ) (l : Text) (x : ℕ) (m : Text)
    (ms : List Text) (is_watched : Bool) (st : TailerState)
    → mem_text path st.tailed_files ≡ true
    → All IsLine ls
    → IsLine (c ∷ l)
    → All IsLine (m ∷ ms)
    → is_ascii x ≡ true
    → length ls < takes
    → length (m ∷ ms) ≤ takes
    → let before : Text = unlines ls ++ c ∷ l in
      let seen : Seen = record {
        path = path;
        file_name = some file_name;
        content = some (before ++ x ∷ unlines (m ∷ ms));
        is_watched = is_watched;
      } in
      map TailLine.line
        (handle_path takes modify_data seen (read_existing_lines takes path before st).0).emitted
      ≡ m ∷ ms
unfolding read_existing_lines
handle_path-past_end takes path file_name ls c l x m ms is_watched st tailed h k more ascii few
      fits =
    let before : Text = unlines ls ++ c ∷ l in
    ap (map TailLine.line) (
      handle_path-one_past takes path file_name before x (unlines (m ∷ ms)) is_watched
        (read_existing_lines takes path before st).0 tailed
        (read_existing_lines-past_end takes path ls c l st h k few) ascii)
    ∙ ap (λ found. map TailLine.line (send_lines takes path (suc (len before)) found).sent)
        (lines-unlines (m ∷ ms) more)
    ∙ send_lines-sent takes path (suc (len before)) (m ∷ ms) fits
