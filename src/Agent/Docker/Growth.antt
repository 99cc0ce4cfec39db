-- ===== src/Agent/Docker/Growth.antt =====
-- Reads of a container log that grows by complete lines: `read_new_lines` of
-- src/agent/docker_logs.rs, called after each growth.
use sentinalysis.Base.{
  All, Bool, true, Bool-cases, Option, none, if◌then◌else◌, is_nil, some, List, Text, [], ap, arith,
  false, inl, inr, len, len-append, ltb, refl, sym, ℕ, ◌++◌, ◌+◌, ◌==◌, ◌∙◌, ◌∷◌, ◌≡◌,
}
use sentinalysis.Base.Int.{ℤ}
use sentinalysis.LogScanner.Tailer.State.{lines, read_from}
use sentinalysis.LogScanner.Tailer.State.Lines.{IsLine, lines-unlines, unlines}
use sentinalysis.LogScanner.Tailer.State.Resume.{read_from-append}
use sentinalysis.Agent.Docker.{
  Decoder, DockerLogLine, Envelope, cons_some, envelope_line, line_of, parse_envelope, LogFile,
  Tailed, parse_all, read_new_lines, read_text,
}

-- A file that nobody writes while it is read.
unfoldable pub quiet : Text → LogFile
unfolding read_from
quiet content = record { size = len content; read_from = λ n. read_from n content }

-- Lines that are appended, and the clock when they are read.
pub record Appended : Type 0 where
  pub now_ms : ℤ
  pub added : List Text

abbrev then_read : List DockerLogLine → Tailed × List DockerLogLine → Tailed × List DockerLogLine
then_read first (tailed, later) = (tailed, first ++ later)

-- A read after each growth of the file.
unfoldable pub follow : Decoder → Text → List Appended → Tailed → Tailed × List DockerLogLine
unfolding read_new_lines unlines
follow d content [] tailed = (tailed, [])
follow d content (a ∷ more) tailed =
    let grown = content ++ unlines a.added in
    let read = read_new_lines d a.now_ms (some (quiet grown)) tailed in
    then_read read.1 (follow d grown more read.0)

-- The file in the end.
unfoldable pub all_added : Text → List Appended → Text
unfolding unlines
all_added content [] = content
all_added content (a ∷ more) = all_added (content ++ unlines a.added) more

-- What one line stands for: nothing if it is no envelope or its log is empty, and one line else.
abbrev pub line_read : Decoder → ℤ → Option Envelope → List DockerLogLine
line_read d now_ms none = []
line_read d now_ms (some envelope) =
    if is_nil envelope.log then [] else line_of d now_ms envelope ∷ []

-- What the lines stand for, in their order.
unfoldable pub lines_read : Decoder → ℤ → List Text → List DockerLogLine
unfolding line_of
lines_read d now_ms [] = []
lines_read d now_ms (raw ∷ raws) = line_read d now_ms (d.from_str raw) ++ lines_read d now_ms raws

unfoldable pub parsed_once : Decoder → List Appended → List DockerLogLine
unfolding lines_read
parsed_once d [] = []
parsed_once d (a ∷ more) = lines_read d a.now_ms a.added ++ parsed_once d more

cons_some-pick :
    (b : Bool) (l : DockerLogLine) (rest : List DockerLogLine)
    → cons_some (if b then none else some l) rest ≡ (if b then [] else l ∷ []) ++ rest
cons_some-pick true l rest = refl
cons_some-pick false l rest = refl

cons_some-line_read :
    (d : Decoder) (now_ms : ℤ) (envelope : Option Envelope) (rest : List DockerLogLine)
    → cons_some (envelope_line d now_ms envelope) rest ≡ line_read d now_ms envelope ++ rest
cons_some-line_read d now_ms none rest = refl
cons_some-line_read d now_ms (some envelope) rest =
    cons_some-pick (is_nil envelope.log) (line_of d now_ms envelope) rest

-- The filter of the code yields what each line stands for.
parse_all-lines_read :
    (d : Decoder) (now_ms : ℤ) (raws : List Text)
    → parse_all d now_ms raws ≡ lines_read d now_ms raws
unfolding parse_all lines_read parse_envelope
parse_all-lines_read d now_ms [] = refl
parse_all-lines_read d now_ms (raw ∷ raws) =
    cons_some-line_read d now_ms (d.from_str raw) (parse_all d now_ms raws)
    ∙ ap (λ rest. line_read d now_ms (d.from_str raw) ++ rest) (parse_all-lines_read d now_ms raws)

len-zero : (s : Text) → len s ≡ 0 → s ≡ []
len-zero [] h = refl
len-zero (c ∷ s) h = absurd (ground arith)

-- Lines of no text are no lines.
none-unlines : (ms : List Text) → All IsLine ms → unlines ms ≡ [] → ms ≡ []
unfolding lines
none-unlines ms h e = sym (lines-unlines ms h) ∙ ap lines e

abbrev at_offset : ℕ → Tailed → Tailed
at_offset n tailed = record tailed { offset = n }

read_new_lines-quiet :
    (d : Decoder) (now_ms : ℤ) (before : Text) (ms : List Text) (tailed : Tailed)
    → All IsLine ms
    → tailed.offset ≡ len before
    → read_new_lines d now_ms (some (quiet (before ++ unlines ms))) tailed
      ≡ (record tailed { offset = len (before ++ unlines ms) }, parse_all d now_ms ms)
unfolding read_new_lines quiet unlines parse_all read_from lines
read_new_lines-quiet d now_ms before ms tailed h at =
    let grown : len (before ++ unlines ms) ≡ len before + len (unlines ms) =
      len-append before (unlines ms) in
    let kept : ltb (len (before ++ unlines ms)) tailed.offset ≡ false =
      elim (Bool-cases (ltb (len (before ++ unlines ms)) tailed.offset)) [
        | inl e ↦ absurd (ground arith)
        | inr e ↦ e
      ] in
    elim (Bool-cases (len (before ++ unlines ms) == tailed.offset)) [
      | inl e ↦
          let nothing : ms ≡ [] = none-unlines ms h (len-zero (unlines ms) (ground arith)) in
          let same : tailed.offset ≡ len (before ++ unlines ms) = ground arith in
          rw (kept, e)
            (ap (λ n. (at_offset n tailed, [])) same
              ∙ ap (λ l. (at_offset (len (before ++ unlines ms)) tailed, parse_all d now_ms l))
                  (sym nothing))
      | inr e ↦
          rw (kept, e)
            (ap (read_text d now_ms (len (before ++ unlines ms)) tailed) (
                ap (λ n. read_from n (before ++ unlines ms)) at
                ∙ read_from-append before (unlines ms))
              ∙ ap (λ l. (at_offset (len (before ++ unlines ms)) tailed, parse_all d now_ms l))
                  (lines-unlines ms h))
    ]

unfoldable pub IsWhole : Appended → Type 0
IsWhole a = All IsLine a.added

-- A container log is read after each time complete lines were appended, by a tail that starts at its
-- end. Every appended line that the decoder takes for an envelope with a log that is not empty yields
-- one line, in the order of the file and with the clock of its read; the other lines yield none; and
-- the offset is left at the end of the file. No one writes during a read, and no line holds a
-- carriage return.
pub follow-parsed_once :
    (d : Decoder) (content : Text) (growth : List Appended) (tailed : Tailed)
    → All IsWhole growth
    → tailed.offset ≡ len content
    → follow d content growth tailed
      ≡ (record tailed { offset = len (all_added content growth) }, parsed_once d growth)
unfolding follow all_added parsed_once IsWhole
follow-parsed_once d content [] tailed h at = ap (λ n. (at_offset n tailed, [])) at
follow-parsed_once d content (a ∷ more) tailed h at =
    let grown : Text = content ++ unlines a.added in
    ap (λ read. then_read read.1 (follow d grown more read.0))
      (read_new_lines-quiet d a.now_ms content a.added tailed h.0 at)
    ∙ ap (then_read (parse_all d a.now_ms a.added))
        (follow-parsed_once d grown more (at_offset (len grown) tailed) h.1 refl)
    ∙ ap
        (λ first.
          then_read first (at_offset (len (all_added grown more)) tailed, parsed_once d more))
        (parse_all-lines_read d a.now_ms a.added)
