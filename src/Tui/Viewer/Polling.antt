-- ===== src/Tui/Viewer/Polling.antt =====
-- What a poll brings to the screen, over a source that keeps its entries newest first.
use mathlib.Core.Path.{subst}
use sentinalysis.Base.{
  All, List, [], ap, arith, false, length, min, refl, some, suc, sym, take, take_of_length-le, true,
  zero, ℕ, ◌++◌, ◌+◌, ◌∙◌, ◌∷◌, ◌≡◌, ◌≤◌,
}
use sentinalysis.Base.Dict.{lookup}
use sentinalysis.Base.Results.{ok}
use sentinalysis.Tui.Data.{
  DisplayLogEntry, MemoryLogDataSource, Source, is_newer, keep_newer, memory_source, or_none,
}
use sentinalysis.Tui.Viewer.Selection.{lookup-insert_self}
use sentinalysis.Tui.Viewer.{
  LogViewer, check_new_entries, first_of, max_entries_per_host, new_entries_per_poll, poll_since,
  polled, prepended,
}

-- Every entry is newer than those behind it.
abbrev pub IsAfter : DisplayLogEntry → DisplayLogEntry → Type 0
IsAfter e d = is_newer d.timestamp d.id e ≡ true

abbrev pub Descending : List DisplayLogEntry → Type 0
Descending [] = Unit
Descending (e ∷ es) = All (IsAfter e) es × Descending es

is_newer-asym : (e d : DisplayLogEntry) → IsAfter e d → is_newer e.timestamp e.id d ≡ false
unfolding is_newer
is_newer-asym e d h = ground arith

is_newer_irrefl : (e : DisplayLogEntry) → is_newer e.timestamp e.id e ≡ false
unfolding is_newer
is_newer_irrefl e = ground arith

keep_newer-older :
    (newest : DisplayLogEntry) (old : List DisplayLogEntry)
    → All (IsAfter newest) old
    → keep_newer newest.timestamp newest.id old ≡ []
unfolding keep_newer
keep_newer-older newest [] h = refl
keep_newer-older newest (e ∷ old) h =
    let rest = keep_newer-older newest old h.1 in rw (is_newer-asym newest e h.0) rest

keep_newer_self :
    (newest : DisplayLogEntry) (old : List DisplayLogEntry)
    → All (IsAfter newest) old
    → keep_newer newest.timestamp newest.id (newest ∷ old) ≡ []
unfolding keep_newer
keep_newer_self newest old h = rw (is_newer_irrefl newest) (keep_newer-older newest old h)

All-member :
    (P : DisplayLogEntry → Type 0) (fresh : List DisplayLogEntry) (newest : DisplayLogEntry)
    (old : List DisplayLogEntry)
    → All P (fresh ++ newest ∷ old)
    → P newest
All-member P [] newest old h = h.0
All-member P (e ∷ fresh) newest old h = All-member P fresh newest old h.1

-- What is newer than an entry is what stands before it.
pub keep_newer-append :
    (fresh : List DisplayLogEntry) (newest : DisplayLogEntry) (old : List DisplayLogEntry)
    → Descending (fresh ++ newest ∷ old)
    → keep_newer newest.timestamp newest.id (fresh ++ newest ∷ old) ≡ fresh
unfolding keep_newer
keep_newer-append [] newest old h = keep_newer_self newest old h.0
keep_newer-append (e ∷ fresh) newest old h =
    let rest = keep_newer-append fresh newest old h.1 in
    let here = All-member (IsAfter e) fresh newest old h.0 in rw (here, rest) refl

polled-brought :
    (v : LogViewer) (source : Source) (brought screen : List DisplayLogEntry)
    → lookup source.name v.log_entries ≡ some screen
    → length screen ≤ max_entries_per_host
    → lookup source.name (polled v source (ok brought)).0.log_entries
      ≡ some (take max_entries_per_host (brought ++ screen))
polled-brought v source [] screen found short =
    found ∙ ap some (sym (take_of_length-le max_entries_per_host screen short))
polled-brought v source (e ∷ es) screen found short =
    ap (λ shown. lookup source.name (prepended v source (e ∷ es) shown).log_entries) found
    ∙ lookup-insert_self source.name (take max_entries_per_host (e ∷ es ++ screen)) v.log_entries

-- Two cuts are one, at the lower place.
take-take : (n k j : ℕ) (l : List DisplayLogEntry) → j ≡ min n k → take n (take k l) ≡ take j l
take-take zero k zero l h = refl
take-take zero k (suc j) l h = absurd (omega arith)
take-take (suc n) zero zero l h = refl
take-take (suc n) zero (suc j) l h = absurd (omega arith)
take-take (suc n) (suc k) zero l h = absurd (omega arith)
take-take (suc n) (suc k) (suc j) [] h = refl
take-take (suc n) (suc k) (suc j) (e ∷ l) h = ap (λ r. e ∷ r) (take-take n k j l (omega arith))

take-append_take :
    (n k j : ℕ) (l r : List DisplayLogEntry)
    → j ≡ min n (length l + k)
    → take n (l ++ take k r) ≡ take j (l ++ r)
take-append_take n k j [] r h = take-take n k j r (omega arith)
take-append_take zero k zero (e ∷ l) r h = refl
take-append_take zero k (suc j) (e ∷ l) r h = absurd (omega arith)
take-append_take (suc n) k zero (e ∷ l) r h = absurd (omega arith)
take-append_take (suc n) k (suc j) (e ∷ l) r h =
    ap (λ s. e ∷ s) (take-append_take n k j l r (omega arith))

-- One poll after the other, over a source that stays as it is.
abbrev pub polls : MemoryLogDataSource → Source → ℕ → LogViewer → LogViewer
polls m source zero v = v
polls m source (suc n) v = polls m source n (check_new_entries memory_source m v source).0

polls-still :
    (m : MemoryLogDataSource) (source : Source) (n : ℕ) (v : LogViewer)
    → check_new_entries memory_source m v source ≡ (v, ok tt)
    → polls m source n v ≡ v
polls-still m source zero v still = refl
polls-still m source (suc n) v still =
    ap (λ q. polls m source n q.0) still ∙ polls-still m source n v still

module _ (m : MemoryLogDataSource) (v : LogViewer) (source : Source) (fresh : List DisplayLogEntry)
    (newest : DisplayLogEntry) (old shown : List DisplayLogEntry)
    (stored : lookup source.name m.entries ≡ some (fresh ++ newest ∷ old))
    (descending : Descending (fresh ++ newest ∷ old))
    (on_screen : lookup source.name v.log_entries ≡ some (newest ∷ shown))
    (short : length (newest ∷ shown) ≤ max_entries_per_host) where
  answer_of_source :
      memory_source.newer m source newest.timestamp newest.id new_entries_per_poll
      ≡ ok (take new_entries_per_poll fresh)
  unfolding memory_source
  answer_of_source =
      ap (λ es. ok (take new_entries_per_poll (keep_newer newest.timestamp newest.id (or_none es))))
        stored
      ∙ ap (λ es. ok (take new_entries_per_poll es)) (keep_newer-append fresh newest old descending)

  -- A poll puts the first 100 of the newer entries in front of those on screen.
  pub check_new_entries-fresh :
      lookup source.name (check_new_entries memory_source m v source).0.log_entries
      ≡ some (take max_entries_per_host (take new_entries_per_poll fresh ++ newest ∷ shown))
  unfolding check_new_entries
  check_new_entries-fresh =
      ap
        (λ screen.
          lookup source.name (poll_since memory_source m v source (first_of screen)).0.log_entries)
        on_screen
      ∙ ap (λ answer. lookup source.name (polled v source answer).0.log_entries) answer_of_source
      ∙ polled-brought v source (take new_entries_per_poll fresh) (newest ∷ shown) on_screen short

  -- When at most 100 entries are newer than the newest one on screen, and those on screen are a
  -- prefix of the rest, a poll over the entries in memory leaves on screen a prefix of all entries,
  -- newest first.
  pub check_new_entries-up_to_date :
      (k : ℕ)
      → length fresh ≤ new_entries_per_poll
      → newest ∷ shown ≡ take k (newest ∷ old)
      → lookup source.name (check_new_entries memory_source m v source).0.log_entries
        ≡ some (take (min max_entries_per_host (length fresh + k)) (fresh ++ newest ∷ old))
  check_new_entries-up_to_date k few prefix =
      check_new_entries-fresh
      ∙ ap (λ l. some (take max_entries_per_host (l ++ newest ∷ shown)))
          (take_of_length-le new_entries_per_poll fresh few)
      ∙ ap (λ l. some (take max_entries_per_host (fresh ++ l))) prefix
      ∙ ap some (take-append_take max_entries_per_host k _ fresh (newest ∷ old) refl)

  -- A second poll finds nothing newer than the newest entry.
  pub check_new_entries-skips :
      (e : DisplayLogEntry) (rest : List DisplayLogEntry)
      → fresh ≡ e ∷ rest
      → check_new_entries memory_source m (check_new_entries memory_source m v source).0 source
        ≡ ((check_new_entries memory_source m v source).0, ok tt)
  check_new_entries-skips e rest some_fresh =
      let after = (check_new_entries memory_source m v source).0 in
      let whole : fresh ++ newest ∷ old ≡ e ∷ (rest ++ newest ∷ old) =
        ap (λ l. l ++ newest ∷ old) some_fresh in
      let first : first_of (lookup source.name after.log_entries) ≡ some e =
        ap first_of check_new_entries-fresh
        ∙ ap
            (λ l.
              first_of
                (some (take max_entries_per_host (take new_entries_per_poll l ++ newest ∷ shown))))
            some_fresh in
      let ordered : Descending (e ∷ (rest ++ newest ∷ old)) = subst Descending whole descending in
      let nothing : memory_source.newer m source e.timestamp e.id new_entries_per_poll ≡ ok [] =
        unfold memory_source in
        ap (λ es. ok (take new_entries_per_poll (keep_newer e.timestamp e.id (or_none es)))) stored
        ∙ ap (λ es. ok (take new_entries_per_poll (keep_newer e.timestamp e.id es))) whole
        ∙ ap (λ es. ok (take new_entries_per_poll es))
            (keep_newer-append [] e (rest ++ newest ∷ old) ordered) in
      unfold check_new_entries in
      ap (poll_since memory_source m after source) first ∙ ap (polled after source) nothing

  -- However many polls follow each other over the entries in memory, at least one of which is newer
  -- than the newest one on screen, the screen shows only the 100 newest of the newer ones in front
  -- of the old ones: any others between them are never shown.
  pub check_new_entries-misses :
      (n : ℕ) (e : DisplayLogEntry) (rest : List DisplayLogEntry)
      → fresh ≡ e ∷ rest
      → lookup source.name (polls m source (suc n) v).log_entries
        ≡ some (take max_entries_per_host (take new_entries_per_poll fresh ++ newest ∷ shown))
  check_new_entries-misses n e rest some_fresh =
      ap (λ (after : LogViewer). lookup source.name after.log_entries)
        (polls-still m source n (check_new_entries memory_source m v source).0
          (check_new_entries-skips e rest some_fresh))
      ∙ check_new_entries-fresh
