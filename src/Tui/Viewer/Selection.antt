-- ===== src/Tui/Viewer/Selection.antt =====
-- The selected rows and the cached entries under every action.
use sentinalysis.Base.{
  Bool-cases, List, Option, Text, ap, arith, if◌then◌else◌, inl, inr, length, none, some, sym,
  text_eq, text_eq_self, ℕ, ◌-◌, ◌∙◌, ◌≡◌, ◌≤◌,
}
use sentinalysis.Base.Int.{ℤ}
use sentinalysis.Base.Dict.{Dict, insert, lookup, lookup-insert}
use sentinalysis.Base.Results.{ok}
use sentinalysis.Tui.Data.{DisplayLogEntry, LogDataSource, Source}
use sentinalysis.Tui.Viewer.{
  Action, LogViewer, PanelFocus, clear_filter, filter_backspace, filter_input, handle_filter_action,
  host_list, log_list, log_list_max, max_entries_per_host, move_in, moved, new, refresh,
  toggle_filter, total_host_list_len,
}
use sentinalysis.Tui.Viewer.Actions.{paged_down, paged_up}

-- A row is selected, and it is at most the last one, or row 0 of a panel without rows, whose `last`
-- is 0.
abbrev pub InPanel : ℕ → Option ℕ → Type 0
InPanel last none = ⊥
InPanel last (some i) = i ≤ last

abbrev pub AreShort : Dict (List DisplayLogEntry) → Type 0
AreShort entries =
    (name : Text) (es : List DisplayLogEntry)
    → lookup name entries ≡ some es
    → length es ≤ max_entries_per_host

pub record IsValid (v : LogViewer) : Type 0 where
  pub host_in : InPanel (total_host_list_len v - 1) v.host_state
  pub log_in : InPanel (log_list_max v) v.log_state
  pub short : AreShort v.log_entries

-- `recent` returns no more than it is asked for.
abbrev pub Limited : {W : Type 0} → LogDataSource W → Type 0
Limited {W} data_source =
    (w : W) (source : Source) (limit : ℕ) (es : List DisplayLogEntry)
    → data_source.recent w source limit ≡ ok es
    → length es ≤ limit

pub new-IsValid : IsValid new
unfolding log_list_max total_host_list_len lookup
new-IsValid = record {
  host_in = omega arith;
  log_in = omega arith;
  short = λ name es h. absurd (cc);
}

pub InPanel-moved :
    (delta : ℤ) (last : ℕ) (o : Option ℕ) → InPanel last o → InPanel last (moved delta last o)
InPanel-moved delta last none h = h
InPanel-moved delta last (some i) h = omega arith

pub InPanel-paged_up : (last : ℕ) (o : Option ℕ) → InPanel last o → InPanel last (paged_up o)
InPanel-paged_up last none h = h
InPanel-paged_up last (some i) h = omega (arith, h)

pub InPanel-paged_down :
    (last : ℕ) (o : Option ℕ) → InPanel last o → InPanel last (paged_down last o)
InPanel-paged_down last none h = h
InPanel-paged_down last (some i) h = omega arith

pub InPanel-le : (last more : ℕ) (o : Option ℕ) → last ≤ more → InPanel last o → InPanel more o
InPanel-le last more none le h = h
InPanel-le last more (some i) le h = omega (arith, h, le)

pub AreShort-insert :
    (name : Text) (es : List DisplayLogEntry) (entries : Dict (List DisplayLogEntry))
    → length es ≤ max_entries_per_host
    → AreShort entries
    → AreShort (insert name es entries)
AreShort-insert name es entries few short other fs h =
    let read = sym (lookup-insert name other es entries) ∙ h in
    elim (Bool-cases (text_eq name other)) [
      | inl e ↦
          let same : some es ≡ some fs =
            sym (ap (λ b. if b then some es else lookup other entries) e) ∙ read in
          let equal : es ≡ fs = cc in omega (arith, ap length equal, few)
      | inr e ↦
          short other fs (sym (ap (λ b. if b then some es else lookup other entries) e) ∙ read)
    ]

pub lookup-insert_self :
    (name : Text) (es : List DisplayLogEntry) (entries : Dict (List DisplayLogEntry))
    → lookup name (insert name es entries) ≡ some es
lookup-insert_self name es entries =
    lookup-insert name name es entries
    ∙ ap (λ b. if b then some es else lookup name entries) (text_eq_self name)

pub move_in-IsValid :
    (v : LogViewer) (delta : ℤ) (focus : PanelFocus) → IsValid v → IsValid (move_in v delta focus)
unfolding log_list_max total_host_list_len
move_in-IsValid v delta host_list h = record {
  host_in = InPanel-moved delta (total_host_list_len v - 1) v.host_state h.host_in;
  log_in = h.log_in;
  short = h.short;
}
move_in-IsValid v delta log_list h = record {
  host_in = h.host_in;
  log_in = InPanel-moved delta (log_list_max v) v.log_state h.log_in;
  short = h.short;
}

pub handle_filter_action-IsValid :
    (v : LogViewer) (action : Action) → IsValid v → IsValid (handle_filter_action v action)
unfolding handle_filter_action log_list_max total_host_list_len
handle_filter_action-IsValid v (filter_input c) h = record {
  host_in = h.host_in;
  log_in = h.log_in;
  short = h.short;
}
handle_filter_action-IsValid v filter_backspace h = record {
  host_in = h.host_in;
  log_in = h.log_in;
  short = h.short;
}
handle_filter_action-IsValid v clear_filter h = record {
  host_in = h.host_in;
  log_in = h.log_in;
  short = h.short;
}
handle_filter_action-IsValid v toggle_filter h = record {
  host_in = h.host_in;
  log_in = h.log_in;
  short = h.short;
}
handle_filter_action-IsValid v refresh h = record {
  host_in = h.host_in;
  log_in = h.log_in;
  short = h.short;
}
handle_filter_action-IsValid v _ h = h
