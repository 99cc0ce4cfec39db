-- ===== src/LogScanner/Pipeline/Row.antt =====
-- The rows of the pipeline, against the checks of the hub that receives them.
use mathlib.Core.Path.{subst}
use sentinalysis.Base.{
  All, Bool-cases, List, Option, Text, [], ap, arith, inl, inr, is_nil, length, map, none, refl,
  some, text_eq, true, ℕ, ◌∷◌, ◌≡◌,
}
use sentinalysis.LogScanner.Classifier.{ThreatResult, classify, classify_categories}
use sentinalysis.LogScanner.Classifier.Count.{is_distinct-length}
use sentinalysis.LogScanner.Classifier.Threat.{
  ThreatCategory, ThreatLevel, brute_force, category_str, command_injection, critical_level, high,
  low, medium, none_level, path_traversal, scanner, sensitive_file, sql_injection,
  suspicious_pattern, threat_level_str, tls_error, xss,
}
use sentinalysis.LogScanner.Classifier.Categories.{classify_categories-is_distinct, is_distinct}
use sentinalysis.Base.Dict.{mem_text}
use sentinalysis.Base.Results.{Result, err, ok}
use sentinalysis.LogScanner.Entry.{
  InsertLogEntry, IpAddr, LogLevel, ParsedLogEntry, critical, debug, error, info, level_str,
  security, warn,
}
use sentinalysis.LogScanner.Tailer.State.{TailLine}
use sentinalysis.LogScanner.Filter.{
  FilterResult, aggregate, evaluate, exclude, flag_security, keep, text_or_empty,
}
use sentinalysis.LogScanner.Pipeline.{
  Parser, Pipeline, Services, finish, for_file, is_noise, noise_reason, process_line, row_of,
  run_parser, stored_level,
}
use sentinalysis.Hub.Validate.{is_some, level, threat_categories, threat_level}
use sentinalysis.Hub.Validate.Window.{IsToken, threat_categories_iff}

category_str-IsToken : (c : ThreatCategory) → IsToken (category_str c)
unfolding category_str
category_str-IsToken sql_injection = record {
  has_some = ground arith;
  fits = ground arith;
  chars = refl;
}
category_str-IsToken xss = record { has_some = ground arith; fits = ground arith; chars = refl }
category_str-IsToken path_traversal = record {
  has_some = ground arith;
  fits = ground arith;
  chars = refl;
}
category_str-IsToken command_injection = record {
  has_some = ground arith;
  fits = ground arith;
  chars = refl;
}
category_str-IsToken brute_force = record {
  has_some = ground arith;
  fits = ground arith;
  chars = refl;
}
category_str-IsToken scanner = record { has_some = ground arith; fits = ground arith; chars = refl }
category_str-IsToken sensitive_file = record {
  has_some = ground arith;
  fits = ground arith;
  chars = refl;
}
category_str-IsToken tls_error = record {
  has_some = ground arith;
  fits = ground arith;
  chars = refl;
}
category_str-IsToken suspicious_pattern = record {
  has_some = ground arith;
  fits = ground arith;
  chars = refl;
}

All-category_str : (cs : List ThreatCategory) → All IsToken (map category_str cs)
All-category_str [] = tt
All-category_str (c ∷ cs) = (category_str-IsToken c, All-category_str cs)

length-map_str : (cs : List ThreatCategory) → length (map category_str cs) ≡ length cs
length-map_str [] = refl
length-map_str (c ∷ cs) = omega (arith, length-map_str cs)

level-level_str : (l : LogLevel) → level (level_str l) ≡ ok tt
unfolding level level_str mem_text text_eq
level-level_str debug = refl
level-level_str info = refl
level-level_str warn = refl
level-level_str error = refl
level-level_str critical = refl
level-level_str security = refl

threat_level-threat_level_str : (l : ThreatLevel) → threat_level (threat_level_str l) ≡ ok tt
unfolding threat_level threat_level_str mem_text text_eq
threat_level-threat_level_str none_level = refl
threat_level-threat_level_str low = refl
threat_level-threat_level_str medium = refl
threat_level-threat_level_str high = refl
threat_level-threat_level_str critical_level = refl

noise_reason_given : (r : FilterResult) → is_noise r ≡ is_some (noise_reason r)
noise_reason_given keep = refl
noise_reason_given (exclude t) = refl
noise_reason_given (aggregate t) = refl
noise_reason_given (flag_security t) = refl

-- What the hub checks in a row, and how the parts of a row agree.
pub record IsSendable (row : InsertLogEntry) : Type 0 where
  pub level_ok : level row.level ≡ ok tt
  pub threat_level_ok : threat_level row.threat_level ≡ ok tt
  pub categories_ok : threat_categories row.threat_categories ≡ ok tt
  pub noise_hides : row.is_noise ≡ true → row.raw_line ≡ none
  pub noise_explained : row.is_noise ≡ is_some row.noise_reason

row_of-IsSendable :
    (show_ip : IpAddr → Text) (entry : ParsedLogEntry) (r : FilterResult) (threat : ThreatResult)
    (id : Option ℕ)
    → is_distinct threat.categories ≡ true
    → IsSendable (row_of show_ip entry r threat id)
unfolding row_of
row_of-IsSendable show_ip entry r threat id h = record {
  level_ok = level-level_str (stored_level entry.level r threat);
  threat_level_ok = threat_level-threat_level_str threat.threat_level;
  categories_ok = (threat_categories_iff (map category_str threat.categories)).1 (
    omega (arith, length-map_str threat.categories, is_distinct-length threat.categories h),
    All-category_str threat.categories,
  );
  noise_hides = λ n. rw n refl;
  noise_explained = noise_reason_given r;
}

classify-is_distinct :
    (to_lowercase : Text → Text) (entry : ParsedLogEntry)
    → is_distinct (classify to_lowercase entry).categories ≡ true
unfolding classify
classify-is_distinct to_lowercase entry =
    elim (Bool-cases (is_nil (classify_categories to_lowercase entry))) [
      | inl e ↦ rw e (classify_categories-is_distinct to_lowercase entry)
      | inr e ↦ rw e (classify_categories-is_distinct to_lowercase entry)
    ]

some_injective {ℓ} : {A : Type ℓ} {a b : A} → some a ≡ some b → a ≡ b
some_injective h = cc

ok_injective : {A : Type 0} (r : Result Text A) (a b : A) → r ≡ ok a → r ≡ ok b → a ≡ b
ok_injective r a b h k = cc

finish-IsSendable :
    {R : Type 0} (p : Pipeline R) (path : Text) (answer : Result Text (Option ParsedLogEntry))
    (s last : Services R) (row : InsertLogEntry)
    → finish p path answer s ≡ (last, ok (some row))
    → IsSendable row
unfolding finish
finish-IsSendable p path (err e) s last row h =
    let bad : err e ≡ ok (some row) = ap (λ r. r.1) h in absurd (cc)
finish-IsSendable p path (ok none) s last row h =
    let bad : ok none ≡ ok (some row) = ap (λ r. r.1) h in absurd (cc)
finish-IsSendable p path (ok (some entry)) s last row h =
    let done = finish p path (ok (some entry)) s in
    let same_row = some_injective (ok_injective done.1 _ (some row) refl (ap (λ r. r.1) h)) in
    subst IsSendable same_row (
      row_of-IsSendable p.show_ip entry (evaluate p.is_match p.filter entry)
        (classify p.to_lowercase entry) _ (classify-is_distinct p.to_lowercase entry))

run_parser-IsSendable :
    {R : Type 0} (p : Pipeline R) (line : TailLine) (parser : Option Parser) (s last : Services R)
    (row : InsertLogEntry)
    → run_parser p line parser s ≡ some (last, ok (some row))
    → IsSendable row
unfolding run_parser
run_parser-IsSendable p line none s last row h = absurd (cc)
run_parser-IsSendable p line (some parser) s last row h =
    finish-IsSendable p line.file_path _ s last row (some_injective h)

-- Every row that `process_line` returns passes the hub's checks of its level, its threat level and
-- its threat categories; a row of noise has no raw line, and a row has a reason for noise exactly
-- if it is noise.
pub process_line-IsSendable :
    {R : Type 0} (p : Pipeline R) (line : TailLine) (s last : Services R) (row : InsertLogEntry)
    → process_line p line s ≡ some (last, ok (some row))
    → IsSendable row
unfolding process_line
process_line-IsSendable p line s last row h =
    run_parser-IsSendable p line (for_file p.registry (text_or_empty (p.file_name line.file_path)))
      s last row h
