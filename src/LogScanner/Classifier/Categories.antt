-- ===== src/LogScanner/Classifier/Categories.antt =====
-- Which categories the classifier reports: those of the rules that match and of the heuristics.
use sentinalysis.Base.{
  Bool, Bool-cases, List, Option, Text, [], any, arith, false, inl, inr, not, refl, true, ◌&&◌,
  ◌++◌, ◌||◌, ◌∷◌, ◌≡◌,
}
use sentinalysis.LogScanner.Entry.{ParsedLogEntry}
use sentinalysis.LogScanner.Classifier.{
  add_category, add_if, brute_force_fires, classify_categories, error_response_fires, has, lowered,
  path_of, run_rules, text_of,
}
use sentinalysis.LogScanner.Classifier.Threat.{
  ThreatCategory, brute_force, category_eq, suspicious_pattern,
}
use sentinalysis.LogScanner.Classifier.Patterns.{PatternRule, matches, pattern_rules}

unfoldable pub is_distinct : List ThreatCategory → Bool
is_distinct [] = true
is_distinct (c ∷ cs) = not (has c cs) && is_distinct cs

-- Some rule of the category matches.
unfoldable pub some_rule : ThreatCategory → Text → Text → Option Text → List PatternRule → Bool
some_rule c t p ua rs = any (λ r. category_eq r.category c && matches r t p ua) rs

-- The category has a cause in the entry.
unfoldable pub is_caused : (Text → Text) → ParsedLogEntry → ThreatCategory → Bool
is_caused to_lowercase entry c =
    let t = text_of to_lowercase entry in
    let p = path_of to_lowercase entry in
    let ua = lowered to_lowercase entry.metadata.user_agent in
    some_rule c t p ua pattern_rules
    || (category_eq brute_force c && brute_force_fires t entry)
    || (category_eq suspicious_pattern c && error_response_fires entry.metadata p)

has-append :
    (c : ThreatCategory) (xs ys : List ThreatCategory) → has c (xs ++ ys) ≡ (has c xs || has c ys)
unfolding has
has-append c [] ys = refl
has-append c (x ∷ xs) ys = ground (arith, has-append c xs ys)

is_distinct-snoc :
    (d : ThreatCategory) (xs : List ThreatCategory)
    → has d xs ≡ false
    → is_distinct xs ≡ true
    → is_distinct (xs ++ d ∷ []) ≡ true
unfolding is_distinct has category_eq
is_distinct-snoc d [] h k = refl
is_distinct-snoc d (x ∷ xs) h k = ground (arith, is_distinct-snoc d xs, has-append x xs (d ∷ []))

is_distinct-add_if :
    (d : ThreatCategory) (fires : Bool) (xs : List ThreatCategory)
    → is_distinct xs ≡ true
    → is_distinct (add_if fires xs d) ≡ true
unfolding add_if add_category
is_distinct-add_if d false xs k = k
is_distinct-add_if d true xs k = elim (Bool-cases (has d xs)) [
  | inl e ↦ rw e k
  | inr e ↦ rw e (is_distinct-snoc d xs e k)
]

is_distinct-run_rules :
    (rs : List PatternRule) (t p : Text) (ua : Option Text) (xs : List ThreatCategory)
    → is_distinct xs ≡ true
    → is_distinct (run_rules rs t p ua xs) ≡ true
unfolding run_rules
is_distinct-run_rules [] t p ua xs k = k
is_distinct-run_rules (r ∷ rs) t p ua xs k =
    is_distinct-run_rules rs t p ua _ (is_distinct-add_if r.category (matches r t p ua) xs k)

-- No category is reported twice.
pub classify_categories-is_distinct :
    (to_lowercase : Text → Text) (entry : ParsedLogEntry)
    → is_distinct (classify_categories to_lowercase entry) ≡ true
unfolding classify_categories is_distinct
classify_categories-is_distinct to_lowercase entry =
    is_distinct-add_if _ _ _ (is_distinct-add_if _ _ _ (is_distinct-run_rules _ _ _ _ [] refl))
