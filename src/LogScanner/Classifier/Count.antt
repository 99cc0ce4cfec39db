-- ===== src/LogScanner/Classifier/Count.antt =====
-- How many categories a report can hold.
use sentinalysis.Base.{
  List, [], arith, false, if◌then◌else◌, length, refl, suc, true, ℕ, ◌+◌, ◌∷◌, ◌≡◌, ◌≤◌,
}
use sentinalysis.LogScanner.Classifier.{has}
use sentinalysis.LogScanner.Classifier.Threat.{
  ThreatCategory, brute_force, category_eq, command_injection, path_traversal, scanner,
  sensitive_file, sql_injection, suspicious_pattern, tls_error, xss,
}
use sentinalysis.LogScanner.Classifier.Categories.{is_distinct}

count : ThreatCategory → List ThreatCategory → ℕ
unfolding category_eq
count c [] = 0
count c (x ∷ xs) = let rest = count c xs in if category_eq x c then suc rest else rest

count-eq-zero : (c : ThreatCategory) (xs : List ThreatCategory) → has c xs ≡ false → count c xs ≡ 0
unfolding count has category_eq
count-eq-zero c [] h = refl
count-eq-zero c (x ∷ xs) h = ground (arith, count-eq-zero c xs)

count_congr :
    (c d : ThreatCategory) (xs : List ThreatCategory)
    → category_eq c d ≡ true
    → count c xs ≡ count d xs
unfolding count category_eq
count_congr c d [] h = refl
count_congr c d (x ∷ xs) h = ground (arith, count_congr c d xs)

count-le-one :
    (c : ThreatCategory) (xs : List ThreatCategory) → is_distinct xs ≡ true → count c xs ≤ 1
unfolding count is_distinct category_eq
count-le-one c [] h = omega arith
count-le-one c (x ∷ xs) h =
    ground (arith, count-le-one c xs, count-eq-zero x xs, count_congr x c xs)

length-count :
    (xs : List ThreatCategory)
    → length xs
      ≡ count sql_injection xs
        + count xss xs
        + count path_traversal xs
        + count command_injection xs
        + count brute_force xs
        + count scanner xs
        + count sensitive_file xs
        + count tls_error xs
        + count suspicious_pattern xs
unfolding count category_eq
length-count [] = omega arith
length-count (sql_injection ∷ xs) = omega (arith, length-count xs)
length-count (xss ∷ xs) = omega (arith, length-count xs)
length-count (path_traversal ∷ xs) = omega (arith, length-count xs)
length-count (command_injection ∷ xs) = omega (arith, length-count xs)
length-count (brute_force ∷ xs) = omega (arith, length-count xs)
length-count (scanner ∷ xs) = omega (arith, length-count xs)
length-count (sensitive_file ∷ xs) = omega (arith, length-count xs)
length-count (tls_error ∷ xs) = omega (arith, length-count xs)
length-count (suspicious_pattern ∷ xs) = omega (arith, length-count xs)

pub is_distinct-length : (xs : List ThreatCategory) → is_distinct xs ≡ true → length xs ≤ 9
is_distinct-length xs h = omega (
  arith,
  length-count xs,
  count-le-one sql_injection xs h,
  count-le-one xss xs h,
  count-le-one path_traversal xs h,
  count-le-one command_injection xs h,
  count-le-one brute_force xs h,
  count-le-one scanner xs h,
  count-le-one sensitive_file xs h,
  count-le-one tls_error xs h,
  count-le-one suspicious_pattern xs h,
)
