-- ===== src/LogScanner/Classifier/Level.antt =====
-- How the level and the confidence follow from the categories.
use sentinalysis.Base.{
  Bool-cases, List, [], any, arith, if◌then◌else◌, inl, inr, leb, length, length-append, max, refl,
  true, ℕ, ◌&&◌, ◌++◌, ◌+◌, ◌<◌, ◌==◌, ◌||◌, ◌∷◌, ◌≡◌, ◌≤◌,
}
use sentinalysis.LogScanner.Classifier.{calculate_confidence, calculate_threat_level}
use sentinalysis.LogScanner.Classifier.Threat.{
  ThreatCategory, brute_force, command_injection, is_strong, path_traversal, rank, scanner,
  sensitive_file, severity, sql_injection, suspicious_pattern, tls_error, xss,
}

-- The rank of the most severe category, 0 for none.
unfoldable pub peak : List ThreatCategory → ℕ
peak [] = 0
peak (c ∷ cs) = max (rank (severity c)) (peak cs)

severity_bounds : (c : ThreatCategory) → (1 ≤ rank (severity c)) × (rank (severity c) ≤ 4)
unfolding severity
severity_bounds sql_injection = ground arith
severity_bounds xss = ground arith
severity_bounds path_traversal = ground arith
severity_bounds command_injection = ground arith
severity_bounds brute_force = ground arith
severity_bounds scanner = ground arith
severity_bounds sensitive_file = ground arith
severity_bounds tls_error = ground arith
severity_bounds suspicious_pattern = ground arith

peak-le : (cs : List ThreatCategory) → peak cs ≤ 4
unfolding peak
peak-le [] = omega arith
peak-le (c ∷ cs) = omega (arith, peak-le cs, (severity_bounds c).1)

any_critical : (cs : List ThreatCategory) → any (λ c. rank (severity c) == 4) cs ≡ leb 4 (peak cs)
unfolding peak
any_critical [] = refl
any_critical (c ∷ cs) = ground (arith, any_critical cs, severity_bounds c)

any-leb :
    (k : ℕ) (cs : List ThreatCategory)
    → 0 < k
    → any (λ c. leb k (rank (severity c))) cs ≡ leb k (peak cs)
unfolding peak
any-leb k [] h = ground arith
any-leb k (c ∷ cs) h = ground (arith, any-leb k cs h)

peak-pos : (cs : List ThreatCategory) → 0 < length cs → 0 < peak cs
unfolding peak
peak-pos [] h = absurd (omega arith)
peak-pos (c ∷ cs) h = omega (arith, (severity_bounds c).0)

-- A second category raises a low or a high peak by one level.
unfoldable pub raise_of : List ThreatCategory → ℕ
raise_of cs = if leb 2 (length cs) && (peak cs == 1 || peak cs == 3) then 1 else 0

-- The level is the severity of the most severe category, and one level more if that severity is
-- low or high and there are two categories or more.
pub calculate_threat_level-peak :
    (cs : List ThreatCategory) → rank (calculate_threat_level cs) ≡ peak cs + raise_of cs
unfolding calculate_threat_level raise_of peak
calculate_threat_level-peak [] = refl
calculate_threat_level-peak (c ∷ cs) =
    rw (any_critical (c ∷ cs), any-leb 3 (c ∷ cs) (omega arith), any-leb 2 (c ∷ cs) (omega arith))
      (ground (arith, peak-le (c ∷ cs), peak-pos (c ∷ cs) (omega arith)))

-- With at least one category the confidence is between 70 and 100 hundredths, at least 85 with two
-- categories, and at least 80 with a strong one.
pub calculate_confidence-bounds :
    (cs : List ThreatCategory)
    → 0 < length cs
    → (70 ≤ calculate_confidence cs)
      × (calculate_confidence cs ≤ 100)
      × (2 ≤ length cs → 85 ≤ calculate_confidence cs)
      × (any is_strong cs ≡ true → 80 ≤ calculate_confidence cs)
unfolding calculate_confidence
calculate_confidence-bounds cs h = elim (Bool-cases (any is_strong cs)) [
  | inl e ↦ rw e (ground arith)
  | inr e ↦ rw e (ground arith)
]

peak_mono : (cs : List ThreatCategory) (c : ThreatCategory) → peak cs ≤ peak (cs ++ c ∷ [])
unfolding peak
peak_mono [] c = omega arith
peak_mono (x ∷ cs) c = omega (arith, peak_mono cs c)

-- One more category never lowers the level.
pub calculate_threat_level_mono :
    (cs : List ThreatCategory) (c : ThreatCategory)
    → rank (calculate_threat_level cs) ≤ rank (calculate_threat_level (cs ++ c ∷ []))
unfolding raise_of
calculate_threat_level_mono cs c =
    rw (calculate_threat_level-peak cs, calculate_threat_level-peak (cs ++ c ∷ []))
      (ground (arith, peak_mono cs c, length-append cs (c ∷ [])))
