-- ===== src/Hub/Validate/Window.antt =====
-- The values that the checks accept.
use sentinalysis.Base.{
  All, Bool, Bool-cases, List, Text, [], all, ap, arith, false, if◌then◌else◌, inl, inr, len,
  length, ltb, refl, sym, true, ◌&&◌, ◌*◌, ◌<◌, ◌^◌, ◌↔◌, ◌∙◌, ◌∷◌, ◌≡◌, ◌≤◌,
}
use sentinalysis.Base.Results.{Result, err, ok}
use sentinalysis.Base.Int.{ltb_ℤ, neg_part, negsuc, pos, pos_part, ℤ, ◌-ℤ◌}
use sentinalysis.Hub.Validate.{
  Reason, check_categories, in_future, is_bad_token, is_token_char, max_event_type_len,
  max_future_skew_secs, max_past_age_days, max_threat_categories, neg_ℤ, num_seconds,
  threat_categories, timestamp, too_old,
}

-- The check on the difference in nanoseconds.
check_difference : ℤ → Result Reason Unit
unfolding ◌-ℤ◌
check_difference d =
    if ltb_ℤ (pos max_future_skew_secs) (num_seconds d)
    then err (in_future (num_seconds d))
    else if ltb_ℤ (pos (max_past_age_days * 24 * 3600)) (neg_ℤ (num_seconds d))
    then err (too_old (neg_ℤ (num_seconds d)))
    else ok tt

accepted : Result Reason Unit → Bool
accepted (ok u) = true
accepted (err e) = false

in_window : ℤ → Bool
in_window d = ltb (pos_part d) (301 * 10 ^ 9) && ltb (neg_part d) (2592001 * 10 ^ 9)

check_difference-accepted : (d : ℤ) → accepted (check_difference d) ≡ in_window d
unfolding check_difference accepted in_window ◌-ℤ◌
check_difference-accepted (pos n) = ground arith
check_difference-accepted (negsuc n) = ground arith

accepted_iff : (r : Result Reason Unit) → (r ≡ ok tt) ↔ (accepted r ≡ true)
unfolding accepted
accepted_iff (ok u) = (λ h. refl, λ h. refl)
accepted_iff (err e) = (λ h. cc, λ h. cc)

timestamp-check_difference : (ts now : ℤ) → timestamp ts now ≡ check_difference (ts -ℤ now)
unfolding timestamp check_difference ◌-ℤ◌
timestamp-check_difference ts now = refl

-- A timestamp is accepted exactly if it lies less than 301 seconds after now and less than 30 days
-- and one second before.
pub timestamp_iff :
    (ts now : ℤ)
    → (timestamp ts now ≡ ok tt)
      ↔ ((pos_part (ts -ℤ now) < 301 * 10 ^ 9) × (neg_part (ts -ℤ now) < 2592001 * 10 ^ 9))
unfolding in_window
timestamp_iff ts now =
    let d : ℤ = ts -ℤ now in
    let same : accepted (timestamp ts now) ≡ in_window d =
      ap accepted (timestamp-check_difference ts now) ∙ check_difference-accepted d in
    let split : (in_window d ≡ true)
        ↔ ((pos_part d < 301 * 10 ^ 9) × (neg_part d < 2592001 * 10 ^ 9)) =
      ground arith in
    let verdict = accepted_iff (timestamp ts now) in
    (λ h. split.0 (sym same ∙ verdict.0 h), λ h. verdict.1 (same ∙ split.1 h))

-- A token: 1 to 64 bytes of lowercase letters, digits and dashes.
pub record IsToken (s : Text) : Type 0 where
  pub has_some : 0 < length s
  pub fits : len s ≤ max_event_type_len
  pub chars : all is_token_char s ≡ true

is_bad_token_iff : (s : Text) → (is_bad_token s ≡ false) ↔ IsToken s
unfolding is_bad_token
is_bad_token_iff [] = (λ h. cc, λ t. absurd (omega (arith, t.has_some)))
is_bad_token_iff (c ∷ s) = elim (Bool-cases (all is_token_char (c ∷ s))) [
  | inl e ↦ (
    λ h. record { has_some = omega arith; fits = ground arith; chars = e },
    λ t. let f = t.fits in ground arith,
  )
  | inr e ↦ (λ h. ground arith, λ t. let f = t.chars in ground arith)
]

check_categories_iff : (values : List Text) → (check_categories values ≡ ok tt) ↔ All IsToken values
unfolding check_categories
check_categories_iff [] = (λ h. tt, λ h. refl)
check_categories_iff (v ∷ values) =
    let rest = check_categories_iff values in
    elim (Bool-cases (is_bad_token v)) [
      | inl e ↦
          (λ h. absurd (ground arith), λ t. let good = (is_bad_token_iff v).1 t.0 in absurd (cc))
      | inr e ↦ (
        λ h. ((is_bad_token_iff v).0 e, rest.0 (ground arith)),
        λ t. let tail = rest.1 t.1 in ground arith,
      )
    ]

-- Threat categories are accepted exactly if there are at most 16 of them and each has 1 to 64
-- bytes, all of them lowercase ASCII letters, digits or dashes.
pub threat_categories_iff :
    (values : List Text)
    → (threat_categories values ≡ ok tt)
      ↔ ((length values ≤ max_threat_categories) × All IsToken values)
unfolding threat_categories
threat_categories_iff values = elim (Bool-cases (ltb max_threat_categories (length values))) [
  | inl e ↦ (λ h. absurd (ground arith), λ t. let few = t.0 in absurd (ground arith))
  | inr e ↦ (
    λ h. (ground arith, (check_categories_iff values).0 (ground arith)),
    λ t. let all_tokens = (check_categories_iff values).1 t.1 in ground arith,
  )
]
