-- ===== src/Hub/Range.antt =====
-- src/hub/range.rs: the closed set of time ranges that a query may name.
use sentinalysis.Base.{
  Option, Text, [], arith, codes, if◌then◌else◌, is_ascii_digit, none, refl, some, text_eq,
  text_eq_iff, ℕ, ◌*◌, ◌+◌, ◌-◌, ◌/◌, ◌==◌, ◌↔◌, ◌∷◌, ◌≡◌,
}

pub data MetricRange : Type 0 where
  h1 h6 h24 d7 d30 : MetricRange

unfoldable pub parse_range : Text → Option MetricRange
parse_range value =
    if text_eq value (codes "1h")
    then some h1
    else if text_eq value (codes "6h")
    then some h6
    else if text_eq value (codes "24h")
    then some h24
    else if text_eq value (codes "7d")
    then some d7
    else if text_eq value (codes "30d")
    then some d30
    else none

unfoldable pub interval : MetricRange → Text
interval h1 = codes "1 hour"
interval h6 = codes "6 hours"
interval h24 = codes "24 hours"
interval d7 = codes "7 days"
interval d30 = codes "30 days"

unfoldable pub bucket_seconds : MetricRange → ℕ
bucket_seconds h1 = 60
bucket_seconds h6 = 60
bucket_seconds h24 = 300
bucket_seconds d7 = 1800
bucket_seconds d30 = 7200

unfoldable pub max_rows : MetricRange → ℕ
max_rows range = 2000

abbrev pub default_range : MetricRange
default_range = h24

-- What a value asks for, read from its digits and its unit.
abbrev digits_value : ℕ → Text → ℕ
digits_value n [] = n
digits_value n (c ∷ cs) = if is_ascii_digit c then digits_value (10 * n + (c - b'0')) cs else n

abbrev unit_seconds : Text → ℕ
unit_seconds [] = 0
unit_seconds (c ∷ cs) = if c == b'h' then 3600 else if c == b'd' then 86400 else unit_seconds cs

abbrev pub span_seconds : Text → ℕ
span_seconds value = digits_value 0 value * unit_seconds value

-- The buckets of a range, with a partial one at either end.
abbrev pub buckets : Text → MetricRange → ℕ
unfolding bucket_seconds
buckets value range = span_seconds value / bucket_seconds range + 1

-- The values that name a range.
unfoldable pub name_of : MetricRange → Text
name_of h1 = codes "1h"
name_of h6 = codes "6h"
name_of h24 = codes "24h"
name_of d7 = codes "7d"
name_of d30 = codes "30d"

name_of_parse :
    (value : Text) (range : MetricRange) → parse_range value ≡ some range → value ≡ name_of range
unfolding parse_range name_of
name_of_parse value range h =
    let e1 = text_eq_iff value (codes "1h") in
    let e2 = text_eq_iff value (codes "6h") in
    let e3 = text_eq_iff value (codes "24h") in
    let e4 = text_eq_iff value (codes "7d") in
    let e5 = text_eq_iff value (codes "30d") in
    elim range [
      | h1 ↦ ground (arith, h, e1)
      | h6 ↦ ground (arith, e2)
      | h24 ↦ ground (arith, e3)
      | d7 ↦ ground (arith, e4)
      | d30 ↦ ground (arith, e5)
    ]

parse_range-name_of : (range : MetricRange) → parse_range (name_of range) ≡ some range
unfolding parse_range name_of text_eq
parse_range-name_of h1 = refl
parse_range-name_of h6 = refl
parse_range-name_of h24 = refl
parse_range-name_of d7 = refl
parse_range-name_of d30 = refl

-- A value names a range exactly if it is the range's name.
pub parse_range_iff :
    (value : Text) (range : MetricRange)
    → (parse_range value ≡ some range) ↔ (value ≡ name_of range)
parse_range_iff value range = (name_of_parse value range, λ e. rw e (parse_range-name_of range))
