-- ===== src/LogScanner/Parser.antt =====
-- src/log_scanner/parser: the errors of the parsers, and the numbers that they read.
pub mod Nginx
pub mod Auth
use sentinalysis.Base.{
  List, Option, Text, [], codes, if◌then◌else◌, is_ascii_digit, is_nil, ltb, none, some, ℕ, ◌*◌,
  ◌+◌, ◌-◌, ◌∷◌, ◌++◌,
}
use sentinalysis.Base.Results.{Result, err, ok}
use sentinalysis.LogScanner.Entry.{ParsedLogEntry}
use sentinalysis.LogScanner.Pipeline.{Parser}

pub data ParseError : Type 0 where
  invalid_format missing_field : Text → ParseError
  invalid_value : (field value : Text) → ParseError

-- `Display`
unfoldable pub show_error : ParseError → Text
show_error (invalid_format msg) = codes "invalid format: " ++ msg
show_error (missing_field field) = codes "missing field: " ++ field
show_error (invalid_value field value) =
    codes "invalid value for " ++ (field ++ (codes ": " ++ value))

abbrev pub shown : {A : Type 0} → Result ParseError A → Result Text A
unfolding show_error
shown (ok a) = ok a
shown (err e) = err (show_error e)

-- A parser as the pipeline calls it, with the error's text.
abbrev pub as_parser : Text → (Text → Result ParseError (Option ParsedLogEntry)) → Parser
unfolding show_error
as_parser name parse = record { name = name; parse = λ line. shown (parse line) }

-- The value of decimal digits behind the value read so far.
unfoldable pub decimal_onto : ℕ → Text → Option ℕ
decimal_onto n [] = some n
decimal_onto n (c ∷ cs) =
    let rest = decimal_onto (n * 10 + (c - b'0')) cs in if is_ascii_digit c then rest else none

abbrev pub below : ℕ → Option ℕ → Option ℕ
below bound none = none
below bound (some n) = if ltb n bound then some n else none

-- `str::parse` to an unsigned integer below `bound`; a text that starts with "+" does not arise.
unfoldable pub parse_unsigned : ℕ → Text → Option ℕ
unfolding decimal_onto
parse_unsigned bound [] = none
parse_unsigned bound (c ∷ cs) = below bound (decimal_onto 0 (c ∷ cs))

abbrev pub or_invalid : {A : Type 0} → Text → Text → Option A → Result ParseError A
or_invalid field value none = err (invalid_value field value)
or_invalid field value (some a) = ok a
