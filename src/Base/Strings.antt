-- ===== src/Base/Strings.antt =====
-- Rust's `str` as the list of its characters (code points), with `len()` in bytes of UTF-8.
use Prim.Native.Char.{code}
use Prim.Native.Nat.{ℕ, zero, suc, ◌+◌, ◌-◌, ◌≤◌}
use Prim.Native.String.{String}
use mathlib.Core.Bool.{Bool, true, false, ◌&&◌, ◌||◌}
use mathlib.Core.List.{List, [], ◌∷◌, ◌++◌}
use mathlib.Core.Logic.{◌↔◌}
use mathlib.Core.Option.{Option, none, some}
use mathlib.Core.Path.{◌≡◌, refl, ap, ◌∙◌}
use native.Mathlib.Omega.{arith}
use sentinalysis.Base.Tests.{if◌then◌else◌, leb, le→leb, ltb, ◌==◌}
use sentinalysis.Base.Options.{◌>>=◌}
use sentinalysis.Base.Lists.{all, length}

abbrev pub Text : Type 0
Text = List ℕ

-- A literal of the source.
abbrev pub codes : String → Text
codes String.[] = []
codes (String.◌∷◌ c s) = code c ∷ codes s

-- `char::len_utf8`.
abbrev pub len_utf8 : ℕ → ℕ
len_utf8 c = if ltb c 0x80 then 1 else if ltb c 0x800 then 2 else if ltb c 0x10000 then 3 else 4

-- `str::len`: the bytes of the text.
abbrev pub len : Text → ℕ
len [] = 0
len (c ∷ cs) = len_utf8 c + len cs

-- `char::is_ascii_lowercase` and the like.
abbrev pub within : ℕ → ℕ → ℕ → Bool
within lo hi c = leb lo c && leb c hi

abbrev pub is_ascii_lowercase : ℕ → Bool
is_ascii_lowercase = within b'a' b'z'

abbrev pub is_ascii_uppercase : ℕ → Bool
is_ascii_uppercase = within b'A' b'Z'

abbrev pub is_ascii_digit : ℕ → Bool
is_ascii_digit = within b'0' b'9'

-- `char::is_control`: the general category Cc.
abbrev pub is_control : ℕ → Bool
is_control c = ltb c 0x20 || within 0x7f 0x9f c

-- `==` on texts.
unfoldable pub text_eq : Text → Text → Bool
text_eq [] [] = true
text_eq (x ∷ xs) (y ∷ ys) = x == y && text_eq xs ys
text_eq _ _ = false

pub text_eq_iff : (a b : Text) → (text_eq a b ≡ true) ↔ (a ≡ b)
unfolding text_eq
text_eq_iff (x ∷ a) (y ∷ b) = ground (arith, text_eq_iff a b)
text_eq_iff _ _ = ground arith

pub text_eq_self : (a : Text) → text_eq a a ≡ true
text_eq_self a = (text_eq_iff a a).1 refl

-- `starts_with`, `ends_with` and `contains` with a text as the pattern.
unfoldable pub starts_with : Text → Text → Bool
starts_with s [] = true
starts_with [] (p ∷ ps) = false
starts_with (c ∷ cs) (p ∷ ps) = c == p && starts_with cs ps

unfoldable pub ends_with : Text → Text → Bool
unfolding text_eq
ends_with [] p = text_eq [] p
ends_with (c ∷ cs) p = text_eq (c ∷ cs) p || ends_with cs p

unfoldable pub contains : Text → Text → Bool
unfolding starts_with
contains [] p = starts_with [] p
contains (c ∷ cs) p = starts_with (c ∷ cs) p || contains cs p

pub len_utf8_bounds : (c : ℕ) → (1 ≤ len_utf8 c) × (len_utf8 c ≤ 4)
len_utf8_bounds c = ground arith

pub length-le-len : (s : Text) → length s ≤ len s
length-le-len [] = omega arith
length-le-len (c ∷ cs) = omega (arith, length-le-len cs, (len_utf8_bounds c).0)

pub starts_with-append : (p r : Text) → starts_with (p ++ r) p ≡ true
unfolding starts_with
starts_with-append [] r = refl
starts_with-append (x ∷ p) r = ground (arith, starts_with-append p r)

pub ends_with-append : (a p : Text) → ends_with (a ++ p) p ≡ true
unfolding ends_with
ends_with-append [] [] = refl
ends_with-append [] (x ∷ p) = ground (arith, text_eq_self (x ∷ p))
ends_with-append (c ∷ a) p = ground (arith, ends_with-append a p)

pub contains-append : (a p b : Text) → contains (a ++ (p ++ b)) p ≡ true
unfolding contains
contains-append [] [] [] = refl
contains-append [] [] (c ∷ b) = refl
contains-append [] (x ∷ p) b = ground (arith, starts_with-append p b)
contains-append (c ∷ a) p b = ground (arith, contains-append a p b)

-- The text before and after byte `n`; `none` past the end or inside a character.
abbrev pub cons_first : ℕ → Option (Text × Text) → Option (Text × Text)
cons_first c none = none
cons_first c (some (a, b)) = some (c ∷ a, b)

unfoldable pub split_at_byte : Text → ℕ → Option (Text × Text)
split_at_byte s zero = some ([], s)
split_at_byte [] (suc n) = none
split_at_byte (c ∷ cs) (suc n) =
    if leb (len_utf8 c) (suc n) then cons_first c (split_at_byte cs (suc n - len_utf8 c)) else none

-- `str::get` on a range of bytes.
unfoldable pub get_range : Text → ℕ → ℕ → Option Text
unfolding split_at_byte
get_range s from to = do
  (before, rest) ← split_at_byte s from
  (middle, after) ← split_at_byte rest (to - from)
  some middle

pub split_at_byte-cons :
    (c : ℕ) (s : Text) (n : ℕ)
    → len_utf8 c ≤ n
    → split_at_byte (c ∷ s) n ≡ cons_first c (split_at_byte s (n - len_utf8 c))
unfolding split_at_byte
split_at_byte-cons c s zero h = absurd (omega (arith, (len_utf8_bounds c).0))
split_at_byte-cons c s (suc n) h = rw (le→leb (len_utf8 c) (suc n) h)

pub split_at_byte-append : (a b : Text) → split_at_byte (a ++ b) (len a) ≡ some (a, b)
split_at_byte-append [] b = unfold split_at_byte in refl
split_at_byte-append (c ∷ a) b =
    let rest : len_utf8 c + len a - len_utf8 c ≡ len a = omega arith in
    split_at_byte-cons c (a ++ b) (len_utf8 c + len a) (omega arith)
    ∙ ap (λ n. cons_first c (split_at_byte (a ++ b) n)) rest
    ∙ ap (cons_first c) (split_at_byte-append a b)

-- An ASCII text has as many bytes as characters.
unfoldable pub is_ascii : ℕ → Bool
is_ascii c = ltb c 0x80

pub len_of_ascii : (s : Text) → all is_ascii s ≡ true → len s ≡ length s
unfolding is_ascii
len_of_ascii [] h = refl
len_of_ascii (c ∷ s) h = ground (arith, len_of_ascii s)

pub len-append : (a b : Text) → len (a ++ b) ≡ len a + len b
len-append [] b = omega arith
len-append (c ∷ a) b = omega (arith, len-append a b)
