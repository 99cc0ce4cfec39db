-- ===== src/LogScanner/Source.antt =====
-- src/log_scanner/source.rs: what a log file's name means.
use sentinalysis.Base.{
  ==_iff, Bool, Bool-cases, Option, Option-cases, Text, [], all, ap, arith, codes, ends_with, false,
  if◌then◌else◌, inl, inr, is_ascii_digit, is_nil, length, none, not, refl, some, suc, sym, text_eq,
  true, zero, ℕ, ◌&&◌, ◌++◌, ◌<◌, ◌==◌, ◌↔◌, ◌∙◌, ◌∷◌, ◌≡◌,
}

-- The text behind the last `.`: `rfind('.')` and the slice after it.
unfoldable pub after_last_dot : Text → Option Text
after_last_dot [] = none
after_last_dot (c ∷ cs) =
    let later = after_last_dot cs in
    elim later [ some s ↦ some s | none ↦ if c == b'.' then some cs else none ]

abbrev pub rotated_suffix : Option Text → Bool
rotated_suffix none = false
rotated_suffix (some suffix) = not (is_nil suffix) && all is_ascii_digit suffix

unfoldable pub is_rotated_log : Text → Bool
unfolding after_last_dot
is_rotated_log file_name = rotated_suffix (after_last_dot file_name)

abbrev pub access_suffix : Text
access_suffix = codes "-access.log"

-- `strip_suffix`
unfoldable pub strip_suffix : Text → Text → Option Text
unfolding text_eq
strip_suffix [] p = if text_eq [] p then some [] else none
strip_suffix (c ∷ cs) p =
    let rest = strip_suffix cs p in
    if text_eq (c ∷ cs) p then some [] else elim rest [ some s ↦ some (c ∷ s) | none ↦ none ]

-- `trim_end_matches`, on a fuel of one round for each character.
unfoldable pub trim_end : ℕ → Text → Text → Text
unfolding strip_suffix
trim_end zero s p = s
trim_end (suc f) s p = elim (strip_suffix s p) [ some rest ↦ trim_end f rest p | none ↦ s ]

-- On the file name of the path, if it has one.
unfoldable pub vhost_from_file_path : Option Text → Option Text
unfolding trim_end ends_with
vhost_from_file_path none = none
vhost_from_file_path (some name) =
    if ends_with name access_suffix then some (trim_end (length name) name access_suffix) else none

no_dot : (d : Text) → all is_ascii_digit d ≡ true → after_last_dot d ≡ none
unfolding after_last_dot
no_dot [] h = refl
no_dot (c ∷ d) h =
    let rest : after_last_dot d ≡ none = no_dot d (ground arith) in
    let other : (c == b'.') ≡ false = ground arith in rw (rest, other) refl

after_last_dot-append :
    (s d : Text) → all is_ascii_digit d ≡ true → after_last_dot (s ++ b'.' ∷ d) ≡ some d
unfolding after_last_dot
after_last_dot-append [] d h = rw (no_dot d h) refl
after_last_dot-append (c ∷ s) d h = rw (after_last_dot-append s d h) refl

-- What stands behind the last dot, with the dot and what stands before it, is the name.
after_last_dot-some : (s d : Text) → after_last_dot s ≡ some d → (a : Text) × (s ≡ a ++ b'.' ∷ d)
unfolding after_last_dot
after_last_dot-some [] d h = absurd (cc)
after_last_dot-some (c ∷ s) d h = elim (Option-cases (after_last_dot s)) [
  | inl e ↦
      let here : (if c == b'.' then some s else none) ≡ some d = rw e at h in
      elim (Bool-cases (c == b'.')) [
        | inl f ↦
            let is_dot : c ≡ b'.' = (==_iff c b'.').0 f in
            let same : some s ≡ some d = rw f at here in ([], ground arith)
        | inr f ↦ let same : none ≡ some d = rw f at here in absurd (cc)
      ]
  | inr (r, e) ↦
      let same : some r ≡ some d = rw e at h in
      let (a, p) = after_last_dot-some s d (e ∙ same) in (c ∷ a, ap (◌∷◌ c) p)
]

-- A name that ends in a dot and digits.
pub record IsNumbered (name : Text) : Type 0 where
  pub base : Text
  pub number : Text
  pub parts : name ≡ base ++ b'.' ∷ number
  pub digits : all is_ascii_digit number ≡ true
  pub has_some : 0 < length number

is_rotated_log-suffix : (name : Text) → is_rotated_log name ≡ rotated_suffix (after_last_dot name)
unfolding is_rotated_log
is_rotated_log-suffix name = refl

numeric : (d : Text) → all is_ascii_digit d ≡ true → 0 < length d → rotated_suffix (some d) ≡ true
numeric [] h p = absurd (omega arith)
numeric (c ∷ d) h p = h

numbered :
    (name a d : Text) → name ≡ a ++ b'.' ∷ d → rotated_suffix (some d) ≡ true → IsNumbered name
numbered name a [] p h = absurd (cc)
numbered name a (c ∷ d) p h = record {
  base = a;
  number = c ∷ d;
  parts = p;
  digits = h;
  has_some = omega arith;
}

-- A file name counts as rotated exactly if it ends in a dot and one or more digits.
pub is_rotated_log_iff : (name : Text) → (is_rotated_log name ≡ true) ↔ IsNumbered name
is_rotated_log_iff name = (
  λ h. elim (Option-cases (after_last_dot name)) [
    | inl e ↦
        let not_so : false ≡ true =
          sym (ap rotated_suffix e) ∙ sym (is_rotated_log-suffix name) ∙ h in
        absurd (cc)
    | inr (s, e) ↦
        let so : rotated_suffix (some s) ≡ true =
          sym (ap rotated_suffix e) ∙ sym (is_rotated_log-suffix name) ∙ h in
        let (a, p) = after_last_dot-some name s e in numbered name a s p so
  ],
  λ v.
      is_rotated_log-suffix name
      ∙ ap rotated_suffix
          (ap after_last_dot v.parts ∙ after_last_dot-append v.base v.number v.digits)
      ∙ numeric v.number v.digits v.has_some,
)
