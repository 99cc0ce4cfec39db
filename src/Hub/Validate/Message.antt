-- ===== src/Hub/Validate/Message.antt =====
-- The truncation of a log message at a character boundary.
use sentinalysis.Base.{
  ==_iff, Bool-cases, Text, [], ap, arith, codes, cons_first, false, inl, inr, leb, leb-eq-false,
  leb→le, len, len-append, len_utf8, lt_of_leb-eq-false, none, refl, some, split_at_byte,
  split_at_byte-append, split_at_byte-cons, suc, sym, true, zero, ℕ, ◌++◌, ◌+◌, ◌-◌, ◌<◌, ◌==◌, ◌∙◌,
  ◌∷◌, ◌≡◌, ◌≤◌, ◌⊎◌,
}
use sentinalysis.Hub.Validate.{
  boundary_below, ellipsis, front, is_char_boundary, is_some, max_message_bytes, sanitize_message,
  strip_newline,
}

-- A text longer than `n` bytes is cut before the character that byte `n` belongs to.
pub record Cut (s : Text) (n : ℕ) : Type 0 where
  pub kept : Text
  pub next : ℕ
  pub rest : Text
  pub parts : s ≡ kept ++ next ∷ rest
  pub fits : len kept ≤ n
  pub tight : n < len kept + len_utf8 next

Cut-exists : (s : Text) (n : ℕ) → n < len s → Cut s n
Cut-exists [] n h = absurd (omega arith)
Cut-exists (c ∷ s) n h = elim (Bool-cases (leb (len_utf8 c) n)) [
  | inl e ↦
      let fit : len_utf8 c ≤ n = leb→le _ _ e in
      let below : Cut s (n - len_utf8 c) = Cut-exists s (n - len_utf8 c) (omega arith) in
      record {
        kept = c ∷ below.kept;
        next = below.next;
        rest = below.rest;
        parts = ap (◌∷◌ c) below.parts;
        fits = omega (arith, below.fits);
        tight = omega (arith, below.tight);
      }
  | inr e ↦ record {
    kept = [];
    next = c;
    rest = s;
    parts = refl;
    fits = omega arith;
    tight = omega (arith, lt_of_leb-eq-false _ _ e);
  }
]

-- No cut falls inside a character.
split_at_byte-inside :
    (a : Text) (c : ℕ) (b : Text) (m : ℕ)
    → len a < m
    → m < len a + len_utf8 c
    → split_at_byte (a ++ c ∷ b) m ≡ none
split_at_byte-inside [] c b zero h k = absurd (omega arith)
split_at_byte-inside [] c b (suc m) h k =
    unfold split_at_byte in rw (leb-eq-false (len_utf8 c) (suc m) (omega arith)) refl
split_at_byte-inside (x ∷ a) c b m h k =
    split_at_byte-cons x (a ++ c ∷ b) m (omega arith)
    ∙ ap (cons_first x) (split_at_byte-inside a c b (m - len_utf8 x) (omega arith) (omega arith))

-- The walk stops at the last boundary.
boundary_below-last :
    (s : Text) (k n : ℕ)
    → k ≤ n
    → is_char_boundary s k ≡ true
    → ((m : ℕ) → k < m → m ≤ n → is_char_boundary s m ≡ false)
    → boundary_below s n ≡ k
unfolding boundary_below
boundary_below-last s k zero h at none_above = omega arith
boundary_below-last s k (suc n) h at none_above = elim (Bool-cases (k == suc n)) [
  | inl e ↦
      let same : k ≡ suc n = (==_iff k (suc n)).0 e in
      let at_top : is_char_boundary s (suc n) ≡ true = ap (is_char_boundary s) (sym same) ∙ at in
      rw at_top (sym same)
  | inr e ↦
      rw (none_above (suc n) (ground arith) (omega arith))
        (boundary_below-last s k n (ground arith) at (λ m p q. none_above m p (omega arith)))
]

split_at_byte-boundary_below :
    (s : Text) (n : ℕ) (cut : Cut s n)
    → front (split_at_byte s (boundary_below s n)) ≡ some cut.kept
unfolding is_char_boundary
split_at_byte-boundary_below s n cut =
    let split : split_at_byte s (len cut.kept) ≡ some (cut.kept, cut.next ∷ cut.rest) =
      ap (λ t. split_at_byte t (len cut.kept)) cut.parts
      ∙ split_at_byte-append cut.kept (cut.next ∷ cut.rest) in
    let above : (m : ℕ) → len cut.kept < m → m ≤ n → is_char_boundary s m ≡ false = λ m p q.
      ap (λ t. is_some (split_at_byte t m)) cut.parts
      ∙ ap is_some
          (split_at_byte-inside cut.kept cut.next cut.rest m p (omega (arith, cut.tight))) in
    ap (λ k. front (split_at_byte s k))
      (boundary_below-last s (len cut.kept) n cut.fits (ap is_some split) above)
    ∙ ap front split

-- What a message becomes.
unfoldable pub Sanitized : Text → Text → Type 0
Sanitized trimmed result =
    ((len trimmed ≤ max_message_bytes) × (result ≡ trimmed))
    ⊎ ((cut : Cut trimmed max_message_bytes) × (result ≡ cut.kept ++ codes "…"))

-- `sanitize_message` never fails. Without its last newline, a message of at most the cap in bytes
-- is returned as it is; a longer one is cut before the character that reaches past the cap, and an
-- ellipsis follows.
pub sanitize_message-Sanitized :
    (raw : Text)
    → (result : Text) × (sanitize_message raw ≡ some result) × Sanitized (strip_newline raw) result
unfolding sanitize_message Sanitized
sanitize_message-Sanitized raw =
    elim (Bool-cases (leb (len (strip_newline raw)) max_message_bytes)) [
      | inl e ↦ (strip_newline raw, rw e refl, inl (leb→le _ _ e, refl))
      | inr e ↦
          let cut = Cut-exists (strip_newline raw) max_message_bytes (lt_of_leb-eq-false _ _ e) in
          (
            cut.kept ++ codes "…",
            rw e (
                ap ellipsis
                  (split_at_byte-boundary_below (strip_newline raw) max_message_bytes cut)),
            inr (cut, refl),
          )
    ]

-- A sanitized message has at most three bytes more than the cap, those of the ellipsis.
pub sanitize_message-len :
    (raw result : Text) → sanitize_message raw ≡ some result → len result ≤ max_message_bytes + 3
unfolding Sanitized
sanitize_message-len raw result h =
    let (out, e, s) = sanitize_message-Sanitized raw in
    let same : out ≡ result = cc in
    elim s [
      | inl (fit, r) ↦ rw (sym same, r) (omega (arith, fit))
      | inr (cut, r) ↦ rw (sym same, r) (omega (arith, cut.fits, len-append cut.kept (codes "…")))
    ]

pub strip_newline-append : (s : Text) → strip_newline (s ++ 10 ∷ []) ≡ s
unfolding strip_newline
strip_newline-append [] = refl
strip_newline-append (c ∷ []) = refl
strip_newline-append (c ∷ d ∷ s) = ap (◌∷◌ c) (strip_newline-append (d ∷ s))
