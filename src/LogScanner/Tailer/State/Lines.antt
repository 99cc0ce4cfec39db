-- ===== src/LogScanner/Tailer/State/Lines.antt =====
-- `str::lines` on texts whose lines end in newlines.
use sentinalysis.Base.{
  All, Bool, List, Text, [], all, ap, append_assoc, arith, false, not, refl, true, ℕ, ◌&&◌, ◌++◌,
  ◌==◌, ◌∙◌, ◌∷◌, ◌≡◌,
}
use sentinalysis.LogScanner.Tailer.State.{lines}

-- The text of lines that each end in "\n".
unfoldable pub unlines : List Text → Text
unlines [] = []
unlines (l ∷ ls) = l ++ 10 ∷ unlines ls

-- Neither line feed nor carriage return.
unfoldable pub is_plain : ℕ → Bool
is_plain c = not (c == 10) && not (c == 13)

unfoldable pub IsLine : Text → Type 0
IsLine l = all is_plain l ≡ true

pub lines-newline : (t : Text) → lines (10 ∷ t) ≡ [] ∷ lines t
unfolding lines
lines-newline [] = refl
lines-newline (c ∷ t) = refl

pub lines-cons :
    (c : ℕ) (t : Text) (l : Text) (ls : List Text)
    → is_plain c ≡ true
    → lines t ≡ l ∷ ls
    → lines (c ∷ t) ≡ (c ∷ l) ∷ ls
unfolding lines is_plain
lines-cons c [] l ls p h = absurd (cc)
lines-cons c (d ∷ t) l ls p h =
    let not_feed : (c == 10) ≡ false = ground arith in
    let not_return : (c == 13) ≡ false = ground arith in rw (not_feed, not_return, h) refl

pub lines-line : (l t : Text) → IsLine l → lines (l ++ 10 ∷ t) ≡ l ∷ lines t
unfolding IsLine
lines-line [] t h = lines-newline t
lines-line (c ∷ l) t h =
    lines-cons c (l ++ 10 ∷ t) l (lines t) (ground arith) (lines-line l t (ground arith))

pub lines-unlines : (ls : List Text) → All IsLine ls → lines (unlines ls) ≡ ls
unfolding unlines lines
lines-unlines [] h = refl
lines-unlines (l ∷ ls) h = lines-line l (unlines ls) h.0 ∙ ap (◌∷◌ l) (lines-unlines ls h.1)

-- The last line without its newline.
pub lines-last : (c : ℕ) (l : Text) → IsLine (c ∷ l) → lines (c ∷ l) ≡ (c ∷ l) ∷ []
unfolding IsLine lines is_plain
lines-last c [] h = let not_feed : (c == 10) ≡ false = ground arith in rw not_feed refl
lines-last c (d ∷ l) h =
    lines-cons c (d ∷ l) (d ∷ l) [] (unfold is_plain in ground arith)
      (lines-last d l (ground arith))

pub lines-unlines_last :
    (ls : List Text) (c : ℕ) (l : Text)
    → All IsLine ls
    → IsLine (c ∷ l)
    → lines (unlines ls ++ c ∷ l) ≡ ls ++ (c ∷ l) ∷ []
unfolding unlines
lines-unlines_last [] c l h k = lines-last c l k
lines-unlines_last (x ∷ ls) c l h k =
    ap lines (append_assoc x (10 ∷ unlines ls) (c ∷ l))
    ∙ lines-line x (unlines ls ++ c ∷ l) h.0
    ∙ ap (◌∷◌ x) (lines-unlines_last ls c l h.1 k)
