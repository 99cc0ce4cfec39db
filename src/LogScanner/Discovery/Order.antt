-- ===== src/LogScanner/Discovery/Order.antt =====
-- The ordered lists that stand for the sets of source_discovery.rs.
use sentinalysis.Base.{
  Bool, Bool-cases, List, Text, [], arith, false, inl, inr, refl, text_eq, text_eq_iff, true, ◌||◌,
  ◌∷◌, ◌≡◌,
}
use sentinalysis.Base.Dict.{mem_text}
use sentinalysis.LogScanner.Discovery.{insert_set, text_ltb}

-- Each element is before the next.
abbrev Below : Text → List Text → Type 0
Below x [] = Unit
Below x (y ∷ ys) = text_ltb x y ≡ true

abbrev pub IsAscending : List Text → Type 0
IsAscending [] = Unit
IsAscending (x ∷ xs) = Below x xs × IsAscending xs

text_ltb_total : (s t : Text) → text_eq s t ≡ false → text_ltb s t ≡ false → text_ltb t s ≡ true
unfolding text_eq text_ltb
text_ltb_total [] [] h k = absurd (cc)
text_ltb_total [] (d ∷ t) h k = absurd (cc)
text_ltb_total (c ∷ s) [] h k = refl
text_ltb_total (c ∷ s) (d ∷ t) h k = ground (arith, text_ltb_total s t)

Below-insert_set :
    (x y : Text) (ys : List Text) → text_ltb y x ≡ true → Below y ys → Below y (insert_set x ys)
unfolding insert_set
Below-insert_set x y [] h k = h
Below-insert_set x y (z ∷ zs) h k = elim (Bool-cases (text_eq x z)) [
  | inl e ↦ rw e k
  | inr e ↦ elim (Bool-cases (text_ltb x z)) [ inl l ↦ rw (e, l) h | inr l ↦ rw (e, l) k ]
]

pub IsAscending-insert_set :
    (x : Text) (ys : List Text) → IsAscending ys → IsAscending (insert_set x ys)
unfolding insert_set
IsAscending-insert_set x [] h = (tt, tt)
IsAscending-insert_set x (y ∷ ys) h = elim (Bool-cases (text_eq x y)) [
  | inl e ↦ rw e h
  | inr e ↦ elim (Bool-cases (text_ltb x y)) [
    | inl l ↦ rw (e, l) (l, h)
    | inr l ↦
        rw (e, l)
          (Below-insert_set x y ys (text_ltb_total x y e l) h.0, IsAscending-insert_set x ys h.1)
  ]
]

or_twice : (a b : Bool) → (a || b) ≡ (a || (a || b))
or_twice a b = ground arith

pub mem_text-insert_set :
    (k x : Text) (ys : List Text) → mem_text k (insert_set x ys) ≡ (text_eq x k || mem_text k ys)
unfolding insert_set mem_text
mem_text-insert_set k x [] = refl
mem_text-insert_set k x (y ∷ ys) = elim (Bool-cases (text_eq x y)) [
  | inl e ↦
      let same : x ≡ y = (text_eq_iff x y).0 e in
      rw (e, same) (or_twice (text_eq y k) (mem_text k ys))
  | inr e ↦ elim (Bool-cases (text_ltb x y)) [
    | inl l ↦ rw (e, l) refl
    | inr l ↦ rw (e, l) (ground (arith, mem_text-insert_set k x ys))
  ]
]
