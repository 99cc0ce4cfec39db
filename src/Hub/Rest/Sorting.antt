-- ===== src/Hub/Rest/Sorting.antt =====
-- What the loop of `post_events` makes of a request's events.
use sentinalysis.Base.{
  All, List, [], ap, append-nil, append_assoc, arith, length, refl, suc, ℕ, ◌++◌, ◌+◌, ◌∙◌, ◌∷◌,
  ◌≡◌,
}
use sentinalysis.Base.Results.{Result, err, ok}
use sentinalysis.Hub.Validate.{Reason}
use sentinalysis.Hub.Rest.Events.{Sorted, sort_events, sorted_one}
use sentinalysis.Hub.Ingest.Hosted.{OnOk}

abbrev pub or_skip : {A : Type 0} → Result Reason A → List A → List A
or_skip (ok a) rest = a ∷ rest
or_skip (err reason) rest = rest

abbrev pub or_note : {A : Type 0} → ℕ → Result Reason A → List (ℕ × Reason) → List (ℕ × Reason)
or_note index (ok a) rest = rest
or_note index (err reason) rest = (index, reason) ∷ rest

-- The events that their checks accept, and the rejections with their indices.
module _ {A E : Type 0} (check : ℕ → E → Result Reason A) where
  unfoldable pub accepted_of : ℕ → List E → List A
  accepted_of index [] = []
  accepted_of index (event ∷ events) = or_skip (check index event) (accepted_of (suc index) events)

  unfoldable pub errors_of : ℕ → List E → List (ℕ × Reason)
  errors_of index [] = []
  errors_of index (event ∷ events) =
      or_note index (check index event) (errors_of (suc index) events)

  abbrev both : Sorted A → List A → List (ℕ × Reason) → Sorted A
  both s accepted errors = record { accepted = s.accepted ++ accepted; errors = s.errors ++ errors }

  both-sorted_one :
      (index : ℕ) (s : Sorted A) (outcome : Result Reason A) (accepted : List A)
      (errors : List (ℕ × Reason))
      → both (sorted_one index s outcome) accepted errors
        ≡ both s (or_skip outcome accepted) (or_note index outcome errors)
  both-sorted_one index s (ok a) accepted errors =
      ap (λ l. record { accepted = l; errors = s.errors ++ errors })
        (append_assoc s.accepted (a ∷ []) accepted)
  both-sorted_one index s (err reason) accepted errors =
      ap (λ l. record { accepted = s.accepted ++ accepted; errors = l })
        (append_assoc s.errors ((index, reason) ∷ []) errors)

  -- Both lists grow at the end, in the order of the request.
  pub sort_events-eq :
      (index : ℕ) (events : List E) (s : Sorted A)
      → sort_events check index events s ≡ record {
        accepted = s.accepted ++ accepted_of index events;
        errors = s.errors ++ errors_of index events;
      }
  unfolding sort_events accepted_of errors_of
  sort_events-eq index [] s = rw (append-nil s.accepted, append-nil s.errors) refl
  sort_events-eq index (event ∷ events) s =
      let outcome = check index event in
      sort_events-eq (suc index) events (sorted_one index s outcome)
      ∙ both-sorted_one index s outcome (accepted_of (suc index) events)
          (errors_of (suc index) events)

  length-or :
      (index : ℕ) (outcome : Result Reason A) (accepted : List A) (errors : List (ℕ × Reason))
      → length (or_skip outcome accepted) + length (or_note index outcome errors)
        ≡ suc (length accepted + length errors)
  length-or index (ok a) accepted errors = omega arith
  length-or index (err reason) accepted errors = omega arith

  -- Every event is accepted or has an error.
  pub length-accepted_of :
      (index : ℕ) (events : List E)
      → length (accepted_of index events) + length (errors_of index events) ≡ length events
  unfolding accepted_of errors_of
  length-accepted_of index [] = refl
  length-accepted_of index (event ∷ events) = omega (
    arith,
    length-or index (check index event) (accepted_of (suc index) events)
        (errors_of (suc index) events),
    length-accepted_of (suc index) events,
  )

  All-or_skip :
      (P : A → Type 0) (outcome : Result Reason A) (rest : List A)
      → OnOk P outcome
      → All P rest
      → All P (or_skip outcome rest)
  All-or_skip P (ok a) rest h k = (h, k)
  All-or_skip P (err reason) rest h k = k

  pub All-accepted_of :
      (P : A → Type 0) (index : ℕ) (events : List E)
      → ((n : ℕ) (event : E) → OnOk P (check n event))
      → All P (accepted_of index events)
  unfolding accepted_of
  All-accepted_of P index [] h = tt
  All-accepted_of P index (event ∷ events) h =
      All-or_skip P (check index event) (accepted_of (suc index) events) (h index event)
        (All-accepted_of P (suc index) events h)
