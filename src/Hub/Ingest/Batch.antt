-- ===== src/Hub/Ingest/Batch.antt =====
-- What the loops of `send_logs` make of the outcomes of the checks.
use sentinalysis.Base.{
  Bool-cases, List, Option, Text, [], ap, append-nil, append_assoc, arith, inl, inr, length, map,
  none, refl, some, sym, text_eq, text_eq_iff, text_eq_self, ℕ, ◌&&◌, ◌++◌, ◌+◌, ◌∙◌, ◌∷◌, ◌≡◌,
}
use sentinalysis.Base.Results.{Result, err, ok, ok_value}
use sentinalysis.Hub.Validate.{Reason}
use sentinalysis.Hub.Ingest.Check.{ParsedIngest}
use sentinalysis.Hub.Ingest.Handlers.{Repositories}
use sentinalysis.Hub.Ingest.Logs.{
  Batch, ServiceCache, as_service, cached_or_created, find_service, ingest_all, ingest_one,
  with_service,
}
use sentinalysis.LogScanner.Entry.{InsertLogEntry}

-- The outcomes that are no rejection, in order.
unfoldable pub accepted : List (Result Reason ParsedIngest) → List ParsedIngest
accepted [] = []
accepted (err reason ∷ outcomes) = accepted outcomes
accepted (ok ingest ∷ outcomes) = ingest ∷ accepted outcomes

abbrev pub joined : Option (Option ℕ) → Option ℕ
joined none = none
joined (some id) = id

-- An entry with the id that a cache has for its service.
unfoldable pub attach : ServiceCache → ParsedIngest → InsertLogEntry
unfolding find_service
attach cache ingest =
    with_service (joined (find_service ingest.service_unit_type ingest.service_name cache))
      ingest.entry

find_service_self :
    (u n : Text) (id : Option ℕ) (cache : ServiceCache)
    → find_service u n (((u, n), id) ∷ cache) ≡ some id
unfolding find_service
find_service_self u n id cache = ground (arith, text_eq_self u, text_eq_self n)

-- A key that is absent is not one that is found.
find_service-other :
    (u n v m : Text) (id new_id : Option ℕ) (cache : ServiceCache)
    → find_service v m cache ≡ none
    → find_service u n cache ≡ some id
    → find_service u n (((v, m), new_id) ∷ cache) ≡ some id
unfolding find_service
find_service-other u n v m id new_id cache absent found =
    elim (Bool-cases (text_eq v u && text_eq m n)) [
      | inl e ↦
          let same_unit : v ≡ u = (text_eq_iff v u).0 (ground arith) in
          let same_name : m ≡ n = (text_eq_iff m n).0 (ground arith) in absurd (cc)
      | inr e ↦ rw e found
    ]

module _ {R : Type 0} (repos : Repositories R) where
  -- A service that has an id in the cache keeps it.
  cached_or_created-keeps :
      (b : Batch R) (i : ParsedIngest) (hit : Option (Option ℕ)) (u n : Text) (id : Option ℕ)
      → find_service i.service_unit_type i.service_name b.service_cache ≡ hit
      → find_service u n b.service_cache ≡ some id
      → find_service u n (cached_or_created repos b i hit).service_cache ≡ some id
  cached_or_created-keeps b i (some other) u n id h found = found
  cached_or_created-keeps b i none u n id h found =
      find_service-other u n i.service_unit_type i.service_name id _ b.service_cache h found

  ingest_one-keeps :
      (b : Batch R) (outcome : Result Reason ParsedIngest) (u n : Text) (id : Option ℕ)
      → find_service u n b.service_cache ≡ some id
      → find_service u n (ingest_one repos b outcome).service_cache ≡ some id
  unfolding ingest_one
  ingest_one-keeps b (err reason) u n id found = found
  ingest_one-keeps b (ok i) u n id found = cached_or_created-keeps b i _ u n id refl found

  ingest_all-keeps :
      (outcomes : List (Result Reason ParsedIngest)) (b : Batch R) (u n : Text) (id : Option ℕ)
      → find_service u n b.service_cache ≡ some id
      → find_service u n (ingest_all repos outcomes b).service_cache ≡ some id
  unfolding ingest_all
  ingest_all-keeps [] b u n id found = found
  ingest_all-keeps (outcome ∷ outcomes) b u n id found =
      ingest_all-keeps outcomes (ingest_one repos b outcome) u n id
        (ingest_one-keeps b outcome u n id found)

  -- An accepted line is pushed with the id that the cache then has for its service.
  record Pushed (b after : Batch R) (i : ParsedIngest) : Type 0 where
    pub id : Option ℕ
    pub grown : after.entries ≡ b.entries ++ with_service id i.entry ∷ []
    pub known : find_service i.service_unit_type i.service_name after.service_cache ≡ some id
    pub same_rejected : after.rejected ≡ b.rejected

  cached_or_created-Pushed :
      (b : Batch R) (i : ParsedIngest) (hit : Option (Option ℕ))
      → find_service i.service_unit_type i.service_name b.service_cache ≡ hit
      → Pushed b (cached_or_created repos b i hit) i
  cached_or_created-Pushed b i (some id) h = record {
    id = id;
    grown = refl;
    known = h;
    same_rejected = refl;
  }
  cached_or_created-Pushed b i none h =
      let answer = ok_value (repos.get_or_create b.repo (as_service i)).1 in
      record {
        id = answer;
        grown = refl;
        known = find_service_self i.service_unit_type i.service_name answer b.service_cache;
        same_rejected = refl;
      }

  ingest_one-Pushed : (b : Batch R) (i : ParsedIngest) → Pushed b (ingest_one repos b (ok i)) i
  unfolding ingest_one
  ingest_one-Pushed b i = cached_or_created-Pushed b i _ refl

  -- The loops add the accepted lines in order, each with the id that the cache at the end has for
  -- its service.
  pub ingest_all-entries :
      (outcomes : List (Result Reason ParsedIngest)) (b : Batch R)
      → (ingest_all repos outcomes b).entries
        ≡ b.entries ++ map (attach (ingest_all repos outcomes b).service_cache) (accepted outcomes)
  unfolding ingest_all accepted
  ingest_all-entries [] b = sym (append-nil b.entries)
  ingest_all-entries (err reason ∷ outcomes) b =
      unfold ingest_one in ingest_all-entries outcomes (ingest_one repos b (err reason))
  ingest_all-entries (ok i ∷ outcomes) b =
      let next = ingest_one repos b (ok i) in
      let last = (ingest_all repos outcomes next).service_cache in
      let pushed_i = ingest_one-Pushed b i in
      let kept =
        ingest_all-keeps outcomes next i.service_unit_type i.service_name pushed_i.id
          pushed_i.known in
      let rest = map (attach last) (accepted outcomes) in
      let attached : attach last i ≡ with_service pushed_i.id i.entry =
        unfold attach in ap (λ found. with_service (joined found) i.entry) kept in
      ingest_all-entries outcomes next
      ∙ ap (λ es. es ++ rest) (pushed_i.grown)
      ∙ append_assoc b.entries (with_service pushed_i.id i.entry ∷ []) rest
      ∙ ap (λ e. b.entries ++ e ∷ rest) (sym attached)

  -- A line is either accepted or counted as rejected.
  pub ingest_all-rejected :
      (outcomes : List (Result Reason ParsedIngest)) (b : Batch R)
      → (ingest_all repos outcomes b).rejected + length (accepted outcomes)
        ≡ b.rejected + length outcomes
  unfolding ingest_all accepted
  ingest_all-rejected [] b = refl
  ingest_all-rejected (err reason ∷ outcomes) b =
      unfold ingest_one in
      omega (arith, ingest_all-rejected outcomes (ingest_one repos b (err reason)))
  ingest_all-rejected (ok i ∷ outcomes) b = omega (
    arith,
    ingest_all-rejected outcomes (ingest_one repos b (ok i)),
    (ingest_one-Pushed b i).same_rejected,
  )
