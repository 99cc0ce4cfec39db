-- ===== src/Hub/Ingest/Lookups.antt =====
-- Which services a request of `send_logs` looks up, and what it keeps of the answers.
use sentinalysis.Base.{
  Bool, List, Option, Text, [], any, false, if◌then◌else◌, map, none, refl, some, true, text_eq, ℕ,
  ◌&&◌, ◌∙◌, ◌∷◌, ◌≡◌, Bool-cases, inl, inr,
}
use sentinalysis.Base.Results.{Result, err, ok, ok_value}
use sentinalysis.Hub.Validate.{Reason}
use sentinalysis.Hub.Ingest.Check.{ParsedIngest}
use sentinalysis.Hub.Ingest.Handlers.{Call, Deps, Repositories}
use sentinalysis.Hub.Ingest.Wire.{LogsRequest}
use sentinalysis.Hub.Ingest.Logs.{
  Batch, ServiceCache, as_service, cached_or_created, find_service, ingest_all, ingest_one,
  ingested, empty_batch, outcomes_of,
}
use sentinalysis.Hub.Ingest.Batch.{accepted}

abbrev pub service_key : ParsedIngest → Text × Text
service_key i = (i.service_unit_type, i.service_name)

abbrev pub is_key_of : ParsedIngest → Text × Text → Bool
is_key_of i (u, n) = text_eq u i.service_unit_type && text_eq n i.service_name

-- The first line of each service that is not among those seen, in order.
unfoldable pub first_lines : List (Text × Text) → List ParsedIngest → List ParsedIngest
first_lines seen [] = []
first_lines seen (i ∷ is) =
    let known = first_lines seen is in
    let fresh = first_lines (service_key i ∷ seen) is in
    if any (is_key_of i) seen then known else i ∷ fresh

-- The table's answers for the services of the lines, each asked of the table that the look-up
-- before left. A failed look-up gives no id.
unfoldable pub ask_all :
    {R : Type 0} → Repositories R → R → ServiceCache → List ParsedIngest → R × ServiceCache
ask_all repos r answers [] = (r, answers)
ask_all repos r answers (i ∷ is) =
    let asked = repos.get_or_create r (as_service i) in
    ask_all repos asked.0 ((service_key i, ok_value asked.1) ∷ answers) is

abbrev keys : ServiceCache → List (Text × Text)
keys cache = map (λ entry. entry.0) cache

abbrev is_found : Option (Option ℕ) → Bool
is_found none = false
is_found (some id) = true

is_found-find_service :
    (i : ParsedIngest) (cache : ServiceCache)
    → is_found (find_service i.service_unit_type i.service_name cache)
      ≡ any (is_key_of i) (keys cache)
unfolding find_service
is_found-find_service i [] = refl
is_found-find_service i (((u, n), id) ∷ cache) =
    elim (Bool-cases (text_eq u i.service_unit_type && text_eq n i.service_name)) [
      | inl e ↦ rw e refl
      | inr e ↦ rw e (is_found-find_service i cache)
    ]

module _ {R : Type 0} (repos : Repositories R) where
  cached_or_created-asked :
      (b : Batch R) (i : ParsedIngest) (is : List ParsedIngest) (hit : Option (Option ℕ))
      → is_found hit ≡ any (is_key_of i) (keys b.service_cache)
      → ask_all repos
          (cached_or_created repos b i hit).repo
          (cached_or_created repos b i hit).service_cache
          (first_lines (keys (cached_or_created repos b i hit).service_cache) is)
        ≡ ask_all repos b.repo b.service_cache (first_lines (keys b.service_cache) (i ∷ is))
  unfolding ask_all first_lines
  cached_or_created-asked b i is (some id) h =
      let known : any (is_key_of i) (keys b.service_cache) ≡ true = cc in rw known refl
  cached_or_created-asked b i is none h =
      let fresh : any (is_key_of i) (keys b.service_cache) ≡ false = cc in rw fresh refl

  -- The loops ask the table once for each service, at its first accepted line.
  pub ingest_all-asked :
      (outcomes : List (Result Reason ParsedIngest)) (b : Batch R)
      → ((ingest_all repos outcomes b).repo, (ingest_all repos outcomes b).service_cache)
        ≡ ask_all repos b.repo b.service_cache
            (first_lines (keys b.service_cache) (accepted outcomes))
  unfolding ingest_all ingest_one accepted
  ingest_all-asked [] b = unfold ask_all first_lines in refl
  ingest_all-asked (err reason ∷ outcomes) b =
      ingest_all-asked outcomes (ingest_one repos b (err reason))
  ingest_all-asked (ok i ∷ outcomes) b =
      ingest_all-asked outcomes (ingest_one repos b (ok i))
      ∙ cached_or_created-asked b i (accepted outcomes)
          (find_service i.service_unit_type i.service_name b.service_cache)
          (is_found-find_service i b.service_cache)

module _ {R L : Type 0} (deps : Deps R L) (call : Call LogsRequest) (hostname : Text) (r : R) where
  -- The table after the look-ups of a request, and their answers.
  abbrev pub looked_up : R × ServiceCache
  unfolding ask_all first_lines
  looked_up =
      ask_all deps.repos r []
        (first_lines [] (accepted (outcomes_of deps.env call.clock hostname call.message)))

  pub ingested-looked_up :
      ((ingested deps call hostname r).repo, (ingested deps call hostname r).service_cache)
      ≡ looked_up
  unfolding ingested looked_up ask_all
  ingested-looked_up =
      ingest_all-asked deps.repos (outcomes_of deps.env call.clock hostname call.message)
        (empty_batch r)
