-- ===== src/LogScanner/Pipeline/Resolver.antt =====
-- The cache of resolved services.
use sentinalysis.Base.{Option, Text, ap, if◌then◌else◌, none, refl, some, text_eq_self, ℕ, ◌∙◌, ◌≡◌}
use sentinalysis.Base.Dict.{Dict, lookup, lookup-insert}
use sentinalysis.Base.Results.{Result, err, ok}
use sentinalysis.LogScanner.Pipeline.{GetOrCreate, Services, cached_or, resolve, stored_id}
use sentinalysis.Hub.Validate.{unit_type}

resolve_found :
    {R : Type 0} (g : GetOrCreate R) (name unit_type : Text) (vhost : Option Text) (s : Services R)
    (id : ℕ)
    → lookup name s.cache ≡ some id
    → resolve g name unit_type vhost s ≡ (s, some id)
unfolding resolve
resolve_found g name unit_type vhost s id h = rw h refl

-- An answer of the table that names an id is in the cache afterwards.
stored_id-cached :
    {R : Type 0} (name : Text) (cache : Dict ℕ) (answer : R × Result Text ℕ) (id : ℕ)
    → (stored_id name cache answer).1 ≡ some id
    → lookup name (stored_id name cache answer).0.cache ≡ some id
stored_id-cached name cache (r, ok found) id h =
    lookup-insert name name found cache
    ∙ ap (λ b. if b then some found else lookup name cache) (text_eq_self name)
    ∙ h
stored_id-cached name cache (r, err e) id h = absurd (cc)

cached_or-cached :
    {R : Type 0} (name : Text) (s : Services R) (found : Option ℕ) (answer : R × Result Text ℕ)
    (id : ℕ)
    → lookup name s.cache ≡ found
    → (cached_or s found (stored_id name s.cache answer)).1 ≡ some id
    → lookup name (cached_or s found (stored_id name s.cache answer)).0.cache ≡ some id
cached_or-cached name s (some old) answer id e h = e ∙ h
cached_or-cached name s none answer id e h = stored_id-cached name s.cache answer id h

resolve-cached :
    {R : Type 0} (g : GetOrCreate R) (name unit_type : Text) (vhost : Option Text) (s : Services R)
    (id : ℕ)
    → (resolve g name unit_type vhost s).1 ≡ some id
    → lookup name (resolve g name unit_type vhost s).0.cache ≡ some id
unfolding resolve
resolve-cached g name unit_type vhost s id h =
    cached_or-cached name s (lookup name s.cache)
      (g s.repo
        record { name = name; unit_type = unit_type; log_paths = none; virtual_host = vhost })
      id refl h

-- Once a service name was resolved to an id, it resolves to that id for every unit type and
-- virtual host, without a call of the table and without a change of the cache.
pub resolve_again :
    {R : Type 0} (g : GetOrCreate R) (name unit_type other_type : Text)
    (vhost other_vhost : Option Text) (s : Services R) (id : ℕ)
    → (resolve g name unit_type vhost s).1 ≡ some id
    → resolve g name other_type other_vhost (resolve g name unit_type vhost s).0
      ≡ ((resolve g name unit_type vhost s).0, some id)
resolve_again g name unit_type other_type vhost other_vhost s id h =
    resolve_found g name other_type other_vhost _ id (resolve-cached g name unit_type vhost s id h)
