-- ===== src/Hub/Auth/Service/Replay.antt =====
-- The cache over a sequence of requests: what vouches for a success, and what does not.
use mathlib.Core.Path.{subst}
use sentinalysis.Base.Results.{ok}
use sentinalysis.Hub.Auth.Service.Sound.{
  Allowed, RowsMatch, Verified, authenticate-Allowed, cached, checked, failed,
}
use sentinalysis.Hub.Auth.Cache.Reads.{
  get-insert_verified_self, get_fresh, lookup-insert_verified, lookup-insert_verified_ne, stored,
}
use sentinalysis.Base.{
  Bool-cases, List, Option, Text, [], ap, arith, inl, inr, le→leb, none, refl, some, sym, text_eq,
  text_eq_iff, ℕ, ◌-◌, ◌∙◌, ◌∷◌, ◌≡◌, ◌≢◌, ◌≤◌, ◌⊎◌,
}
use sentinalysis.Base.Dict.{lookup, lookup-remove}
use sentinalysis.Hub.Auth.Cache.{
  CacheEntry, VerifiedCache, cache_ttl, get, insert_verified, invalidate, new,
}
use sentinalysis.Hub.Auth.Cache.Invariant.{
  IsValid, insert_verified-IsValid, invalidate-IsValid, new-IsValid,
}
use sentinalysis.Hub.Auth.Permission.{Principal}
use sentinalysis.Hub.Auth.Service.{Reply, World, authenticate}
use sentinalysis.Hub.Auth.Key.{parse_key_id}

-- One call of `authenticate`, with the world and the clock as it found them.
pub record Attempt : Type 0 where
  pub world : World
  pub now : ℕ
  pub stored_at : ℕ
  pub raw_key : Text

-- Some attempt of the history verified a key of this id against an active row at that time.
abbrev pub Granted : List Attempt → Text → Principal → ℕ → Type 0
Granted [] key_id p t = ⊥
Granted (a ∷ h) key_id p t =
    ((a.stored_at ≡ t) × Verified a.world a.raw_key key_id p) ⊎ Granted h key_id p t

-- The caches that requests and revocations can lead to, latest request first.
pub data Reach : List Attempt → VerifiedCache → Type 0 where
  start : Reach [] new
  request :
      {h : List Attempt} {c : VerifiedCache} (a : Attempt)
      → RowsMatch a.world
      → Reach h c
      → Reach (a ∷ h) (authenticate a.world a.now a.stored_at c a.raw_key).0
  revoke :
      {h : List Attempt} {c : VerifiedCache} (key_id : Text)
      → Reach h c
      → Reach h (invalidate c key_id)

abbrev pub Vouched : List Attempt → VerifiedCache → Type 0
Vouched h c =
    (k : Text) (e : CacheEntry)
    → lookup k c.entries ≡ some e
    → Granted h k e.principal e.inserted_at

insert_verified-Vouched :
    (h : List Attempt) (c : VerifiedCache) (a : Attempt) (k : Text) (p : Principal)
    → IsValid c
    → Verified a.world a.raw_key k p
    → Vouched h c
    → Vouched (a ∷ h) (insert_verified a.stored_at c k p)
insert_verified-Vouched h c a k p v ver vouched j e found = elim (Bool-cases (text_eq j k)) [
  | inl same ↦
      let at_key : j ≡ k = (text_eq_iff j k).0 same in
      let there : stored a.stored_at c k p ≡ e = cc (lookup-insert_verified a.stored_at c k p v) in
      let of_key : Verified a.world a.raw_key k e.principal =
        subst (λ (x : CacheEntry). Verified a.world a.raw_key k x.principal) there ver in
      inl (
        ap (λ (x : CacheEntry). x.inserted_at) there,
        subst (λ x. Verified a.world a.raw_key x e.principal) (sym at_key) of_key,
      )
  | inr other ↦
      let ne : j ≢ k = λ eq. ground (arith, (text_eq_iff j k).1 eq) in
      inr (vouched j e (lookup-insert_verified_ne a.stored_at c k j p e ne found))
]

reply-Vouched :
    (h : List Attempt) (c : VerifiedCache) (a : Attempt) (k : Text) (r : Reply)
    → Allowed a.world a.now a.stored_at c a.raw_key k r
    → IsValid c
    → Vouched h c
    → IsValid r.0 × Vouched (a ∷ h) r.0
reply-Vouched h c a k r (cached p hit e) v w = rw e (v, λ j x f. inr (w j x f))
reply-Vouched h c a k r (checked p miss ver e) v w =
    rw e (insert_verified-IsValid a.stored_at c k p v, insert_verified-Vouched h c a k p v ver w)
reply-Vouched h c a k r (failed x miss why e) v w = rw e (v, λ j y f. inr (w j y f))

request-Vouched :
    (h : List Attempt) (c : VerifiedCache) (a : Attempt) (parsed : Option Text)
    → parse_key_id a.world.is_match a.raw_key ≡ parsed
    → RowsMatch a.world
    → IsValid c
    → Vouched h c
    → IsValid (authenticate a.world a.now a.stored_at c a.raw_key).0
      × Vouched (a ∷ h) (authenticate a.world a.now a.stored_at c a.raw_key).0
unfolding authenticate
request-Vouched h c a none e m v w = rw e (v, λ j x f. inr (w j x f))
request-Vouched h c a (some k) e m v w =
    reply-Vouched h c a k _ (authenticate-Allowed a.world a.now a.stored_at c a.raw_key k m e) v w

-- Every cache that can be reached is valid, and each of its entries was granted.
Reach-Vouched : {h : List Attempt} {c : VerifiedCache} → Reach h c → IsValid c × Vouched h c
unfolding invalidate lookup
Reach-Vouched start = (new-IsValid, λ k e f. ground arith)
Reach-Vouched (request {h} {c} a m r) =
    let (v, w) = Reach-Vouched r in request-Vouched h c a _ refl m v w
Reach-Vouched (revoke {h} {c} key_id r) =
    let (v, w) = Reach-Vouched r in
    (
      invalidate-IsValid c key_id v,
      λ k e f. w k e (ground (arith, lookup-remove key_id k c.entries)),
    )

Allowed-Granted :
    (h : List Attempt) (c : VerifiedCache) (a : Attempt) (k : Text) (p : Principal) (r : Reply)
    → Allowed a.world a.now a.stored_at c a.raw_key k r
    → r.1 ≡ ok p
    → Vouched h c
    → Verified a.world a.raw_key k p ⊎ ((t : ℕ) × Granted h k p t × (a.now - t ≤ cache_ttl))
Allowed-Granted h c a k p r (cached q hit e) s w =
    let same : q ≡ p = ground arith in
    let (x, found, of_entry, age) = get_fresh a.now c k hit in
    inr
      (x.inserted_at, subst (λ y. Granted h k y x.inserted_at) (of_entry ∙ same) (w k x found), age)
Allowed-Granted h c a k p r (checked q miss ver e) s w =
    let same : q ≡ p = ground arith in inl (subst (λ y. Verified a.world a.raw_key k y) same ver)
Allowed-Granted h c a k p r (failed x miss why e) s w = absurd (ground arith)

-- Whatever requests with well-behaved key tables and whatever revocations came before, if
-- `authenticate` succeeds on a key that parses to an id, then a key of the same id was verified
-- against an active row of that id from which the principal is made: by this request, or by an
-- earlier one that stored its entry no more than the time to live before this one's look-up.
pub authenticate-Granted :
    {h : List Attempt} {c : VerifiedCache} (a : Attempt) (key_id : Text) (p : Principal)
    → Reach h c
    → RowsMatch a.world
    → parse_key_id a.world.is_match a.raw_key ≡ some key_id
    → (authenticate a.world a.now a.stored_at c a.raw_key).1 ≡ ok p
    → Verified a.world a.raw_key key_id p
      ⊎ ((t : ℕ) × Granted h key_id p t × (a.now - t ≤ cache_ttl))
authenticate-Granted {h} {c} a key_id p r m e succeeded =
    Allowed-Granted h c a key_id p _
      (authenticate-Allowed a.world a.now a.stored_at c a.raw_key key_id m e) succeeded
      (Reach-Vouched r).1

replayed :
    (c : VerifiedCache) (first second : Attempt) (k : Text) (p : Principal) (r : Reply)
    → Allowed first.world first.now first.stored_at c first.raw_key k r
    → get first.now c k ≡ none
    → r.1 ≡ ok p
    → IsValid c
    → parse_key_id second.world.is_match second.raw_key ≡ some k
    → second.now - first.stored_at ≤ cache_ttl
    → authenticate second.world second.now second.stored_at r.0 second.raw_key ≡ (r.0, ok p)
unfolding authenticate
replayed c first second k p r (cached q hit e) miss s v e' soon = absurd (ground arith)
replayed c first second k p r (checked q miss' ver e) miss s v e' soon =
    let same : q ≡ p = ground arith in
    let c' = insert_verified first.stored_at c k q in
    let hit : get second.now c' k ≡ some p =
      get-insert_verified_self first.stored_at second.now c k q v
      ∙ rw (le→leb (second.now - first.stored_at) cache_ttl soon) (ap some same) in
    rw (e, e', hit)
replayed c first second k p r (failed x miss' why e) miss s v e' soon = absurd (ground arith)

-- After a request that missed the cache and succeeded, any key with the same id is accepted for
-- the time to live, in any later world that parses the key to that id, and the cache stays as it
-- is: neither its secret nor the table is looked at.
pub authenticate_replay :
    {h : List Attempt} {c : VerifiedCache} (first second : Attempt) (key_id : Text) (p : Principal)
    → Reach h c
    → RowsMatch first.world
    → parse_key_id first.world.is_match first.raw_key ≡ some key_id
    → get first.now c key_id ≡ none
    → (authenticate first.world first.now first.stored_at c first.raw_key).1 ≡ ok p
    → parse_key_id second.world.is_match second.raw_key ≡ some key_id
    → second.now - first.stored_at ≤ cache_ttl
    → let c' = (authenticate first.world first.now first.stored_at c first.raw_key).0 in
      authenticate second.world second.now second.stored_at c' second.raw_key ≡ (c', ok p)
authenticate_replay {c} first second key_id p r m e miss succeeded e' soon =
    replayed c first second key_id p _
      (authenticate-Allowed first.world first.now first.stored_at c first.raw_key key_id m e) miss
      succeeded (Reach-Vouched r).0 e' soon
