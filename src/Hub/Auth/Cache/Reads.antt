-- ===== src/Hub/Auth/Cache/Reads.antt =====
-- What can be read from the cache after each operation.
use sentinalysis.Base.Dict.{Dict, insert, lookup, lookup-insert, lookup-remove, mem_text, remove}
use sentinalysis.Base.{
  Bool-cases, List, Option-cases, Text, [], ap, arith, false, if◌then◌else◌, inl, inr, leb, length,
  none, refl, some, text_eq, text_eq_iff, text_eq_self, true, ℕ, ◌++◌, ◌-◌, ◌∙◌, ◌∷◌, ◌≡◌, ◌≢◌, ◌≤◌,
}
use sentinalysis.Hub.Auth.Cache.Invariant.{IsValid, insert_verified-IsValid, queued}
use sentinalysis.Hub.Auth.Cache.{
  CacheEntry, VerifiedCache, cache_max_entries, cache_ttl, evict, get, insert_verified, invalidate,
  keep, purge,
}
use sentinalysis.Hub.Auth.Permission.{Principal}
use sentinalysis.Hub.Auth.Cache.Cleanup.{mem_text-append, purge-length, purge-lookup, purge-mem}

-- A hit is an entry no older than the time to live.
pub get_fresh :
    (now : ℕ) (c : VerifiedCache) (k : Text) {p : Principal}
    → get now c k ≡ some p
    → (e : CacheEntry) × (lookup k c.entries ≡ some e)
      × (e.principal ≡ p)
      × (now - e.inserted_at ≤ cache_ttl)
unfolding get
get_fresh now c k h = elim (Option-cases (lookup k c.entries)) [
  | inl missing ↦ absurd (ground arith)
  | inr (e, found) ↦ (e, found, ground arith, ground arith)
]

-- After `invalidate` the key misses, and every other key reads as before.
pub get-invalidate :
    (now : ℕ) (c : VerifiedCache) (k j : Text)
    → get now (invalidate c k) j ≡ (if text_eq k j then none else get now c j)
unfolding get invalidate
get-invalidate now c k j = ground (arith, lookup-remove k j c.entries)

-- The capacity loop only removes.
evict_sub :
    (entries : Dict CacheEntry) (order : List Text) (j : Text) (e : CacheEntry)
    → lookup j (evict entries order).entries ≡ some e
    → lookup j entries ≡ some e
unfolding evict
evict_sub entries [] j e h = h
evict_sub entries (k ∷ ks) j e h =
    ground (arith, evict_sub (remove k entries) ks j e, lookup-remove k j entries)

-- The capacity loop keeps the key at the back.
evict_last :
    (entries : Dict CacheEntry) (order : List Text) (k : Text)
    → mem_text k (evict entries (order ++ k ∷ [])).order ≡ true
unfolding evict mem_text
evict_last entries [] k = ground (arith, text_eq_self k)
evict_last entries (x ∷ ks) k =
    ground (arith, evict_last (remove x entries) ks k, mem_text-append k k ks, text_eq_self k)

-- Within the capacity it does nothing.
evict_small :
    (entries : Dict CacheEntry) (order : List Text)
    → length order ≤ cache_max_entries
    → evict entries order ≡ record { entries = entries; order = order }
unfolding evict
evict_small entries [] h = refl
evict_small entries (k ∷ ks) h = ground arith

-- A fresh key at the back of the queue stays there.
purge-append :
    (now : ℕ) (entries : Dict CacheEntry) (ks : List Text) (k : Text)
    → keep now (lookup k entries) ≡ true
    → mem_text k ks ≡ false
    → (purge now entries (ks ++ k ∷ [])).order ≡ (purge now entries ks).order ++ k ∷ []
unfolding purge mem_text
purge-append now entries [] k h n = ground arith
purge-append now entries (x ∷ ks) k h n = ground (
  arith,
  purge-append now entries ks k,
  purge-append now (remove x entries) ks k,
  lookup-remove x k entries,
)

module _ (now : ℕ) (c : VerifiedCache) (k : Text) (p : Principal) where
  abbrev pub stored : CacheEntry
  stored = record { principal = p; inserted_at = now }

  abbrev stored_entries : Dict CacheEntry
  stored_entries = insert k stored c.entries

  abbrev purged : VerifiedCache
  purged = purge now stored_entries (queued c k)

  stored-keep : keep now (lookup k stored_entries) ≡ true
  stored-keep = ground (arith, lookup-insert k k stored c.entries, text_eq_self k)

  -- The key just inserted is never the one that the capacity loop drops.
  mem-insert_verified : IsValid c → mem_text k (evict purged.entries purged.order).order ≡ true
  mem-insert_verified v = elim (Bool-cases (mem_text k c.order)) [
    | inl old ↦
        let same : queued c k ≡ c.order = rw old in
        let small : length purged.order ≤ cache_max_entries =
          omega (arith, purge-length now stored_entries (queued c k), ap length same, v.bounded) in
        rw (evict_small purged.entries purged.order small)
          (rw (purge-mem now stored_entries (queued c k) k, stored-keep, same, old))
    | inr fresh ↦
        let back : queued c k ≡ c.order ++ k ∷ [] = rw fresh in
        let last : purged.order ≡ (purge now stored_entries c.order).order ++ k ∷ [] =
          ap (λ ks. (purge now stored_entries ks).order) back
          ∙ purge-append now stored_entries c.order k stored-keep fresh in
        rw last (evict_last purged.entries (purge now stored_entries c.order).order k)
  ]

  pub lookup-insert_verified :
      IsValid c → lookup k (insert_verified now c k p).entries ≡ some stored
  unfolding insert_verified
  lookup-insert_verified v =
      elim (Option-cases (lookup k (evict purged.entries purged.order).entries)) [
        | inl missing ↦
            absurd
              (ground (arith, (insert_verified-IsValid now c k p v).lists k, mem-insert_verified v))
        | inr (e, found) ↦ ground (
          arith,
          evict_sub purged.entries purged.order k e found,
          purge-lookup now stored_entries (queued c k) k,
          lookup-insert k k stored c.entries,
          text_eq_self k,
        )
      ]

-- In a valid cache, a principal just inserted is found for as long as the time to live, and no
-- longer.
pub get-insert_verified_self :
    (now later : ℕ) (c : VerifiedCache) (k : Text) (p : Principal)
    → IsValid c
    → get later (insert_verified now c k p) k
      ≡ (if leb (later - now) cache_ttl then some p else none)
unfolding get
get-insert_verified_self now later c k p v = rw (lookup-insert_verified now c k p v)

pub lookup-insert_verified_ne :
    (now : ℕ) (c : VerifiedCache) (k j : Text) (p : Principal) (e : CacheEntry)
    → j ≢ k
    → lookup j (insert_verified now c k p).entries ≡ some e
    → lookup j c.entries ≡ some e
unfolding insert_verified
lookup-insert_verified_ne now c k j p e ne h = ground (
  arith,
  evict_sub (purged now c k p).entries (purged now c k p).order j e h,
  purge-lookup now (stored_entries now c k p) (queued c k) j,
  lookup-insert k j (stored now c k p) c.entries,
  text_eq_iff k j,
)

-- An insert adds no other hit: what is found under another key was found before.
pub get-insert_verified_ne :
    (now later : ℕ) (c : VerifiedCache) (k j : Text) (p : Principal) {q : Principal}
    → j ≢ k
    → get later (insert_verified now c k p) j ≡ some q
    → get later c j ≡ some q
unfolding get
get-insert_verified_ne now later c k j p ne h =
    elim (Option-cases (lookup j (insert_verified now c k p).entries)) [
      | inl missing ↦ absurd (ground arith)
      | inr (e, found) ↦ ground (arith, lookup-insert_verified_ne now c k j p e ne found)
    ]
