-- ===== src/Hub/Auth/Cache/Invariant.antt =====
-- The map and the queue of the cache stay in step, and within the capacity.
use sentinalysis.Base.Dict.{insert, lookup, lookup-insert, lookup-remove, mem_text}
use sentinalysis.Base.{
  Bool-cases, List, Text, [], arith, false, if◌then◌else◌, inl, inr, length, refl, text_eq,
  text_eq_iff, ℕ, ◌++◌, ◌∷◌, ◌≡◌, ◌≤◌,
}
use sentinalysis.Hub.Auth.Cache.{
  CacheEntry, VerifiedCache, cache_max_entries, insert_verified, invalidate, new, without,
}
use sentinalysis.Hub.Auth.Permission.{Principal}
use sentinalysis.Hub.Auth.Cache.Cleanup.{
  IsDistinct, Lists, evict-IsDistinct, evict-Lists, evict-length, mem_text-append, purge-IsDistinct,
  purge-Lists,
}

pub record IsValid (c : VerifiedCache) : Type 0 where
  pub distinct : IsDistinct c.order
  pub lists : Lists c.order c.entries
  pub bounded : length c.order ≤ cache_max_entries

pub new-IsValid : IsValid new
unfolding mem_text lookup
new-IsValid = record { distinct = tt; lists = λ k. refl; bounded = omega arith }

-- The queue and the map when the new entry is in, and nothing is purged yet.
abbrev pub queued : VerifiedCache → Text → List Text
queued c key_id = if mem_text key_id c.order then c.order else c.order ++ key_id ∷ []

IsDistinct-append :
    (k : Text) (ks : List Text) → mem_text k ks ≡ false → IsDistinct ks → IsDistinct (ks ++ k ∷ [])
unfolding mem_text
IsDistinct-append k [] h d = (refl, tt)
IsDistinct-append k (x ∷ ks) h d = (
  ground (arith, mem_text-append x k ks, d.0, text_eq_iff x k, text_eq_iff k x),
  IsDistinct-append k ks (ground arith) d.1,
)

queued-IsDistinct : (c : VerifiedCache) (k : Text) → IsDistinct c.order → IsDistinct (queued c k)
queued-IsDistinct c k d = elim (Bool-cases (mem_text k c.order)) [
  | inl old ↦ rw old d
  | inr fresh ↦ rw fresh (IsDistinct-append k c.order fresh d)
]

queued-Lists :
    (c : VerifiedCache) (k : Text) (e : CacheEntry)
    → Lists c.order c.entries
    → Lists (queued c k) (insert k e c.entries)
queued-Lists c k e l j =
    ground (arith, l j, lookup-insert k j e c.entries, mem_text-append j k c.order, text_eq_iff k j)

-- An insert into a valid cache leaves a valid one: the queue has no key twice, it lists exactly
-- the keys of the map, and it is no longer than the capacity.
pub insert_verified-IsValid :
    (now : ℕ) (c : VerifiedCache) (k : Text) (p : Principal)
    → IsValid c
    → IsValid (insert_verified now c k p)
unfolding insert_verified
insert_verified-IsValid now c k p v =
    let e : CacheEntry = record { principal = p; inserted_at = now } in
    let entries = insert k e c.entries in
    let order = queued c k in
    let d = purge-IsDistinct now entries order (queued-IsDistinct c k v.distinct) in
    let l = purge-Lists now entries order (queued-Lists c k e v.lists) in
    record {
      distinct = evict-IsDistinct _ _ d;
      lists = evict-Lists _ _ d l;
      bounded = evict-length _ _;
    }

mem_text-without :
    (k j : Text) (ks : List Text)
    → mem_text j (without k ks) ≡ (if text_eq k j then false else mem_text j ks)
unfolding without mem_text
mem_text-without k j [] = ground arith
mem_text-without k j (x ∷ ks) =
    ground (arith, mem_text-without k j ks, text_eq_iff x k, text_eq_iff x j, text_eq_iff k j)

without-IsDistinct : (k : Text) (ks : List Text) → IsDistinct ks → IsDistinct (without k ks)
unfolding without
without-IsDistinct k [] d = tt
without-IsDistinct k (x ∷ ks) d = elim (Bool-cases (text_eq x k)) [
  | inl same ↦ rw same (without-IsDistinct k ks d.1)
  | inr other ↦ rw other (ground (arith, mem_text-without k x ks, d.0), without-IsDistinct k ks d.1)
]

length-without : (k : Text) (ks : List Text) → length (without k ks) ≤ length ks
unfolding without
length-without k [] = omega arith
length-without k (x ∷ ks) = ground (arith, length-without k ks)

pub invalidate-IsValid : (c : VerifiedCache) (k : Text) → IsValid c → IsValid (invalidate c k)
unfolding invalidate
invalidate-IsValid c k v = record {
  distinct = without-IsDistinct k c.order v.distinct;
  lists = λ j. ground (arith, v.lists j, mem_text-without k j c.order, lookup-remove k j c.entries);
  bounded = omega (arith, length-without k c.order, v.bounded);
}
