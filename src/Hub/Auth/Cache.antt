-- ===== src/Hub/Auth/Cache.antt =====
-- src/hub/auth.rs: the bounded cache of verified principals.
mod Cleanup
pub mod Invariant
pub mod Reads
use sentinalysis.Base.{
  Bool, List, Option, Text, [], false, if◌then◌else◌, leb, length, ltb, none, some, text_eq, ℕ,
  ◌++◌, ◌-◌, ◌∷◌,
}
use sentinalysis.Base.Dict.{Dict, insert, lookup, mem_text, remove}
use sentinalysis.Hub.Auth.Permission.{Principal}

-- Instants and durations are counts of nanoseconds; one insert reads the clock once.
pub record CacheEntry : Type 0 where
  pub principal : Principal
  pub inserted_at : ℕ

pub record VerifiedCache : Type 0 where
  pub entries : Dict CacheEntry
  pub order : List Text

abbrev pub cache_max_entries : ℕ
cache_max_entries = 1000

abbrev pub cache_ttl : ℕ
cache_ttl = 60_000_000_000

-- `inserted_at.elapsed() <= CACHE_TTL`; `elapsed` saturates at zero, as `-` does.
abbrev pub is_fresh : ℕ → CacheEntry → Bool
is_fresh now e = leb (now - e.inserted_at) cache_ttl

abbrev pub fresh_principal : ℕ → Option CacheEntry → Option Principal
fresh_principal now none = none
fresh_principal now (some e) = if is_fresh now e then some e.principal else none

abbrev pub new : VerifiedCache
new = record { entries = []; order = [] }

unfoldable pub get : ℕ → VerifiedCache → Text → Option Principal
get now c key_id = fresh_principal now (lookup key_id c.entries)

-- The closure of `retain`.
abbrev pub keep : ℕ → Option CacheEntry → Bool
keep now none = false
keep now (some e) = is_fresh now e

-- `order.retain(…)`, which also removes from the map what it does not keep.
unfoldable pub purge : ℕ → Dict CacheEntry → List Text → VerifiedCache
purge now entries [] = record { entries = entries; order = [] }
purge now entries (k ∷ ks) =
    let kept = keep now (lookup k entries) in
    let rest = purge now (if kept then entries else remove k entries) ks in
    if kept then record rest { order = k ∷ rest.order } else rest

-- The loop that enforces the capacity.
unfoldable pub evict : Dict CacheEntry → List Text → VerifiedCache
evict entries [] = record { entries = entries; order = [] }
evict entries (k ∷ ks) =
    let rest = evict (remove k entries) ks in
    if ltb cache_max_entries (length (k ∷ ks))
    then rest
    else record { entries = entries; order = k ∷ ks }

unfoldable pub insert_verified : ℕ → VerifiedCache → Text → Principal → VerifiedCache
insert_verified now c key_id p =
    let order = if mem_text key_id c.order then c.order else c.order ++ key_id ∷ [] in
    let entries = insert key_id (record { principal = p; inserted_at = now }) c.entries in
    let purged = purge now entries order in evict purged.entries purged.order

-- `order.retain(|k| k != key_id)`
unfoldable pub without : Text → List Text → List Text
without key_id [] = []
without key_id (k ∷ ks) =
    let rest = without key_id ks in if text_eq k key_id then rest else k ∷ rest

unfoldable pub invalidate : VerifiedCache → Text → VerifiedCache
unfolding without
invalidate c key_id = record { entries = remove key_id c.entries; order = without key_id c.order }
