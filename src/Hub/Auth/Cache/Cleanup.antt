-- ===== src/Hub/Auth/Cache/Cleanup.antt =====
-- What the two clean-up loops of an insert do: `retain` drops what has expired, and the capacity
-- loop drops the oldest keys.
use sentinalysis.Base.Dict.{Dict, lookup, lookup-remove, mem_text, remove}
use sentinalysis.Base.{
  Bool, Bool-cases, List, Option, Text, [], arith, false, if◌then◌else◌, inl, inr, length, ltb,
  none, not, refl, some, text_eq, text_eq_iff, true, ℕ, ◌&&◌, ◌++◌, ◌||◌, ◌∷◌, ◌≡◌, ◌≤◌,
}
use sentinalysis.Hub.Auth.Cache.{CacheEntry, cache_max_entries, evict, keep, purge}

-- No text twice.
abbrev pub IsDistinct : List Text → Type 0
IsDistinct [] = Unit
IsDistinct (k ∷ ks) = (mem_text k ks ≡ false) × IsDistinct ks

abbrev pub is_some {ℓ} : {A : Type ℓ} → Option A → Bool
is_some none = false
is_some (some a) = true

-- The queue lists exactly the keys of the map.
abbrev pub Lists : List Text → Dict CacheEntry → Type 0
Lists order entries = (k : Text) → mem_text k order ≡ is_some (lookup k entries)

pub mem_text-append :
    (k j : Text) (ks : List Text) → mem_text k (ks ++ j ∷ []) ≡ (mem_text k ks || text_eq j k)
unfolding mem_text
mem_text-append k j [] = ground arith
mem_text-append k j (x ∷ ks) = ground (arith, mem_text-append k j ks)

-- What `purge` does to one key of the map.
pub purge-lookup :
    (now : ℕ) (entries : Dict CacheEntry) (order : List Text) (k : Text)
    → lookup k (purge now entries order).entries
      ≡ (if mem_text k order && not (keep now (lookup k entries)) then none else lookup k entries)
unfolding purge mem_text
purge-lookup now entries [] k = refl
purge-lookup now entries (x ∷ xs) k = ground (
  arith,
  text_eq_iff x k,
  purge-lookup now entries xs k,
  purge-lookup now (remove x entries) xs k,
  lookup-remove x k entries,
)

pub purge-mem :
    (now : ℕ) (entries : Dict CacheEntry) (order : List Text) (k : Text)
    → mem_text k (purge now entries order).order ≡ (mem_text k order && keep now (lookup k entries))
unfolding purge mem_text
purge-mem now entries [] k = refl
purge-mem now entries (x ∷ xs) k = ground (
  arith,
  text_eq_iff x k,
  purge-mem now entries xs k,
  purge-mem now (remove x entries) xs k,
  lookup-remove x k entries,
)

pub purge-length :
    (now : ℕ) (entries : Dict CacheEntry) (order : List Text)
    → length (purge now entries order).order ≤ length order
unfolding purge
purge-length now entries [] = omega arith
purge-length now entries (x ∷ xs) =
    ground (arith, purge-length now entries xs, purge-length now (remove x entries) xs)

pub purge-IsDistinct :
    (now : ℕ) (entries : Dict CacheEntry) (order : List Text)
    → IsDistinct order
    → IsDistinct (purge now entries order).order
unfolding purge
purge-IsDistinct now entries [] d = tt
purge-IsDistinct now entries (x ∷ xs) d = elim (Bool-cases (keep now (lookup x entries))) [
  | inl kept ↦
      rw kept (rw (purge-mem now entries xs x, d.0) refl, purge-IsDistinct now entries xs d.1)
  | inr gone ↦ rw gone (purge-IsDistinct now (remove x entries) xs d.1)
]

pub purge-Lists :
    (now : ℕ) (entries : Dict CacheEntry) (order : List Text)
    → Lists order entries
    → Lists (purge now entries order).order (purge now entries order).entries
purge-Lists now entries order l k =
    ground (arith, l k, purge-mem now entries order k, purge-lookup now entries order k)

pub evict-length :
    (entries : Dict CacheEntry) (order : List Text)
    → length (evict entries order).order ≤ cache_max_entries
unfolding evict
evict-length entries [] = omega arith
evict-length entries (k ∷ ks) = ground (arith, evict-length (remove k entries) ks)

pub evict-IsDistinct :
    (entries : Dict CacheEntry) (order : List Text)
    → IsDistinct order
    → IsDistinct (evict entries order).order
unfolding evict
evict-IsDistinct entries [] d = tt
evict-IsDistinct entries (k ∷ ks) d = elim (Bool-cases (ltb cache_max_entries (length (k ∷ ks)))) [
  | inl over ↦ rw over (evict-IsDistinct (remove k entries) ks d.1)
  | inr fits ↦ rw fits d
]

pub Lists-remove :
    (k : Text) (ks : List Text) (entries : Dict CacheEntry)
    → IsDistinct (k ∷ ks)
    → Lists (k ∷ ks) entries
    → Lists ks (remove k entries)
unfolding mem_text
Lists-remove k ks entries d l j =
    ground (arith, l j, d.0, lookup-remove k j entries, text_eq_iff k j)

pub evict-Lists :
    (entries : Dict CacheEntry) (order : List Text)
    → IsDistinct order
    → Lists order entries
    → Lists (evict entries order).order (evict entries order).entries
unfolding evict
evict-Lists entries [] d l = l
evict-Lists entries (k ∷ ks) d l = elim (Bool-cases (ltb cache_max_entries (length (k ∷ ks)))) [
  | inl over ↦ rw over (evict-Lists (remove k entries) ks d.1 (Lists-remove k ks entries d l))
  | inr fits ↦ rw fits l
]
