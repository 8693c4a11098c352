-- ===== src/Dedupe.antt =====
-- internal/broker/dedupe.go: the stores that remember dedupe keys. The mutex makes each method one
-- transition; `now` is its reading of the clock. A map of keys is a list with one entry for each
-- key; for the LRU store it is the linked list, most recently used first, and the map `items`
-- finds the element of that list which holds the key.
pub mod Entries
pub mod Window
pub mod Lru
use shoebox.Base.{
  ℕ, suc, ◌+◌, Bool, true, false, not, ◌&&◌, ◌||◌, List, [], ◌∷◌, ◌++◌, Option, none, some, ltb,
  leb, if◌then◌else◌, length,
}
use shoebox.Base.Int.{ℤ, pos, negsuc}
use shoebox.Base.Text.{Str, str_eq, bytes, has_prefix}
use shoebox.Storage.{Time}

pub record Entry : Type 0 where
  pub key : Str
  pub expires_at : Time

-- `items[key]`.
unfoldable pub find : Str → List Entry → Option Entry
find k [] = none
find k (e ∷ es) = if str_eq e.key k then some e else find k es

-- `delete(items, key)`.
unfoldable pub remove : Str → List Entry → List Entry
remove k [] = []
remove k (e ∷ es) = let rest = remove k es in if str_eq e.key k then rest else e ∷ rest

-- The entry of a key that still lasts at `now`.
abbrev pub live_at : Time → Option Entry → Bool
live_at now none = false
live_at now (some e) = ltb now e.expires_at

abbrev pub sweep_limit : ℕ
sweep_limit = 1024

-- Deletes the entries that have run out.
unfoldable pub sweep : Time → List Entry → List Entry
sweep now [] = []
sweep now (e ∷ es) = let rest = sweep now es in if ltb now e.expires_at then e ∷ rest else rest

-- `ttlDedupeStore.SeenOrAdd`.
unfoldable pub ttl_seen_or_add : List Entry → Str → ℕ → Time → List Entry × Bool
ttl_seen_or_add seen key ttl now =
    let added = record { key = key; expires_at = now + ttl } ∷ remove key seen in
    if live_at now (find key seen)
    then (seen, true)
    else (if ltb sweep_limit (length added) then sweep now added else added, false)

-- Deletes the entries whose key has the prefix `queue + ":"`: `purgeQueue` of both stores.
unfoldable pub purge_queue : Str → List Entry → List Entry
purge_queue queue [] = []
purge_queue queue (e ∷ es) =
    let rest = purge_queue queue es in
    if has_prefix e.key (queue ++ bytes ":") then rest else e ∷ rest

abbrev pub default_capacity : ℕ
default_capacity = 100000

-- `newLRUDedupeStore` replaces a capacity that is not positive.
unfoldable pub lru_capacity : ℤ → ℕ
lru_capacity (pos n) = if ltb 0 n then n else default_capacity
lru_capacity (negsuc n) = default_capacity

-- Without the last element, which is the least recently used.
unfoldable pub drop_last : List Entry → List Entry
drop_last [] = []
drop_last (e ∷ []) = []
drop_last (e ∷ f ∷ es) = e ∷ drop_last (f ∷ es)

-- `lruDedupeStore.SeenOrAdd`, with the number of evictions that it reports to `onEvict`.
unfoldable pub lru_seen_or_add : ℕ → List Entry → Str → ℕ → Time → List Entry × Bool × ℕ
lru_seen_or_add capacity items key ttl now =
    let others = remove key items in
    let added = record { key = key; expires_at = now + ttl } ∷ others in
    elim (find key items) [
      | none ↦
          if ltb capacity (length added) then (drop_last added, false, 1) else (added, false, 0)
      | some e ↦
          if ltb now e.expires_at
          then (e ∷ others, true, 0)
          else if ltb capacity (length added)
          then (drop_last added, false, 1)
          else (added, false, 0)
    ]

-- The store behind the `dedupeStore` interface.
pub data DedupeStore : Type 0 where
  ttl_store : List Entry → DedupeStore
  lru_store : ℕ → List Entry → DedupeStore

unfoldable pub seen_or_add : DedupeStore → Str → ℕ → Time → DedupeStore × Bool
unfolding ttl_seen_or_add lru_seen_or_add
seen_or_add (ttl_store seen) key ttl now =
    let r = ttl_seen_or_add seen key ttl now in (ttl_store r.0, r.1)
seen_or_add (lru_store capacity items) key ttl now =
    let r = lru_seen_or_add capacity items key ttl now in (lru_store capacity r.0, r.1)

unfoldable pub delete_key : DedupeStore → Str → DedupeStore
unfolding remove
delete_key (ttl_store seen) key = ttl_store (remove key seen)
delete_key (lru_store capacity items) key = lru_store capacity (remove key items)

unfoldable pub purge : DedupeStore → Str → DedupeStore
unfolding purge_queue
purge (ttl_store seen) queue = ttl_store (purge_queue queue seen)
purge (lru_store capacity items) queue = lru_store capacity (purge_queue queue items)

-- `newDedupeStore`; `none` is an unsupported policy.
unfoldable pub new_dedupe_store : Str → ℤ → Option DedupeStore
unfolding lru_capacity
new_dedupe_store policy capacity =
    if str_eq policy [] || str_eq policy (bytes "unbounded_ttl")
    then some (ttl_store [])
    else if str_eq policy (bytes "bounded_lru")
    then some (lru_store (lru_capacity capacity) [])
    else none

-- Five minutes.
abbrev pub dedupe_ttl : ℕ
dedupe_ttl = 300000000000
