-- ===== src/AssetCache.antt =====
-- src/module/storage.rs: `DatabaseAssetCache`, the cache in memory of the assets that are stored in the
-- database. `Instant::now()` is an argument, in nanoseconds; the lock of the mutex fails once a thread
-- that held it has panicked.
pub mod Lists
pub mod Exact
pub mod Calls
pub mod Recent
pub mod Oldest
use rbph_website_backend.Prelude.{
  ℕ, Str, Bool, true, false, Option, none, some, List, [], ◌∷◌, ◌++◌, ◌+◌, ◌-◌, ◌^◌, length, leb,
  ltb, not, str_eq, if◌then◌else◌, lookup, insert as map_insert, remove, text_eq,
}

-- 64 MiB, and 30 minutes.
abbrev pub database_cache_bytes : ℕ
database_cache_bytes = 67108864

abbrev pub database_cache_idle : ℕ
database_cache_idle = 1800000000000

pub record DatabaseAssetCacheEntry : Type 0 where
  pub content : List ℕ
  pub last_used : ℕ

pub record DatabaseAssetCacheInner : Type 0 where
  pub entries : List (Str × DatabaseAssetCacheEntry)
  pub order : List Str
  pub bytes : ℕ

pub record DatabaseAssetCache : Type 0 where
  pub inner : DatabaseAssetCacheInner
  pub poisoned : Bool

abbrev pub new : DatabaseAssetCache
new = record { inner = record { entries = []; order = []; bytes = 0 }; poisoned = false }

-- `u64::saturating_add`.
unfoldable pub saturating_add : ℕ → ℕ → ℕ
saturating_add a b = let sum = a + b in if ltb sum (2 ^ 64) then sum else 2 ^ 64 - 1

-- `order.retain(|current| current != key)`.
unfoldable pub retain_other : Str → List Str → List Str
retain_other key [] = []
retain_other key (current ∷ order) =
    let rest = retain_other key order in if not (str_eq current key) then current ∷ rest else rest

abbrev pub with_order : List Str → DatabaseAssetCacheInner → DatabaseAssetCacheInner
with_order order cache = record { entries = cache.entries; order = order; bytes = cache.bytes }

-- `saturating_sub` of the size of what was removed.
unfoldable pub take_off : Option DatabaseAssetCacheEntry → ℕ → ℕ
take_off (some previous) bytes = bytes - length previous.content
take_off none bytes = bytes

-- `entries.remove(key)`, with the size of what was there taken off.
unfoldable pub forget : Str → DatabaseAssetCacheInner → DatabaseAssetCacheInner
unfolding take_off
forget key cache = record {
  entries = remove key cache.entries;
  order = cache.order;
  bytes = take_off (lookup key cache.entries) cache.bytes;
}

unfoldable pub retain : Str → DatabaseAssetCacheInner → DatabaseAssetCacheInner
unfolding retain_other
retain key cache = with_order (retain_other key cache.order) cache

unfoldable pub touch : Str → DatabaseAssetCacheInner → DatabaseAssetCacheInner
unfolding retain_other
touch key cache = with_order (retain_other key cache.order ++ key ∷ []) cache

-- `now.duration_since(entry.last_used) >= DATABASE_CACHE_IDLE`; an instant that lies ahead counts
-- as no time passed.
unfoldable pub is_expired : ℕ → DatabaseAssetCacheEntry → Bool
is_expired now entry = leb database_cache_idle (now - entry.last_used)

unfoldable pub expired_keys : ℕ → List (Str × DatabaseAssetCacheEntry) → List Str
unfolding is_expired
expired_keys now [] = []
expired_keys now ((key, entry) ∷ entries) =
    let rest = expired_keys now entries in if is_expired now entry then key ∷ rest else rest

unfoldable pub remove_keys : List Str → DatabaseAssetCacheInner → DatabaseAssetCacheInner
unfolding forget retain
remove_keys [] cache = cache
remove_keys (key ∷ keys) cache = remove_keys keys (retain key (forget key cache))

unfoldable pub remove_expired : ℕ → DatabaseAssetCacheInner → DatabaseAssetCacheInner
unfolding expired_keys remove_keys
remove_expired now cache = remove_keys (expired_keys now cache.entries) cache

-- The loop of `insert` on the queue of the cache, which is its first list: it ends with the queue,
-- where the source breaks.
unfoldable pub make_room : ℕ → List Str → DatabaseAssetCacheInner → DatabaseAssetCacheInner
unfolding saturating_add forget
make_room size [] cache = cache
make_room size (oldest ∷ order) cache =
    let rest = make_room size order (forget oldest (with_order order cache)) in
    if ltb database_cache_bytes (saturating_add cache.bytes size) then rest else cache

unfoldable pub put : ℕ → Str → List ℕ → DatabaseAssetCacheInner → DatabaseAssetCacheInner
unfolding saturating_add
put now key content cache = record {
  entries = map_insert key (record { content = content; last_used = now }) cache.entries;
  order = cache.order ++ key ∷ [];
  bytes = saturating_add cache.bytes (length content);
}

-- What `insert` has at the start of its loop.
unfoldable pub without : ℕ → Str → DatabaseAssetCacheInner → DatabaseAssetCacheInner
unfolding remove_expired forget retain
without now key cache = retain key (forget key (remove_expired now cache))

-- The clock is read twice: by `remove_expired` and for the new entry.
unfoldable pub insert : (now stored : ℕ) → Str → List ℕ → DatabaseAssetCache → DatabaseAssetCache
unfolding without make_room put
insert now stored key content cache =
    let size = length content in
    if ltb database_cache_bytes size
    then cache
    else if cache.poisoned
    then cache
    else let start = without now key cache.inner in
      record {
        inner = put stored key content (make_room size start.order start);
        poisoned = cache.poisoned;
      }

unfoldable pub use_entry :
    ℕ → Str → DatabaseAssetCacheEntry → DatabaseAssetCacheInner → DatabaseAssetCacheInner
unfolding touch
use_entry now key entry cache = touch key (record {
  entries = map_insert key (record { content = entry.content; last_used = now }) cache.entries;
  order = cache.order;
  bytes = cache.bytes;
})

unfoldable pub get_entry :
    ℕ
    → Str
    → Option DatabaseAssetCacheEntry
    → DatabaseAssetCacheInner
    → DatabaseAssetCacheInner × Option (List ℕ)
unfolding use_entry
get_entry used key (some entry) cache = (use_entry used key entry cache, some entry.content)
get_entry used key none cache = (cache, none)

unfoldable pub get :
    (now used : ℕ) → Str → DatabaseAssetCache → DatabaseAssetCache × Option (List ℕ)
unfolding remove_expired get_entry
get now used key cache =
    let live = remove_expired now cache.inner in
    let (inner, content) = get_entry used key (lookup key live.entries) live in
    if cache.poisoned
    then (cache, none)
    else (record { inner = inner; poisoned = cache.poisoned }, content)
