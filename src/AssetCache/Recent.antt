-- ===== src/AssetCache/Recent.antt =====
-- src/module/storage.rs: what `DatabaseAssetCache` still returns: entries that were used within the idle
-- time and that the queue has not dropped.
use rbph_website_backend.Prelude.{
  ℕ, Str, false, none, some, List, [], ◌∷◌, ◌-◌, ◌≤◌, ◌<◌, ◌≡◌, refl, subst, length, ltb, str_eq,
  str_eq_iff, str_eq_refl, if◌then◌else◌, lookup, lookup-insert, lookup-remove, text_eq, keys,
  NotIn, Distinct, Bool-cases, inl, inr, arith,
}
use rbph_website_backend.AssetCache.{
  DatabaseAssetCache, DatabaseAssetCacheEntry, DatabaseAssetCacheInner, database_cache_bytes,
  database_cache_idle, forget, retain, is_expired, expired_keys, remove_keys, remove_expired, put,
  insert, get_entry, get,
}
use rbph_website_backend.AssetCache.Lists.{contains}
use rbph_website_backend.AssetCache.Exact.{IsExact}
use rbph_website_backend.AssetCache.Calls.{IsSound, room, put-room-IsExact}

expired_keys-absent :
    (now : ℕ) (key : Str) (m : List (Str × DatabaseAssetCacheEntry))
    → NotIn key (keys m)
    → contains key (expired_keys now m) ≡ false
unfolding expired_keys
expired_keys-absent now key [] h = refl
expired_keys-absent now key ((j, e) ∷ m) h = ground (arith, expired_keys-absent now key m h.1, h.0)

expired_keys-there :
    (now : ℕ) (key : Str) (entry : DatabaseAssetCacheEntry)
    (m : List (Str × DatabaseAssetCacheEntry))
    → Distinct (keys m)
    → lookup key m ≡ some entry
    → contains key (expired_keys now m) ≡ is_expired now entry
unfolding expired_keys lookup
expired_keys-there now key entry [] d h = ground arith
expired_keys-there now key entry ((j, e) ∷ m) d h = elim (Bool-cases (str_eq j key)) [
  | inl p ↦
      let absent = subst (λ k. NotIn k (keys m)) ((str_eq_iff j key).0 p) d.0 in
      ground (arith, expired_keys-absent now key m absent)
  | inr p ↦ ground (arith, expired_keys-there now key entry m d.1 (rw p at h))
]

lookup-remove_keys :
    (keys : List Str) (key : Str) (cache : DatabaseAssetCacheInner)
    → lookup key (remove_keys keys cache).entries
      ≡ (if contains key keys then none else lookup key cache.entries)
unfolding remove_keys retain forget
lookup-remove_keys [] key cache = refl
lookup-remove_keys (k ∷ keys) key cache = ground (
  arith,
  lookup-remove_keys keys key (retain k (forget k cache)),
  lookup-remove k key cache.entries,
)

-- The sweep leaves an entry that was used within the idle time, and takes any other away.
pub lookup-remove_expired :
    (now : ℕ) (key : Str) (entry : DatabaseAssetCacheEntry) (cache : DatabaseAssetCacheInner)
    → IsExact cache
    → lookup key cache.entries ≡ some entry
    → lookup key (remove_expired now cache).entries
      ≡ (if is_expired now entry then none else some entry)
unfolding remove_expired
lookup-remove_expired now key entry cache exact there =
    rw
      (
        lookup-remove_keys (expired_keys now cache.entries) key cache,
        expired_keys-there now key entry cache.entries exact.2 there,
        there,
      )
      refl

lookup-put :
    (now : ℕ) (key : Str) (content : List ℕ) (cache : DatabaseAssetCacheInner)
    → lookup key (put now key content cache).entries
      ≡ some (record { content = content; last_used = now })
unfolding put
lookup-put now key content cache =
    let entry : DatabaseAssetCacheEntry = record { content = content; last_used = now } in
    rw (lookup-insert key key entry cache.entries, str_eq_refl key) refl

pub insert-inner :
    (now stored : ℕ) (key : Str) (content : List ℕ) (cache : DatabaseAssetCache)
    → cache.poisoned ≡ false
    → length content ≤ database_cache_bytes
    → insert now stored key content cache ≡ record {
      inner = put stored key content (room now key content cache.inner);
      poisoned = false;
    }
unfolding insert
insert-inner now stored key content cache usable small =
    let fits : ltb database_cache_bytes (length content) ≡ false = ground arith in
    rw (fits, usable) refl

get-there :
    (now used : ℕ) (key : Str) (entry : DatabaseAssetCacheEntry) (inner : DatabaseAssetCacheInner)
    → IsExact inner
    → lookup key inner.entries ≡ some entry
    → is_expired now entry ≡ false
    → (get now used key (record { inner = inner; poisoned = false })).1 ≡ some entry.content
unfolding get get_entry
get-there now used key entry inner exact there fresh =
    let live = lookup-remove_expired now key entry inner exact there in rw (live, fresh) refl

-- On a sound cache whose lock works, content of at most 64 MiB that is inserted is what get returns
-- for its key, as long as get sweeps less than 30 minutes after the entry was stored.
pub get-insert :
    (now stored later used : ℕ) (key : Str) (content : List ℕ) (cache : DatabaseAssetCache)
    → IsSound cache
    → cache.poisoned ≡ false
    → length content ≤ database_cache_bytes
    → later - stored < database_cache_idle
    → (get later used key (insert now stored key content cache)).1 ≡ some content
unfolding is_expired
get-insert now stored later used key content cache sound usable small recent =
    let inner = put stored key content (room now key content cache.inner) in
    rw (insert-inner now stored key content cache usable small) (
      get-there later used key (record { content = content; last_used = stored }) inner
        (put-room-IsExact now key content cache.inner small sound.0 stored)
        (lookup-put stored key content (room now key content cache.inner)) (ground arith))
