-- ===== src/AssetCache/Calls.antt =====
-- src/module/storage.rs: `DatabaseAssetCache` through any sequence of calls.
use rbph_website_backend.Prelude.{
  ℕ, Str, false, Option, none, some, List, [], ◌∷◌, ◌+◌, ◌≤◌, ◌≡◌, refl, length, ltb, str_eq_refl,
  lookup, text_eq, Bool-cases, Option-cases, inl, inr, arith,
}
use rbph_website_backend.AssetCache.{
  DatabaseAssetCache, DatabaseAssetCacheInner, DatabaseAssetCacheEntry, database_cache_bytes, new,
  saturating_add, take_off, forget, retain, touch, expired_keys, remove_keys, remove_expired,
  make_room, put, without, insert, use_entry, get_entry, get,
}
use rbph_website_backend.AssetCache.Lists.{contains, contains-retain_other}
use rbph_website_backend.AssetCache.Exact.{
  IsExact, remove_expired-IsExact, without-IsExact, make_room-IsExact, make_room-fits,
  make_room-absent, put-IsExact, use_entry-IsExact,
}

-- A call with the instants at which it reads the clock.
pub data Call : Type 0 where
  get_call : (now used : ℕ) → Str → Call
  insert_call : (now stored : ℕ) → Str → List ℕ → Call

unfoldable pub step : Call → DatabaseAssetCache → DatabaseAssetCache
unfolding get insert
step (get_call now used key) cache = (get now used key cache).0
step (insert_call now stored key content) cache = insert now stored key content cache

unfoldable pub run : List Call → DatabaseAssetCache → DatabaseAssetCache
unfolding step
run [] cache = cache
run (c ∷ calls) cache = run calls (step c cache)

-- Exact, and within 64 MiB.
abbrev pub IsSound : DatabaseAssetCache → Type 0
IsSound cache = IsExact cache.inner × (cache.inner.bytes ≤ database_cache_bytes)

forget-le : (key : Str) (cache : DatabaseAssetCacheInner) → (forget key cache).bytes ≤ cache.bytes
unfolding forget take_off
forget-le key cache = elim (Option-cases (lookup key cache.entries)) [
  | inl p ↦ rw p (omega arith)
  | inr (entry, p) ↦ rw p (omega arith)
]

remove_keys-le :
    (keys : List Str) (cache : DatabaseAssetCacheInner)
    → (remove_keys keys cache).bytes ≤ cache.bytes
unfolding remove_keys retain
remove_keys-le [] cache = omega arith
remove_keys-le (key ∷ keys) cache =
    omega (arith, forget-le key cache, remove_keys-le keys (retain key (forget key cache)))

pub without-absent :
    (now : ℕ) (key : Str) (cache : DatabaseAssetCacheInner)
    → contains key (without now key cache).order ≡ false
unfolding without retain forget
without-absent now key cache =
    rw (contains-retain_other key key (remove_expired now cache).order, str_eq_refl key) refl

-- What `insert` leaves in the mutex.
abbrev pub room : ℕ → Str → List ℕ → DatabaseAssetCacheInner → DatabaseAssetCacheInner
room now key content cache =
    let start = without now key cache in make_room (length content) start.order start

module _ (now : ℕ) (key : Str) (content : List ℕ) (cache : DatabaseAssetCacheInner)
    (small : length content ≤ database_cache_bytes) (exact : IsExact cache) where
  pub room-IsExact : IsExact (room now key content cache)
  room-IsExact =
      let start = without now key cache in
      make_room-IsExact (length content) start.order start (without-IsExact now key cache exact)
        refl

  pub room-fits : (room now key content cache).bytes + length content ≤ database_cache_bytes
  room-fits =
      let start = without now key cache in
      make_room-fits (length content) start.order start small (without-IsExact now key cache exact)
        refl

  pub put-room-IsExact :
      (stored : ℕ) → IsExact (put stored key content (room now key content cache))
  put-room-IsExact stored =
      let start = without now key cache in
      put-IsExact stored key content (room now key content cache) room-IsExact
        (make_room-absent (length content) start.order start key refl
          (without-absent now key cache))
        room-fits

  put-room-le :
      (stored : ℕ)
      → (put stored key content (room now key content cache)).bytes ≤ database_cache_bytes
  unfolding put saturating_add
  put-room-le stored = let fits = room-fits in ground arith

pub insert-IsSound :
    (now stored : ℕ) (key : Str) (content : List ℕ) (cache : DatabaseAssetCache)
    → IsSound cache
    → IsSound (insert now stored key content cache)
unfolding insert
insert-IsSound now stored key content cache sound =
    elim (Bool-cases (ltb database_cache_bytes (length content))) [
      | inl large ↦ rw large sound
      | inr fits ↦
          let small : length content ≤ database_cache_bytes = ground arith in
          elim (Bool-cases cache.poisoned) [
            | inl p ↦ rw (fits, p) sound
            | inr p ↦
                rw (fits, p)
                  (
                    put-room-IsExact now key content cache.inner small sound.0 stored,
                    put-room-le now key content cache.inner small sound.0 stored,
                  )
          ]
    ]

get_entry-IsExact :
    (used : ℕ) (key : Str) (cache : DatabaseAssetCacheInner)
    → IsExact cache
    → IsExact (get_entry used key (lookup key cache.entries) cache).0
unfolding get_entry
get_entry-IsExact used key cache exact = elim (Option-cases (lookup key cache.entries)) [
  | inl p ↦ rw p exact
  | inr (entry, p) ↦ rw p (use_entry-IsExact used key entry cache exact p)
]

get_entry-bytes :
    (used : ℕ) (key : Str) (found : Option DatabaseAssetCacheEntry)
    (cache : DatabaseAssetCacheInner)
    → (get_entry used key found cache).0.bytes ≡ cache.bytes
unfolding get_entry use_entry touch
get_entry-bytes used key (some entry) cache = refl
get_entry-bytes used key none cache = refl

pub get-IsSound :
    (now used : ℕ) (key : Str) (cache : DatabaseAssetCache)
    → IsSound cache
    → IsSound (get now used key cache).0
unfolding get remove_expired
get-IsSound now used key cache sound =
    let live = remove_expired now cache.inner in
    let exact = remove_expired-IsExact now cache.inner sound.0 in
    let less = remove_keys-le (expired_keys now cache.inner.entries) cache.inner in
    elim (Bool-cases cache.poisoned) [
      | inl p ↦ rw p sound
      | inr p ↦ rw p (
        get_entry-IsExact used key live exact,
        omega (arith, less, sound.1, get_entry-bytes used key (lookup key live.entries) live),
      )
    ]

step-IsSound : (c : Call) (cache : DatabaseAssetCache) → IsSound cache → IsSound (step c cache)
unfolding step
step-IsSound (get_call now used key) cache sound = get-IsSound now used key cache sound
step-IsSound (insert_call now stored key content) cache sound =
    insert-IsSound now stored key content cache sound

run-from :
    (calls : List Call) (cache : DatabaseAssetCache) → IsSound cache → IsSound (run calls cache)
unfolding run
run-from [] cache sound = sound
run-from (c ∷ calls) cache sound = run-from calls (step c cache) (step-IsSound c cache sound)

-- After any sequence of calls of get and insert, at any instants, on a new cache: the queue holds
-- each key of the entries exactly once and no other, each key has one entry, the counter of bytes
-- is the sum of the sizes of the entries, and it is at most 64 MiB.
pub run-IsSound : (calls : List Call) → IsSound (run calls new)
unfolding lookup
run-IsSound calls = run-from calls new ((λ key. refl, tt, tt, refl), omega arith)
