-- ===== src/AssetCache/Exact.antt =====
-- src/module/storage.rs: the queue and the counter of `DatabaseAssetCache` agree with its entries
-- through each step of its operations.
use rbph_website_backend.Prelude.{
  ℕ, Str, false, none, some, List, [], ◌∷◌, ◌+◌, ◌≤◌, ◌≡◌, refl, ap, sym, ◌∙◌, subst, length, ltb,
  str_eq_iff, str_eq_refl, lookup, remove, lookup-insert, lookup-remove, text_eq, keys, Distinct,
  Distinct-snoc, NotIn-of_lookup, remove-NotIn, Bool-cases, Option-cases, inl, inr, arith,
}
use rbph_website_backend.AssetCache.{
  DatabaseAssetCacheEntry, DatabaseAssetCacheInner, database_cache_bytes, saturating_add,
  retain_other, with_order, forget, retain, touch, expired_keys, remove_keys, remove_expired,
  make_room, put, take_off, without, use_entry,
}
use rbph_website_backend.AssetCache.Lists.{
  has, contains, total, contains-retain_other, contains-snoc, NotIn-of_contains,
  Distinct-retain_other, retain_other-front, Distinct-keys-remove, total-remove, total-insert,
  Distinct-keys-insert, total-renew, keys-renew, total-none,
}

-- The queue holds each key of the entries once, and the counter is the sum of their sizes.
abbrev pub IsExact : DatabaseAssetCacheInner → Type 0
IsExact cache =
    ((key : Str) → contains key cache.order ≡ has key cache.entries)
    × Distinct cache.order
    × Distinct (keys cache.entries)
    × (cache.bytes ≡ total cache.entries)

forget-bytes :
    (key : Str) (cache : DatabaseAssetCacheInner)
    → IsExact cache
    → (forget key cache).bytes ≡ total (remove key cache.entries)
unfolding forget take_off
forget-bytes key cache (_, _, d, b) = elim (Option-cases (lookup key cache.entries)) [
  | inl p ↦ rw (p, remove-NotIn key cache.entries (NotIn-of_lookup key cache.entries p)) b
  | inr (entry, p) ↦ rw p (omega (arith, total-remove key entry cache.entries d p, b))
]

pub retain-forget-IsExact :
    (key : Str) (cache : DatabaseAssetCacheInner)
    → IsExact cache
    → IsExact (retain key (forget key cache))
unfolding retain forget
retain-forget-IsExact key cache exact = (
  λ other. ground (
    arith,
    exact.0 other,
    contains-retain_other key other cache.order,
    lookup-remove key other cache.entries,
  ),
  Distinct-retain_other key cache.order exact.1,
  Distinct-keys-remove key cache.entries exact.2,
  forget-bytes key cache exact,
)

remove_keys-IsExact :
    (keys : List Str) (cache : DatabaseAssetCacheInner)
    → IsExact cache
    → IsExact (remove_keys keys cache)
unfolding remove_keys
remove_keys-IsExact [] cache exact = exact
remove_keys-IsExact (key ∷ keys) cache exact =
    remove_keys-IsExact keys (retain key (forget key cache)) (retain-forget-IsExact key cache exact)

pub remove_expired-IsExact :
    (now : ℕ) (cache : DatabaseAssetCacheInner) → IsExact cache → IsExact (remove_expired now cache)
unfolding remove_expired
remove_expired-IsExact now cache = remove_keys-IsExact (expired_keys now cache.entries) cache

pub without-IsExact :
    (now : ℕ) (key : Str) (cache : DatabaseAssetCacheInner)
    → IsExact cache
    → IsExact (without now key cache)
unfolding without
without-IsExact now key cache exact =
    retain-forget-IsExact key (remove_expired now cache) (remove_expired-IsExact now cache exact)

-- To take the front off the queue is to take the key out of it.
pub pop-retain :
    (oldest : Str) (order : List Str) (cache : DatabaseAssetCacheInner)
    → IsExact cache
    → cache.order ≡ oldest ∷ order
    → retain oldest (forget oldest cache) ≡ forget oldest (with_order order cache)
unfolding retain forget
pop-retain oldest order cache exact h =
    let d = subst Distinct h exact.1 in
    ap (λ l. with_order l (forget oldest cache))
      (ap (retain_other oldest) h ∙ retain_other-front oldest order d.0)

pub pop-IsExact :
    (oldest : Str) (order : List Str) (cache : DatabaseAssetCacheInner)
    → IsExact cache
    → cache.order ≡ oldest ∷ order
    → IsExact (forget oldest (with_order order cache))
pop-IsExact oldest order cache exact h =
    subst IsExact (pop-retain oldest order cache exact h) (retain-forget-IsExact oldest cache exact)

pub make_room-IsExact :
    (size : ℕ) (order : List Str) (cache : DatabaseAssetCacheInner)
    → IsExact cache
    → cache.order ≡ order
    → IsExact (make_room size order cache)
unfolding make_room forget
make_room-IsExact size [] cache exact h = exact
make_room-IsExact size (oldest ∷ order) cache exact h =
    elim (Bool-cases (ltb database_cache_bytes (saturating_add cache.bytes size))) [
      | inl p ↦ rw p (
          make_room-IsExact size order (forget oldest (with_order order cache))
            (pop-IsExact oldest order cache exact h) refl)
      | inr p ↦ rw p exact
    ]

pub saturating_add-small :
    (a b : ℕ) → ltb database_cache_bytes (saturating_add a b) ≡ false → a + b ≤ database_cache_bytes
unfolding saturating_add
saturating_add-small a b h = ground arith

-- The loop ends with room for the new content.
pub make_room-fits :
    (size : ℕ) (order : List Str) (cache : DatabaseAssetCacheInner)
    → size ≤ database_cache_bytes
    → IsExact cache
    → cache.order ≡ order
    → (make_room size order cache).bytes + size ≤ database_cache_bytes
unfolding make_room forget
make_room-fits size [] cache small exact h =
    let empty = total-none cache.entries (λ key. sym (exact.0 key) ∙ ap (contains key) h) in
    omega (arith, exact.3)
make_room-fits size (oldest ∷ order) cache small exact h =
    elim (Bool-cases (ltb database_cache_bytes (saturating_add cache.bytes size))) [
      | inl p ↦ rw p (
          make_room-fits size order (forget oldest (with_order order cache)) small
            (pop-IsExact oldest order cache exact h) refl)
      | inr p ↦ rw p (saturating_add-small cache.bytes size p)
    ]

-- The loop brings no key in.
pub make_room-absent :
    (size : ℕ) (order : List Str) (cache : DatabaseAssetCacheInner) (key : Str)
    → cache.order ≡ order
    → contains key order ≡ false
    → contains key (make_room size order cache).order ≡ false
unfolding make_room forget
make_room-absent size [] cache key h absent = ap (contains key) h ∙ absent
make_room-absent size (oldest ∷ order) cache key h absent =
    elim (Bool-cases (ltb database_cache_bytes (saturating_add cache.bytes size))) [
      | inl p ↦ rw p (
          make_room-absent size order (forget oldest (with_order order cache)) key refl
            (ground arith))
      | inr p ↦ rw p (ap (contains key) h ∙ absent)
    ]

pub absent-lookup :
    (key : Str) (cache : DatabaseAssetCacheInner)
    → IsExact cache
    → contains key cache.order ≡ false
    → lookup key cache.entries ≡ none
absent-lookup key cache exact h = ground (arith, exact.0 key)

pub put-IsExact :
    (now : ℕ) (key : Str) (content : List ℕ) (cache : DatabaseAssetCacheInner)
    → IsExact cache
    → contains key cache.order ≡ false
    → cache.bytes + length content ≤ database_cache_bytes
    → IsExact (put now key content cache)
unfolding put saturating_add
put-IsExact now key content cache exact absent fits =
    let entry : DatabaseAssetCacheEntry = record { content = content; last_used = now } in
    let none_there = absent-lookup key cache exact absent in
    (
      λ other. ground (
        arith,
        exact.0 other,
        contains-snoc key other cache.order,
        lookup-insert key other entry cache.entries,
      ),
      Distinct-snoc cache.order key exact.1 (NotIn-of_contains key cache.order absent),
      Distinct-keys-insert key entry cache.entries exact.2 none_there,
      ground (arith, exact.3, total-insert key entry cache.entries none_there),
    )

pub use_entry-IsExact :
    (now : ℕ) (key : Str) (entry : DatabaseAssetCacheEntry) (cache : DatabaseAssetCacheInner)
    → IsExact cache
    → lookup key cache.entries ≡ some entry
    → IsExact (use_entry now key entry cache)
unfolding use_entry touch
use_entry-IsExact now key entry cache exact there =
    let fresh : DatabaseAssetCacheEntry = record { content = entry.content; last_used = now } in
    (
      λ other. ground (
        arith,
        exact.0 other,
        str_eq_iff key other,
        contains-snoc key other (retain_other key cache.order),
        contains-retain_other key other cache.order,
        lookup-insert key other fresh cache.entries,
      ),
      Distinct-snoc (retain_other key cache.order) key
          (Distinct-retain_other key cache.order exact.1)
          (NotIn-of_contains key (retain_other key cache.order)
            (rw (contains-retain_other key key cache.order, str_eq_refl key) refl)),
      subst Distinct (sym (keys-renew key entry fresh cache.entries there)) exact.2,
      exact.3 ∙ sym (total-renew key entry fresh cache.entries there refl),
    )
