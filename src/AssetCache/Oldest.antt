-- ===== src/AssetCache/Oldest.antt =====
-- src/module/storage.rs: which entries `DatabaseAssetCache` gives up for a new one.
use rbph_website_backend.Prelude.{
  ℕ, Str, true, false, Option, none, some, List, [], ◌∷◌, ◌++◌, ◌+◌, ◌≤◌, ◌≡◌, refl, ap, sym, ◌∙◌,
  subst, length, ltb, leb, str_eq, str_eq_iff, str_eq_refl, lookup, remove, lookup-insert,
  lookup-remove, text_eq, keys, NotIn, Distinct, NotIn-of_lookup, remove-NotIn, Option-cases,
  Bool-cases, inl, inr, arith,
}
use rbph_website_backend.AssetCache.{
  DatabaseAssetCache, DatabaseAssetCacheEntry, DatabaseAssetCacheInner, database_cache_bytes,
  saturating_add, with_order, forget, make_room, put, without, insert,
}
use rbph_website_backend.AssetCache.Lists.{has, contains, total, total-remove, total-none}
use rbph_website_backend.AssetCache.Exact.{
  IsExact, without-IsExact, pop-IsExact, make_room-IsExact, make_room-absent,
}
use rbph_website_backend.AssetCache.Calls.{IsSound, room, without-absent}
use rbph_website_backend.AssetCache.Recent.{insert-inner}

abbrev pub size_of : Option DatabaseAssetCacheEntry → ℕ
size_of (some entry) = length entry.content
size_of none = 0

-- The bytes of the entries of these keys.
abbrev pub weight : List Str → List (Str × DatabaseAssetCacheEntry) → ℕ
weight [] entries = 0
weight (key ∷ order) entries = size_of (lookup key entries) + weight order entries

contains-of_NotIn : (key : Str) (order : List Str) → NotIn key order → contains key order ≡ false
contains-of_NotIn key [] h = refl
contains-of_NotIn key (current ∷ order) h = ground (arith, h.0, contains-of_NotIn key order h.1)

contains-middle :
    (other : Str) (older newer : List Str) → contains other (older ++ other ∷ newer) ≡ true
contains-middle other [] newer = ground (arith, str_eq_refl other)
contains-middle other (o ∷ older) newer = ground (arith, contains-middle other older newer)

NotIn-append : (key : Str) (older newer : List Str) → NotIn key (older ++ newer) → NotIn key newer
NotIn-append key [] newer h = h
NotIn-append key (o ∷ older) newer h = NotIn-append key older newer h.1

weight-append :
    (older newer : List Str) (m : List (Str × DatabaseAssetCacheEntry))
    → weight newer m ≤ weight (older ++ newer) m
weight-append [] newer m = omega arith
weight-append (o ∷ older) newer m = omega (arith, weight-append older newer m)

weight-remove :
    (key : Str) (order : List Str) (m : List (Str × DatabaseAssetCacheEntry))
    → NotIn key order
    → weight order (remove key m) ≡ weight order m
weight-remove key [] m h = refl
weight-remove key (current ∷ order) m h =
    let differ : str_eq key current ≡ false =
      ground (arith, h.0, str_eq_iff key current, str_eq_iff current key) in
    rw (lookup-remove key current m, differ, weight-remove key order m h.1) refl

total-forget :
    (key : Str) (m : List (Str × DatabaseAssetCacheEntry))
    → Distinct (keys m)
    → size_of (lookup key m) + total (remove key m) ≡ total m
total-forget key m d = elim (Option-cases (lookup key m)) [
  | inl p ↦ rw (p, remove-NotIn key m (NotIn-of_lookup key m p)) (omega arith)
  | inr (entry, p) ↦ rw p (omega (arith, total-remove key entry m d p))
]

-- The queue accounts for every byte.
weight-total :
    (order : List Str) (cache : DatabaseAssetCacheInner)
    → IsExact cache
    → cache.order ≡ order
    → weight order cache.entries ≡ total cache.entries
unfolding forget
weight-total [] cache exact h =
    sym (total-none cache.entries (λ key. sym (exact.0 key) ∙ ap (contains key) h))
weight-total (key ∷ order) cache exact h =
    let d = subst Distinct h exact.1 in
    let popped = forget key (with_order order cache) in
    omega (
      arith,
      weight-total order popped (pop-IsExact key order cache exact h) refl,
      weight-remove key order cache.entries d.0,
      total-forget key cache.entries exact.2,
    )

absent-has :
    (key : Str) (cache : DatabaseAssetCacheInner)
    → IsExact cache
    → contains key cache.order ≡ false
    → has key cache.entries ≡ false
absent-has key cache exact h = sym (exact.0 key) ∙ h

saturating_add-large :
    (a b : ℕ)
    → ltb database_cache_bytes (saturating_add a b) ≡ true
    → ltb database_cache_bytes (a + b) ≡ true
unfolding saturating_add
saturating_add-large a b h = ground arith

saturating_add-fits :
    (a b : ℕ)
    → ltb database_cache_bytes (saturating_add a b) ≡ false
    → ltb database_cache_bytes (a + b) ≡ false
unfolding saturating_add
saturating_add-fits a b h = ground arith

-- An entry stays exactly if it, those behind it in the queue and the new content fit together.
make_room-has :
    (size : ℕ) (older newer : List Str) (other : Str) (cache : DatabaseAssetCacheInner)
    → IsExact cache
    → cache.order ≡ older ++ other ∷ newer
    → has other (make_room size (older ++ other ∷ newer) cache).entries
      ≡ leb (weight (other ∷ newer) cache.entries + size) database_cache_bytes
unfolding make_room forget
make_room-has size [] newer other cache exact h =
    let d = subst Distinct h exact.1 in
    let popped = forget other (with_order newer cache) in
    let popped_exact = pop-IsExact other newer cache exact h in
    let all_bytes = weight-total (other ∷ newer) cache exact h in
    elim (Bool-cases (ltb database_cache_bytes (saturating_add cache.bytes size))) [
      | inl p ↦
          let gone =
            absent-has other (make_room size newer popped)
              (make_room-IsExact size newer popped popped_exact refl)
              (make_room-absent size newer popped other refl (contains-of_NotIn other newer d.0)) in
          let large = saturating_add-large cache.bytes size p in
          rw p (gone ∙ ground (arith, exact.3))
      | inr p ↦
          let there =
            sym (exact.0 other) ∙ ap (contains other) h ∙ contains-middle other [] newer in
          let fits = saturating_add-fits cache.bytes size p in
          rw p (there ∙ ground (arith, exact.3))
    ]
make_room-has size (o ∷ older) newer other cache exact h =
    let order = older ++ other ∷ newer in
    let d = subst Distinct h exact.1 in
    let popped = forget o (with_order order cache) in
    elim (Bool-cases (ltb database_cache_bytes (saturating_add cache.bytes size))) [
      | inl p ↦ rw p (
          make_room-has size older newer other popped (pop-IsExact o order cache exact h) refl
          ∙ ap (λ w. leb (w + size) database_cache_bytes)
              (weight-remove o (other ∷ newer) cache.entries
                (NotIn-append o older (other ∷ newer) d.0)))
      | inr p ↦
          let there =
            sym (exact.0 other) ∙ ap (contains other) h ∙ contains-middle other (o ∷ older) newer in
          let fits = saturating_add-fits cache.bytes size p in
          let all_bytes = weight-total (o ∷ order) cache exact h in
          let less = weight-append (o ∷ older) (other ∷ newer) cache.entries in
          rw p (there ∙ ground (arith, exact.3))
    ]

has-put :
    (now : ℕ) (key other : Str) (content : List ℕ) (cache : DatabaseAssetCacheInner)
    → str_eq key other ≡ false
    → has other (put now key content cache).entries ≡ has other cache.entries
unfolding put
has-put now key other content cache differ =
    let entry : DatabaseAssetCacheEntry = record { content = content; last_used = now } in
    rw (lookup-insert key other entry cache.entries, differ) refl

without-differ :
    (now : ℕ) (key other : Str) (older newer : List Str) (cache : DatabaseAssetCacheInner)
    → (without now key cache).order ≡ older ++ other ∷ newer
    → str_eq key other ≡ false
without-differ now key other older newer cache h =
    let absent = sym (ap (contains key) h) ∙ without-absent now key cache in
    let there = contains-middle other older newer in
    elim (Bool-cases (str_eq key other)) [
      | inl p ↦
          let same = ap (λ k. contains k (older ++ other ∷ newer)) ((str_eq_iff key other).0 p) in
          cc
      | inr p ↦ p
    ]

-- On a sound cache whose lock works, when content of at most 64 MiB is inserted: an entry of the
-- queue that the sweep and the removal of the key left there stays if and only if its size, the
-- sizes of all entries behind it in the queue and the size of the content sum up to at most 64 MiB.
pub insert-has :
    (now stored : ℕ) (key other : Str) (content : List ℕ) (older newer : List Str)
    (cache : DatabaseAssetCache)
    → IsSound cache
    → cache.poisoned ≡ false
    → length content ≤ database_cache_bytes
    → (without now key cache.inner).order ≡ older ++ other ∷ newer
    → has other (insert now stored key content cache).inner.entries
      ≡ leb
          (weight (other ∷ newer) (without now key cache.inner).entries + length content)
          database_cache_bytes
insert-has now stored key other content older newer cache sound usable small h =
    let start = without now key cache.inner in
    rw
      (
        insert-inner now stored key content cache usable small,
        has-put stored key other content (room now key content cache.inner)
            (without-differ now key other older newer cache.inner h),
      )
      (subst
        (λ order.
          has other (make_room (length content) order start).entries
          ≡ leb (weight (other ∷ newer) start.entries + length content) database_cache_bytes)
        (sym h)
        (make_room-has (length content) older newer other start
          (without-IsExact now key cache.inner sound.0) h))
