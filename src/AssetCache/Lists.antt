-- ===== src/AssetCache/Lists.antt =====
-- src/module/storage.rs: the queue and the entries of `DatabaseAssetCache` under the operations on one
-- key.
use rbph_website_backend.Prelude.{
  ℕ, Str, Bool, true, false, Option, none, some, List, [], ◌∷◌, ◌++◌, ◌+◌, ◌≡◌, ◌||◌, refl, ap, sym,
  length, str_eq, str_eq_iff, str_eq_refl, if◌then◌else◌, lookup, insert as map_insert, remove,
  text_eq, keys, NotIn, Distinct, Distinct-snoc, NotIn-of_lookup, insert_new, remove-NotIn, subst,
  keys-append, Bool-cases, inl, inr, arith,
}
use rbph_website_backend.AssetCache.{DatabaseAssetCacheEntry, retain_other}

abbrev pub is_some : Option DatabaseAssetCacheEntry → Bool
is_some (some _) = true
is_some none = false

abbrev pub has : Str → List (Str × DatabaseAssetCacheEntry) → Bool
has key entries = is_some (lookup key entries)

abbrev pub contains : Str → List Str → Bool
contains key [] = false
contains key (current ∷ order) = str_eq current key || contains key order

-- The bytes of all entries.
abbrev pub total : List (Str × DatabaseAssetCacheEntry) → ℕ
total [] = 0
total ((_, entry) ∷ entries) = length entry.content + total entries

pub contains-retain_other :
    (key other : Str) (order : List Str)
    → contains other (retain_other key order)
      ≡ (if str_eq key other then false else contains other order)
unfolding retain_other
contains-retain_other key other [] = ground arith
contains-retain_other key other (current ∷ order) = ground (
  arith,
  str_eq_iff key other,
  str_eq_iff current key,
  str_eq_iff current other,
  contains-retain_other key other order,
)

pub contains-snoc :
    (key other : Str) (order : List Str)
    → contains other (order ++ key ∷ []) ≡ (contains other order || str_eq key other)
contains-snoc key other [] = ground arith
contains-snoc key other (current ∷ order) = ground (arith, contains-snoc key other order)

pub NotIn-of_contains :
    (key : Str) (order : List Str) → contains key order ≡ false → NotIn key order
NotIn-of_contains key [] h = tt
NotIn-of_contains key (current ∷ order) h =
    (ground arith, NotIn-of_contains key order (ground arith))

NotIn-retain_other :
    (key other : Str) (order : List Str) → NotIn other order → NotIn other (retain_other key order)
unfolding retain_other
NotIn-retain_other key other [] h = tt
NotIn-retain_other key other (current ∷ order) h = elim (Bool-cases (str_eq current key)) [
  | inl p ↦ rw p (NotIn-retain_other key other order h.1)
  | inr p ↦ rw p (h.0, NotIn-retain_other key other order h.1)
]

pub Distinct-retain_other :
    (key : Str) (order : List Str) → Distinct order → Distinct (retain_other key order)
unfolding retain_other
Distinct-retain_other key [] d = tt
Distinct-retain_other key (current ∷ order) d = elim (Bool-cases (str_eq current key)) [
  | inl p ↦ rw p (Distinct-retain_other key order d.1)
  | inr p ↦ rw p (NotIn-retain_other key current order d.0, Distinct-retain_other key order d.1)
]

pub retain_other-NotIn :
    (key : Str) (order : List Str) → NotIn key order → retain_other key order ≡ order
unfolding retain_other
retain_other-NotIn key [] h = refl
retain_other-NotIn key (current ∷ order) h =
    rw h.0 (ap (λ l. current ∷ l) (retain_other-NotIn key order h.1))

-- The front of the queue is taken off, as the loop of `insert` does.
pub retain_other-front :
    (key : Str) (order : List Str) → NotIn key order → retain_other key (key ∷ order) ≡ order
unfolding retain_other
retain_other-front key order h = rw (str_eq_refl key) (retain_other-NotIn key order h)

NotIn-keys-remove :
    (key other : Str) (m : List (Str × DatabaseAssetCacheEntry))
    → NotIn other (keys m)
    → NotIn other (keys (remove key m))
unfolding remove
NotIn-keys-remove key other [] h = tt
NotIn-keys-remove key other ((j, e) ∷ m) h = elim (Bool-cases (str_eq j key)) [
  | inl p ↦ rw p (NotIn-keys-remove key other m h.1)
  | inr p ↦ rw p (h.0, NotIn-keys-remove key other m h.1)
]

pub Distinct-keys-remove :
    (key : Str) (m : List (Str × DatabaseAssetCacheEntry))
    → Distinct (keys m)
    → Distinct (keys (remove key m))
unfolding remove
Distinct-keys-remove key [] d = tt
Distinct-keys-remove key ((j, e) ∷ m) d = elim (Bool-cases (str_eq j key)) [
  | inl p ↦ rw p (Distinct-keys-remove key m d.1)
  | inr p ↦ rw p (NotIn-keys-remove key j m d.0, Distinct-keys-remove key m d.1)
]

pub total-remove :
    (key : Str) (entry : DatabaseAssetCacheEntry) (m : List (Str × DatabaseAssetCacheEntry))
    → Distinct (keys m)
    → lookup key m ≡ some entry
    → total (remove key m) + length entry.content ≡ total m
unfolding remove lookup
total-remove key entry [] d h = ground arith
total-remove key entry ((j, e) ∷ m) d h = elim (Bool-cases (str_eq j key)) [
  | inl p ↦
      let absent =
        remove-NotIn key m (subst (λ k. NotIn k (keys m)) ((str_eq_iff j key).0 p) d.0) in
      rw (p, absent) (ground arith)
  | inr p ↦ rw p (ground (arith, total-remove key entry m d.1 (rw p at h)))
]

pub total-insert :
    (key : Str) (entry : DatabaseAssetCacheEntry) (m : List (Str × DatabaseAssetCacheEntry))
    → lookup key m ≡ none
    → total (map_insert key entry m) ≡ total m + length entry.content
unfolding map_insert lookup
total-insert key entry [] h = omega arith
total-insert key entry ((j, e) ∷ m) h = elim (Bool-cases (str_eq j key)) [
  | inl p ↦ cc (rw p at h)
  | inr p ↦ rw p (ground (arith, total-insert key entry m (rw p at h)))
]

pub Distinct-keys-insert :
    (key : Str) (entry : DatabaseAssetCacheEntry) (m : List (Str × DatabaseAssetCacheEntry))
    → Distinct (keys m)
    → lookup key m ≡ none
    → Distinct (keys (map_insert key entry m))
Distinct-keys-insert key entry m d h =
    let absent = NotIn-of_lookup key m h in
    rw (insert_new key entry m absent, keys-append m ((key, entry) ∷ []))
      (Distinct-snoc (keys m) key d absent)

-- A new entry for a key that is there, with the same content.
pub total-renew :
    (key : Str) (entry fresh : DatabaseAssetCacheEntry) (m : List (Str × DatabaseAssetCacheEntry))
    → lookup key m ≡ some entry
    → fresh.content ≡ entry.content
    → total (map_insert key fresh m) ≡ total m
unfolding map_insert lookup
total-renew key entry fresh [] h same = ground arith
total-renew key entry fresh ((j, e) ∷ m) h same = elim (Bool-cases (str_eq j key)) [
  | inl p ↦ rw p (ground (arith, ap length same))
  | inr p ↦ rw p (ground (arith, total-renew key entry fresh m (rw p at h) same))
]

pub keys-renew :
    (key : Str) (entry fresh : DatabaseAssetCacheEntry) (m : List (Str × DatabaseAssetCacheEntry))
    → lookup key m ≡ some entry
    → keys (map_insert key fresh m) ≡ keys m
unfolding map_insert lookup
keys-renew key entry fresh [] h = ground arith
keys-renew key entry fresh ((j, e) ∷ m) h = elim (Bool-cases (str_eq j key)) [
  | inl p ↦ rw p (ap (λ k. k ∷ keys m) (sym ((str_eq_iff j key).0 p)))
  | inr p ↦ rw p (ap (λ l. j ∷ l) (keys-renew key entry fresh m (rw p at h)))
]

pub total-none :
    (m : List (Str × DatabaseAssetCacheEntry)) → ((key : Str) → has key m ≡ false) → total m ≡ 0
unfolding lookup
total-none [] h = refl
total-none ((j, e) ∷ m) h = ground (arith, str_eq_refl j, h j)
