-- ===== src/Tests/Assets.antt =====
-- src/module/storage.rs: `DatabaseAssetCache` on concrete calls.
use rbph_website_backend.Prelude.{
  List, [], ◌∷◌, some, true, codes, ◌≡◌, refl, arith, lookup, insert as map_insert, remove, text_eq,
}
use rbph_website_backend.AssetCache.{
  DatabaseAssetCache, new, insert, get, without, remove_expired, expired_keys, remove_keys, retain,
  retain_other, forget, take_off, make_room, put, saturating_add, is_expired,
}
use rbph_website_backend.AssetCache.Lists.{has}
use rbph_website_backend.AssetCache.Calls.{
  Call, get_call, insert_call, run, step, run-IsSound, IsSound,
}
use rbph_website_backend.AssetCache.Recent.{get-insert}
use rbph_website_backend.AssetCache.Oldest.{insert-has}

abbrev calls : List Call
calls =
    insert_call 10 10 (codes "a") (1 ∷ 2 ∷ [])
    ∷ insert_call 20 20 (codes "b") (3 ∷ [])
    ∷ get_call 30 30 (codes "a")
    ∷ []

abbrev filled : DatabaseAssetCache
filled = run calls new

filled_bytes : filled.inner.bytes ≡ 3
unfolding run step insert get without remove_expired expired_keys remove_keys retain retain_other
    forget take_off make_room put saturating_add is_expired lookup map_insert remove
filled_bytes = refl

run-IsSound_example : IsSound (run calls new)
run-IsSound_example = run-IsSound calls

get-insert_example :
    (get 50 50 (codes "c") (insert 40 40 (codes "c") (7 ∷ 8 ∷ []) filled)).1 ≡ some (7 ∷ 8 ∷ [])
unfolding run step insert get without remove_expired expired_keys remove_keys retain retain_other
    forget take_off make_room put saturating_add is_expired lookup map_insert remove
get-insert_example =
    get-insert 40 40 50 50 (codes "c") (7 ∷ 8 ∷ []) filled (run-IsSound calls) refl (omega arith)
      (omega arith)

insert-has_example :
    has (codes "b") (insert 40 40 (codes "c") (7 ∷ 8 ∷ []) filled).inner.entries ≡ true
unfolding run step insert get without remove_expired expired_keys remove_keys retain retain_other
    forget take_off make_room put saturating_add is_expired lookup map_insert remove
insert-has_example =
    insert-has 40 40 (codes "c") (codes "b") (7 ∷ 8 ∷ []) [] (codes "a" ∷ []) filled
      (run-IsSound calls) refl (omega arith) refl
