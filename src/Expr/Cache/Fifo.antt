-- ===== src/Expr/Cache/Fifo.antt =====
-- The cache is a bounded queue: what `insert` keeps, and in which order.
use rbph_website_backend.Prelude.{
  ℕ, zero, suc, ◌+◌, ◌-◌, ◌≤◌, ◌<◌, Str, ◌≡◌, refl, sym, ap, ◌∙◌, arith, none, some, List, [], ◌∷◌,
  ◌++◌, Result, length, leb, Bool-cases, Option-cases, inl, inr, drop, drop-nil, leb→le,
  length-drop, length-append, lookup, insert as map_insert, keys, Distinct, Distinct-snoc, NotIn,
  NotIn-of_lookup, insert_new, remove_first, length-keys, keys-append, text_eq,
}
use rbph_website_backend.Expr.Cache.{
  ExprError, CompileCache, compile_cache_capacity, evict, insert_within, insert, get,
}

Distinct-drop : (n : ℕ) (ks : List Str) → Distinct ks → Distinct (drop n ks)
Distinct-drop zero ks d = d
Distinct-drop (suc n) [] d = d
Distinct-drop (suc n) (k ∷ ks) d = Distinct-drop n ks d.1

NotIn-drop : (n : ℕ) (k : Str) (ks : List Str) → NotIn k ks → NotIn k (drop n ks)
NotIn-drop zero k ks h = h
NotIn-drop (suc n) k [] h = h
NotIn-drop (suc n) k (j ∷ ks) h = NotIn-drop n k ks h.1

module _ {T : Type 0} where
  -- The queue holds the keys of the map, each once, and there is no more than the capacity.
  pub record IsBounded (capacity : ℕ) (cache : CompileCache T) : Type 0 where
    pub queued : cache.insertion_order ≡ keys cache.values
    pub distinct : Distinct (keys cache.values)
    pub bounded : length cache.values ≤ capacity

  evict-eq-drop :
      (capacity : ℕ) (m : List (Str × Result ExprError T))
      → 0 < capacity
      → Distinct (keys m)
      → evict capacity (keys m) m
        ≡ (drop (length m + 1 - capacity) m, keys (drop (length m + 1 - capacity) m))
  unfolding evict
  evict-eq-drop capacity [] pos d = rw (drop-nil (1 - capacity))
  evict-eq-drop capacity ((k, v) ∷ m) pos d = elim (Bool-cases (leb capacity (suc (length m)))) [
    | inl full ↦
        let more : suc (length m) + 1 - capacity ≡ suc (length m + 1 - capacity) =
          omega (arith, leb→le capacity (suc (length m)) full) in
        rw (full, remove_first k v m d.0, more) (evict-eq-drop capacity m pos d.1)
    | inr room ↦
        let none_over : suc (length m) + 1 - capacity ≡ 0 = ground arith in rw (room, none_over)
  ]

  keys-drop : (n : ℕ) (m : List (Str × Result ExprError T)) → keys (drop n m) ≡ drop n (keys m)
  keys-drop zero m = refl
  keys-drop (suc n) [] = refl
  keys-drop (suc n) (_ ∷ m) = keys-drop n m

  -- What an insertion into a bounded cache makes of the entries.
  abbrev pub after_insert :
      ℕ
      → List (Str × Result ExprError T)
      → Str
      → Result ExprError T
      → List (Str × Result ExprError T)
  after_insert capacity m k v = drop (length m + 1 - capacity) m ++ (k, v) ∷ []

  insert_within-old :
      (capacity : ℕ) (cache : CompileCache T) (k : Str) (v w : Result ExprError T)
      → lookup k cache.values ≡ some w
      → insert_within capacity cache k v ≡ (cache, w)
  unfolding insert_within
  insert_within-old capacity cache k v w h = rw (h, insert_within)

  insert_within-new :
      (capacity : ℕ) (cache : CompileCache T) (k : Str) (v : Result ExprError T)
      → 0 < capacity
      → IsBounded capacity cache
      → lookup k cache.values ≡ none
      → insert_within capacity cache k v ≡ (
        record {
          values = after_insert capacity cache.values k v;
          insertion_order = keys (after_insert capacity cache.values k v);
        },
        v,
      )
  unfolding insert_within
  insert_within-new capacity cache k v pos b h =
      let m = cache.values in
      let kept = drop (length m + 1 - capacity) m in
      let new_key = NotIn-drop (length m + 1 - capacity) k (keys m) (NotIn-of_lookup k m h) in
      let absent : NotIn k (keys kept) = rw (keys-drop (length m + 1 - capacity) m) new_key in
      let build = λ (r : List (Str × Result ExprError T) × List Str).
        let c : CompileCache T = record {
          values = map_insert k v r.0;
          insertion_order = r.1 ++ k ∷ [];
        } in
        let p : CompileCache T × Result ExprError T = (c, v) in p in
      rw (h, insert_within)
        (ap (λ o. build (evict capacity o m)) b.queued
          ∙ ap build (evict-eq-drop capacity m pos b.distinct)
          ∙ rw (insert_new k v kept absent, keys-append kept ((k, v) ∷ [])))

  after_insert-IsBounded :
      (capacity : ℕ) (m : List (Str × Result ExprError T)) (k : Str) (v : Result ExprError T)
      → 0 < capacity
      → Distinct (keys m)
      → length m ≤ capacity
      → lookup k m ≡ none
      → IsBounded capacity (record {
        values = after_insert capacity m k v;
        insertion_order = keys (after_insert capacity m k v);
      })
  after_insert-IsBounded capacity m k v pos d le h =
      let n = length m + 1 - capacity in
      let kept = drop n m in
      record {
        queued = refl;
        distinct =
            rw (keys-append kept ((k, v) ∷ []), keys-drop n m)
              (Distinct-snoc (drop n (keys m)) k (Distinct-drop n (keys m) d)
                (NotIn-drop n k (keys m) (NotIn-of_lookup k m h)));
        bounded = omega (arith, length-append kept ((k, v) ∷ []), length-drop n m);
      }

  pub insert_within-IsBounded :
      (capacity : ℕ) (cache : CompileCache T) (k : Str) (v : Result ExprError T)
      → 0 < capacity
      → IsBounded capacity cache
      → IsBounded capacity (insert_within capacity cache k v).0
  insert_within-IsBounded capacity cache k v pos b = elim (Option-cases (lookup k cache.values)) [
    | inl h ↦
        rw (insert_within-new capacity cache k v pos b h)
          (after_insert-IsBounded capacity cache.values k v pos b.distinct b.bounded h)
    | inr (w, h) ↦ rw (insert_within-old capacity cache k v w h) b
  ]

  -- Inserting into the cache keeps its invariant: the queue lists the keys of the map in their
  -- order, each once, and there are at most 4096 of them.
  pub insert-IsBounded :
      (cache : CompileCache T) (k : Str) (v : Result ExprError T)
      → IsBounded compile_cache_capacity cache
      → IsBounded compile_cache_capacity (insert cache k v).0
  unfolding insert
  insert-IsBounded cache k v b =
      insert_within-IsBounded compile_cache_capacity cache k v (omega arith) b

  -- A new expression goes behind the others; the oldest one leaves if there is no room, and no
  -- other does.
  pub insert-fifo :
      (cache : CompileCache T) (k : Str) (v : Result ExprError T)
      → IsBounded compile_cache_capacity cache
      → get cache k ≡ none
      → let (cache', result) = insert cache k v in
        (result ≡ v)
        × (cache'.insertion_order
            ≡ drop (length cache.insertion_order + 1 - compile_cache_capacity) cache.insertion_order
              ++ k ∷ [])
        × (cache'.values
            ≡ drop (length cache.values + 1 - compile_cache_capacity) cache.values ++ (k, v) ∷ [])
  unfolding insert get
  insert-fifo cache k v b h =
      let m = cache.values in
      let n = length m + 1 - compile_cache_capacity in
      let shift = λ (j : ℕ) (o : List Str). drop (j + 1 - compile_cache_capacity) o ++ k ∷ [] in
      rw (insert_within-new compile_cache_capacity cache k v (omega arith) b h) (
        refl,
        keys-append (drop n m) ((k, v) ∷ [])
            ∙ ap (λ l. l ++ k ∷ []) (keys-drop n m)
            ∙ ap (λ j. shift j (keys m)) (sym (length-keys m))
            ∙ ap (λ o. shift (length o) o) (sym b.queued),
        refl,
      )
