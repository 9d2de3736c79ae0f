-- ===== src/Expr/Cache/Transparent.antt =====
-- The cache changes no result, however the threads that share it interleave: each thread reads
-- under the read lock, compiles without a lock, and inserts under the write lock.
use rbph_website_backend.Prelude.{
  ℕ, Str, ◌≡◌, refl, sym, ap, ◌∙◌, Option, none, some, List, [], ◌∷◌, Result, Option-cases, inl,
  inr, lookup, insert as map_insert, remove, text_eq, lookup-insert, lookup-remove, if◌then◌else◌,
  Bool-cases, arith, leb, length, str_eq, str_eq_iff,
}
use rbph_website_backend.Expr.Cache.{
  ExprError, CompileCache, new, compile_cache_capacity, evict, insert_within, insert, get,
  compile_cached,
}

module _ {T : Type 0} (compile : Str → Result ExprError T) where
  -- Every entry is what compiling its key gives.
  pub record IsFaithful (cache : CompileCache T) : Type 0 where
    pub entry : (k : Str) (v : Result ExprError T) → lookup k cache.values ≡ some v → v ≡ compile k

  abbrev HoldsIn : List (Str × Result ExprError T) → Type 0
  HoldsIn m = (k : Str) (v : Result ExprError T) → lookup k m ≡ some v → v ≡ compile k

  remove-HoldsIn :
      (j : Str) (m : List (Str × Result ExprError T)) → HoldsIn m → HoldsIn (remove j m)
  remove-HoldsIn j m h k v e = h k v (ground (arith, lookup-remove j k m))

  insert-HoldsIn :
      (j : Str) (m : List (Str × Result ExprError T))
      → HoldsIn m
      → HoldsIn (map_insert j (compile j) m)
  insert-HoldsIn j m h k v e =
      let found : (if str_eq j k then some (compile j) else lookup k m) ≡ some v =
        sym (lookup-insert j k (compile j) m) ∙ e in
      elim (Bool-cases (str_eq j k)) [
        | inl same ↦ cc ((str_eq_iff j k).0 same, rw same at found)
        | inr other ↦ h k v (rw other at found)
      ]

  evict-HoldsIn :
      (capacity : ℕ) (order : List Str) (m : List (Str × Result ExprError T))
      → HoldsIn m
      → HoldsIn (evict capacity order m).0
  unfolding evict
  evict-HoldsIn capacity [] m h = h
  evict-HoldsIn capacity (j ∷ order) m h = elim (Bool-cases (leb capacity (length m))) [
    | inl full ↦ rw full (evict-HoldsIn capacity order (remove j m) (remove-HoldsIn j m h))
    | inr room ↦ rw room h
  ]

  insert-HoldsIn_result :
      (cache : CompileCache T) (k : Str)
      → HoldsIn cache.values
      → HoldsIn (insert cache k (compile k)).0.values × ((insert cache k (compile k)).1 ≡ compile k)
  unfolding insert insert_within
  insert-HoldsIn_result cache k h = elim (Option-cases (lookup k cache.values)) [
    | inl absent ↦
        rw (absent, insert_within)
          (
            insert-HoldsIn k _ (evict-HoldsIn compile_cache_capacity cache.insertion_order _ h),
            refl,
          )
    | inr (v, present) ↦ rw (present, insert_within) (h, h k v present)
  ]

  -- Looking an expression up through the cache gives what compiling it gives, and the cache stays
  -- faithful.
  pub compile_cached-eq-compile :
      (cache : CompileCache T) (k : Str)
      → IsFaithful cache
      → IsFaithful (compile_cached compile cache k).0
        × ((compile_cached compile cache k).1 ≡ compile k)
  unfolding compile_cached get
  compile_cached-eq-compile cache k f = elim (Option-cases (lookup k cache.values)) [
    | inl absent ↦
        let (holds, same) = insert-HoldsIn_result cache k f.entry in
        rw (absent, get, compile_cached) (record { entry = holds }, same)
    | inr (v, present) ↦ rw (present, get, compile_cached) (f, f.entry k v present)
  ]

-- One locked section of a thread that calls `compile_cached` on an expression.
pub data Event : Type 0 where
  read write : Str → Event

module _ {T : Type 0} (compile : Str → Result ExprError T) where
  -- What a section hands to its thread: a read may find nothing, a write always gives a result.
  unfoldable pub section_step :
      Event → CompileCache T → CompileCache T × Option (Result ExprError T)
  unfolding get insert
  section_step (read k) cache = (cache, get cache k)
  section_step (write k) cache =
      let (cache', result) = insert cache k (compile k) in (cache', some result)

  abbrev pub GivesCompiled : Str → Option (Result ExprError T) → Type 0
  GivesCompiled k none = Unit
  GivesCompiled k (some r) = r ≡ compile k

  -- Every result that is handed out on the way, from a cache on, is the compiled expression.
  abbrev pub AllCompiled : CompileCache T → List Event → Type 0
  AllCompiled cache [] = Unit
  AllCompiled cache (read k ∷ events) =
      GivesCompiled k (section_step (read k) cache).1
      × AllCompiled (section_step (read k) cache).0 events
  AllCompiled cache (write k ∷ events) =
      ((section_step (write k) cache).1 ≡ some (compile k))
      × AllCompiled (section_step (write k) cache).0 events

  get-GivesCompiled :
      (o : Option (Result ExprError T)) (k : Str)
      → ((v : Result ExprError T) → o ≡ some v → v ≡ compile k)
      → GivesCompiled k o
  get-GivesCompiled none k h = tt
  get-GivesCompiled (some v) k h = h v refl

  events-AllCompiled :
      (cache : CompileCache T) (events : List Event)
      → HoldsIn compile cache.values
      → AllCompiled cache events
  unfolding section_step
  events-AllCompiled cache [] h = tt
  events-AllCompiled cache (read k ∷ events) h =
      (get-GivesCompiled (lookup k cache.values) k (h k), events-AllCompiled cache events h)
  events-AllCompiled cache (write k ∷ events) h =
      let (holds, same) = insert-HoldsIn_result compile cache k h in
      (ap some same, events-AllCompiled (insert cache k (compile k)).0 events holds)

  new-HoldsIn : HoldsIn compile (new T).values
  unfolding new lookup
  new-HoldsIn k v h = cc

  -- From the empty cache, in every interleaving of the locked sections of any number of threads,
  -- each thread is handed what compiling its own expression gives.
  pub new-AllCompiled : (events : List Event) → AllCompiled (new T) events
  new-AllCompiled events = events-AllCompiled (new T) events new-HoldsIn
