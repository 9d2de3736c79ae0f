-- ===== src/Teams/Counts.antt =====
-- src/db/team.rs: how many members there are of a kind, through the statements on them.
use rbph_website_backend.Prelude.{
  ◌≤◌, some, List, [], ◌∷◌, Bool, true, false, ◌||◌, all, any, and_split, ◌≡◌, refl, inl, inr,
  Bool-cases, arith,
}
use rbph_website_backend.Submit.Rows.{select, count, update, delete}

module _ {A : Type 0} (q : A → Bool) where
  pub count-none : (rows : List A) → any q rows ≡ false → count q rows ≡ 0
  unfolding count
  count-none [] h = refl
  count-none (x ∷ rows) h = ground (arith, count-none rows)

  pub count-delete : (p : A → Bool) (rows : List A) → count q (delete p rows) ≤ count q rows
  unfolding count delete
  count-delete p [] = omega arith
  count-delete p (x ∷ rows) = ground (arith, count-delete p rows)

  pub count-update :
      (p : A → Bool) (f : A → A)
      → ((x : A) → q (f x) ≡ q x)
      → (rows : List A) → count q (update p f rows) ≡ count q rows
  unfolding count update
  count-update p f keeps [] = refl
  count-update p f keeps (x ∷ rows) = ground (arith, keeps x, count-update p f keeps rows)

  pub count-all :
      (p : A → Bool) (rows : List A)
      → ((x : A) → q x ≡ true → p x ≡ false)
      → all p rows ≡ true
      → count q rows ≡ 0
  unfolding count
  count-all p [] differ h = refl
  count-all p (x ∷ rows) differ h = ground (arith, differ x, count-all p rows differ)

  -- Where every row is of another kind, none is of this one.
  pub any-all :
      (p : A → Bool) (rows : List A)
      → ((x : A) → q x ≡ true → p x ≡ false)
      → all p rows ≡ true
      → any q rows ≡ false
  any-all p [] differ h = refl
  any-all p (x ∷ rows) differ h = ground (arith, differ x, any-all p rows differ)

  pub any-or :
      (p : A → Bool) (rows : List A)
      → any q rows ≡ false
      → any p rows ≡ false
      → any (λ x. q x || p x) rows ≡ false
  any-or p [] h k = refl
  any-or p (x ∷ rows) h k = ground (arith, any-or p rows)

module _ {A : Type 0} (p : A → Bool) where
  pub all-weaken :
      (w : A → Bool) (rows : List A)
      → ((x : A) → p x ≡ true → w x ≡ true)
      → all p rows ≡ true
      → all w rows ≡ true
  all-weaken w [] weaker h = refl
  all-weaken w (y ∷ rows) weaker h = ground (arith, weaker y, all-weaken w rows weaker)

  pub all-select :
      (w : A → Bool) (rows : List A) {x : A}
      → all p rows ≡ true
      → select w rows ≡ some x
      → p x ≡ true
  unfolding select
  all-select w [] h found = cc
  all-select w (y ∷ rows) {x} h found =
      let (first, rest) = and_split (p y) (all p rows) h in
      elim (Bool-cases (w y)) [
        | inl e ↦ let same : y ≡ x = cc (rw e at found) in rw (← same) first
        | inr e ↦ all-select w rows rest (rw e at found)
      ]

  pub all-delete : (w : A → Bool) (rows : List A) → all p rows ≡ true → all p (delete w rows) ≡ true
  unfolding delete
  all-delete w [] h = refl
  all-delete w (y ∷ rows) h = ground (arith, all-delete w rows)

  pub all-update :
      (w : A → Bool) (f : A → A)
      → ((x : A) → p (f x) ≡ p x)
      → (rows : List A) → all p rows ≡ true
      → all p (update w f rows) ≡ true
  unfolding update
  all-update w f keeps [] h = refl
  all-update w f keeps (y ∷ rows) h = ground (arith, keeps y, all-update w f keeps rows)
