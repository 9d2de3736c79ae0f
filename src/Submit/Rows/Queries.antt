-- ===== src/Submit/Rows/Queries.antt =====
-- What the forms of the statements of src/db find and keep.
use rbph_website_backend.Prelude.{
  none, and_split, or_right, some, List, [], ◌∷◌, Bool, true, false, not, ◌&&◌, ◌||◌, all, any,
  if◌then◌else◌, ◌∙◌, ℤ, eqℤ, eqℤ_iff, eqℤ_refl, ◌≡◌, refl, ap, inl, inr, Bool-cases, arith,
}
use rbph_website_backend.Submit.Rows.{select, update, delete}

module _ {A : Type 0} where
  pub select-holds :
      (p : A → Bool) (rows : List A) {row : A} → select p rows ≡ some row → p row ≡ true
  unfolding select
  select-holds p [] h = cc
  select-holds p (x ∷ rows) {row} h = elim (Bool-cases (p x)) [
    | inl e ↦ let same : x ≡ row = cc (rw e at h) in rw (← same) e
    | inr e ↦ select-holds p rows (rw e at h)
  ]

  -- An update of the rows that a key finds.
  pub select-update :
      (p : A → Bool) (f : A → A)
      → ((row : A) → p (f row) ≡ p row)
      → (rows : List A) {row : A} → select p rows ≡ some row
      → select p (update p f rows) ≡ some (f row)
  unfolding select update
  select-update p f keeps [] h = cc
  select-update p f keeps (x ∷ rows) {row} h = elim (Bool-cases (p x)) [
    | inl e ↦ let same : x ≡ row = cc (rw e at h) in rw (e, keeps x, e) (ap (λ r. some (f r)) same)
    | inr e ↦ rw (e, e) (select-update p f keeps rows (rw e at h))
  ]

  pub select-any :
      (p : A → Bool) (rows : List A) {row : A} → select p rows ≡ some row → any p rows ≡ true
  unfolding select
  select-any p [] h = cc
  select-any p (x ∷ rows) h = elim (Bool-cases (p x)) [
    | inl e ↦ rw e refl
    | inr e ↦ rw e (select-any p rows (rw e at h))
  ]

  -- An update under another condition.
  pub select-update_where :
      (p w : A → Bool) (f : A → A)
      → ((row : A) → p (f row) ≡ p row)
      → (rows : List A) {row : A} → select p rows ≡ some row
      → select p (update w f rows) ≡ some (if w row then f row else row)
  unfolding select update
  select-update_where p w f keeps [] h = cc
  select-update_where p w f keeps (x ∷ rows) {row} h = elim (Bool-cases (p x)) [
    | inl e ↦
        let same : x ≡ row = cc (rw e at h) in
        rw (still (w x) ∙ e) (ap (λ r. some (if w r then f r else r)) same)
    | inr e ↦ rw (still (w x) ∙ e) (select-update_where p w f keeps rows (rw e at h))
  ]
    where
      still : (b : Bool) → p (if b then f x else x) ≡ p x
      still true = keeps x
      still false = refl

  pub select-deleted : (p : A → Bool) (rows : List A) → select p (delete p rows) ≡ none
  unfolding select delete
  select-deleted p [] = refl
  select-deleted p (x ∷ rows) = elim (Bool-cases (p x)) [
    | inl e ↦ rw e (select-deleted p rows)
    | inr e ↦ rw (e, e) (select-deleted p rows)
  ]

  pub select-delete_other :
      (p w : A → Bool)
      → ((x : A) → w x ≡ true → p x ≡ false)
      → (rows : List A) → select p (delete w rows) ≡ select p rows
  unfolding select delete
  select-delete_other p w differ [] = refl
  select-delete_other p w differ (x ∷ rows) = elim (Bool-cases (w x)) [
    | inl e ↦ rw (e, differ x e) (select-delete_other p w differ rows)
    | inr e ↦ rw (e, select-delete_other p w differ rows) refl
  ]

  -- A statement on all the rows of a table against one on the keys that are found there.
  module _ (key : A → ℤ) (p : A → Bool) (has : ℤ → Bool) where
    pub all-of_keys :
        (rows : List A)
        → ((q : ℤ) → any (λ row. eqℤ (key row) q && p row) rows ≡ true → has q ≡ true)
        → all (λ row. not (p row) || has (key row)) rows ≡ true
    all-of_keys [] h = refl
    all-of_keys (x ∷ rows) h = ground (
      arith,
      h (key x),
      eqℤ_refl (key x),
      all-of_keys rows (λ q found. h q (or_right (eqℤ (key x) q && p x) found)),
    )

    pub keys-of_all :
        (rows : List A)
        → all (λ row. not (p row) || has (key row)) rows ≡ true
        → (q : ℤ) → any (λ row. eqℤ (key row) q && p row) rows ≡ true
        → has q ≡ true
    keys-of_all [] h q found = cc
    keys-of_all (x ∷ rows) h q found = elim (Bool-cases (eqℤ (key x) q)) [
      | inl e ↦
          let same = (eqℤ_iff (key x) q).0 e in
          ground
            (arith, ap has same, keys-of_all rows (and_split (not (p x) || has (key x)) _ h).1 q)
      | inr e ↦ ground (arith, keys-of_all rows (and_split (not (p x) || has (key x)) _ h).1 q)
    ]
