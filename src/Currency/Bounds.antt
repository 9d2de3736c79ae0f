-- ===== src/Currency/Bounds.antt =====
-- src/db/team.rs: what amounts a cost and a gain may leave.
use rbph_website_backend.Prelude.{
  zero, suc, Option, none, some, true, false, ◌≡◌, ◌||◌, ◌&&◌, refl, sym, ap, ◌∙◌, inl, inr,
  Bool-cases, arith, ℤ, pos, negsuc, leℤ, ltℤ, minℤ, maxℤ, ◌+ℤ◌, diff, negate, within, i64_min,
  i64_max, checked_i64, saturate_i64, leℤ-refl, leℤ-trans, leℤ_total,
}
use rbph_website_backend.Currency.{
  and_then, CurrencyCostChange, currency_cost_change, cost_within, clamp, stored_amount,
}

add-negate : (x a : ℤ) → (x +ℤ negate a) +ℤ a ≡ x
unfolding ◌+ℤ◌ negate diff
add-negate (pos x) (pos zero) = ground arith
add-negate (pos x) (pos (suc a)) = ground arith
add-negate (negsuc x) (pos zero) = ground arith
add-negate (negsuc x) (pos (suc a)) = ground arith
add-negate (pos x) (negsuc a) = ground arith
add-negate (negsuc x) (negsuc a) = ground arith

negate-negate : (a : ℤ) → negate (negate a) ≡ a
unfolding negate
negate-negate (pos zero) = refl
negate-negate (pos (suc a)) = refl
negate-negate (negsuc a) = refl

ltℤ_le : (x y : ℤ) → leℤ y x ≡ true → ltℤ x y ≡ false
unfolding ltℤ leℤ
ltℤ_le (pos a) (pos b) h = ground arith
ltℤ_le (pos a) (negsuc b) h = refl
ltℤ_le (negsuc a) (pos b) h = cc h
ltℤ_le (negsuc a) (negsuc b) h = ground arith

pub checked_i64-eq :
    (x y : ℤ) → checked_i64 x ≡ some y → (x ≡ y) × (within i64_min i64_max x ≡ true)
unfolding checked_i64
checked_i64-eq x y h = elim (Bool-cases (within i64_min i64_max x)) [
  | inl p ↦ (cc (rw p at h), p)
  | inr p ↦ cc (rw p at h)
]

checked_i64-within : (x : ℤ) → within i64_min i64_max x ≡ true → checked_i64 x ≡ some x
unfolding checked_i64
checked_i64-within x h = rw h refl

and_then-some :
    {A B : Type 0} (o : Option A) (k : A → Option B) (b : B)
    → and_then o k ≡ some b
    → (a : A) × (o ≡ some a) × (k a ≡ some b)
and_then-some none k b h = cc h
and_then-some (some a) k b h = (a, refl, h)

cost_within-some :
    (m a d n : ℤ) (change : CurrencyCostChange)
    → cost_within m a d n ≡ some change
    → ((ltℤ (pos 0) a && ltℤ n (pos 0)) || (ltℤ a (pos 0) && ltℤ m n) ≡ false)
      × (change.next_amount ≡ n)
      × (change.delta ≡ d)
unfolding cost_within
cost_within-some m a d n change h =
    elim (Bool-cases ((ltℤ (pos 0) a && ltℤ n (pos 0)) || (ltℤ a (pos 0) && ltℤ m n))) [
      | inl p ↦ cc (rw p at h)
      | inr p ↦
          let e : Path (Option CurrencyCostChange) (some (record { next_amount = n; delta = d }))
              (some change) =
            rw p at h in
          let q : record { next_amount = n; delta = d } ≡ change = cc e in
          (p, sym (ap (λ x. x.next_amount) q), sym (ap (λ x. x.delta) q))
    ]

-- A cost that is granted takes its amount, and leaves no debt where it takes something and no
-- amount above the maximum where it gives something; the change it reports is what it took.
pub currency_cost_change-granted :
    (c m a : ℤ) (change : CurrencyCostChange)
    → currency_cost_change c m a ≡ some change
    → (change.next_amount ≡ c +ℤ negate a)
      × (change.delta ≡ negate a)
      × (ltℤ (pos 0) a && ltℤ change.next_amount (pos 0) ≡ false)
      × (ltℤ a (pos 0) && ltℤ m change.next_amount ≡ false)
unfolding currency_cost_change
currency_cost_change-granted c m a change h =
    let (d, p, h₁) = and_then-some (checked_i64 (negate a)) _ change h in
    let (n, q, h₂) = and_then-some (checked_i64 (c +ℤ d)) _ change h₁ in
    let (t, r, s) = cost_within-some m a d n change h₂ in
    let e : negate a ≡ d = (checked_i64-eq (negate a) d p).0 in
    let f : c +ℤ d ≡ n = (checked_i64-eq (c +ℤ d) n q).0 in
    (
      r ∙ sym f ∙ ap (λ x. c +ℤ x) (sym e),
      s ∙ sym e,
      rw r (ground (arith, t)),
      rw r (ground (arith, t)),
    )

-- A cost that was granted can be taken back: where the amount was between zero and the maximum, and
-- it and the cost are within `i64`, the opposite cost is granted and restores the amount.
pub currency_cost_change-refund :
    (c m a : ℤ) (change : CurrencyCostChange)
    → within i64_min i64_max c ≡ true
    → within i64_min i64_max a ≡ true
    → leℤ (pos 0) c ≡ true
    → leℤ c m ≡ true
    → currency_cost_change c m a ≡ some change
    → currency_cost_change change.next_amount m (negate a)
      ≡ some (record { next_amount = c; delta = a })
unfolding currency_cost_change cost_within
currency_cost_change-refund c m a change wc wa low high h =
    let (n, _, _, _) = currency_cost_change-granted c m a change h in
    rw
      (
        n,
        negate-negate a,
        checked_i64-within a wa,
        add-negate c a,
        checked_i64-within c wc,
        ltℤ_le c (pos 0) low,
        ltℤ_le m c high,
      )
      (ground arith)

pub clamp-within :
    (low high x y : ℤ) → clamp low high x ≡ some y → (leℤ low y ≡ true) × (leℤ y high ≡ true)
unfolding clamp maxℤ minℤ
clamp-within low high x y h =
    ground
      (arith, leℤ-refl low, leℤ-refl high, leℤ_total low x, leℤ_total x high, leℤ_total low high)

le-max-min :
    (c low high x : ℤ) → leℤ c x ≡ true → leℤ c high ≡ true → leℤ c (maxℤ low (minℤ x high)) ≡ true
unfolding maxℤ minℤ
le-max-min c low high x h k =
    ground (arith, leℤ_total low x, leℤ_total low high, leℤ-trans c x low, leℤ-trans c high low)

pub leℤ-add : (c d : ℤ) → leℤ (pos 0) d ≡ true → leℤ c (c +ℤ d) ≡ true
unfolding leℤ ◌+ℤ◌
leℤ-add (pos c) (pos d) h = ground arith
leℤ-add (negsuc c) (pos d) h = ground arith
leℤ-add (pos c) (negsuc d) h = cc h
leℤ-add (negsuc c) (negsuc d) h = cc h

pub min-le : (c x : ℤ) → leℤ (minℤ c x) c ≡ true
unfolding minℤ
min-le c x = ground (arith, leℤ-refl c, leℤ_total c x)

-- A gain of zero or more, on an amount that is at most the maximum and the greatest `i64`, is always
-- stored, without a panic of `clamp`; it takes nothing away and does not pass the maximum.
pub stored_amount-gain :
    (c m d : ℤ)
    → leℤ c i64_max ≡ true
    → leℤ c m ≡ true
    → leℤ (pos 0) d ≡ true
    → (s : ℤ) × (stored_amount c m d ≡ some s) × (leℤ c s ≡ true) × (leℤ s m ≡ true)
unfolding stored_amount clamp saturate_i64
stored_amount-gain c m d bound high gain =
    let low = minℤ c (pos 0) in
    let x = saturate_i64 (c +ℤ d) in
    let fits : leℤ low m ≡ true = leℤ-trans low c m (min-le c (pos 0)) high in
    let stored : stored_amount c m d ≡ some (maxℤ low (minℤ x m)) = rw fits refl in
    let grown = le-max-min c i64_min i64_max (c +ℤ d) (leℤ-add c d gain) bound in
    (
      maxℤ low (minℤ x m),
      stored,
      le-max-min c low m x grown high,
      (clamp-within low m x (maxℤ low (minℤ x m)) stored).1,
    )
