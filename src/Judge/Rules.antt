-- ===== src/Judge/Rules.antt =====
-- src/game/judge.rs: which rule decides, which keys pass, and what normalisation keeps.
use rbph_website_backend.Prelude.{
  ℕ, suc, Str, codes, Option, none, some, List, [], ◌∷◌, ◌++◌, map, append_assoc, append-nil, true,
  false, Result, ok, err, all, ◌≡◌, refl, sym, ap, ◌∙◌, ◌↔◌, ◌&&◌, not, ◌⊎◌, inl, inr, arith,
  Bool-cases, is_whitespace,
}
use native.Mathlib.Numerals.{add-one}
use rbph_website_backend.Expr.Compiler.Atoms.{valid_key, key_chars, is_key_char}
use rbph_website_backend.Judge.{
  RbInternalError, JudgeRule, JudgeResult, JudgeBackendOutput, result_of_output, is_type, decide,
  no_match, text_is, judge_by_rules, valid_trigger_key, key_tail, any_invalid_key, all_triggers,
  normalize_answer, normalize_rule, value_to_judge,
}

key_tail-eq-key_chars : (n : ℕ) (s : Str) → key_tail s ≡ key_chars (suc n) s
unfolding key_tail key_chars is_key_char
key_tail-eq-key_chars n [] = refl
key_tail-eq-key_chars n (c ∷ s) = ground (arith, key_tail-eq-key_chars (suc n) s, add-one (suc n))

-- The keys that a judge may trigger are those that a `(triggered puzzle key)` gate may name.
pub valid_trigger_key-eq-valid_key : (key : Str) → valid_trigger_key key ≡ valid_key key
unfolding valid_trigger_key valid_key key_chars
valid_trigger_key-eq-valid_key [] = refl
valid_trigger_key-eq-valid_key (c ∷ s) = ground (arith, key_tail-eq-key_chars 0 s)

-- What a custom executor gives.
module _ {S : Type 0} where
  pub outcomes :
      (o : Result RbInternalError (S × Option JudgeBackendOutput))
      → ((e : RbInternalError) × (o ≡ err e))
        ⊎ ((t : S) × (o ≡ ok (t, none)))
        ⊎ ((t : S) × (output : JudgeBackendOutput) × (o ≡ ok (t, some output)))
  outcomes (err e) = inl (e, refl)
  outcomes (ok (t, none)) = inr (inl (t, refl))
  outcomes (ok (t, some output)) = inr (inr (t, output, refl))

module _ {S : Type 0} (run : S → JudgeRule → Result RbInternalError (S × Option JudgeBackendOutput))
    (answer : Str) where
  -- Rules that let the answer pass, from a state of the executor to another.
  pub data Passes : S → List JudgeRule → S → Type 0 where
    done : (s : S) → Passes s [] s
    exact :
        (s : S) (rule : JudgeRule) (rules : List JudgeRule) (s' : S)
        → is_type rule.rtype (codes "exact") ≡ true
        → text_is rule.text answer ≡ false
        → Passes s rules s'
        → Passes s (rule ∷ rules) s'
    custom :
        (s : S) (rule : JudgeRule) (rules : List JudgeRule) (s₁ s' : S)
        → is_type rule.rtype (codes "custom") ≡ true
        → run s rule ≡ ok (s₁, none)
        → Passes s₁ rules s'
        → Passes s (rule ∷ rules) s'
    unknown :
        (s : S) (rule : JudgeRule) (rules : List JudgeRule) (s' : S)
        → is_type rule.rtype (codes "exact") ≡ false
        → is_type rule.rtype (codes "custom") ≡ false
        → is_type rule.rtype (codes "all") ≡ false
        → Passes s rules s'
        → Passes s (rule ∷ rules) s'

  -- A rule that judges the answer.
  pub data Decides : S → JudgeRule → S → JudgeResult → Type 0 where
    exact :
        (s : S) (rule : JudgeRule)
        → is_type rule.rtype (codes "exact") ≡ true
        → text_is rule.text answer ≡ true
        → Decides s rule s (decide rule)
    custom :
        (s : S) (rule : JudgeRule) (s' : S) (output : JudgeBackendOutput)
        → is_type rule.rtype (codes "custom") ≡ true
        → run s rule ≡ ok (s', some output)
        → Decides s rule s' (result_of_output output)
    catch_all :
        (s : S) (rule : JudgeRule)
        → is_type rule.rtype (codes "all") ≡ true
        → Decides s rule s (decide rule)

  -- The first rule that does not let the answer pass decides; with none, the answer fails.
  abbrev pub Judged : S → List JudgeRule → S → JudgeResult → Type 0
  Judged s rules s' r =
      (Passes s rules s' × (r ≡ no_match))
      ⊎ ((before : List JudgeRule) × (rule : JudgeRule) × (after : List JudgeRule) × (s₁ : S)
          × (rules ≡ before ++ rule ∷ after)
          × Passes s before s₁
          × Decides s₁ rule s' r)

  -- A rule in front lets the answer pass to a state from which the others judge.
  behind :
      (s s₁ s' : S) (rule : JudgeRule) (rules : List JudgeRule) (r : JudgeResult)
      → ((l : List JudgeRule) (t : S) → Passes s₁ l t → Passes s (rule ∷ l) t)
      → Judged s₁ rules s' r
      → Judged s (rule ∷ rules) s' r
  behind s s₁ s' rule rules r pass (inl (p, q)) = inl (pass rules s' p, q)
  behind s s₁ s' rule rules r pass (inr (before, one, after, t, e, p, d)) =
      inr (rule ∷ before, one, after, t, ap (λ l. rule ∷ l) e, pass before t p, d)

  at_front :
      (s s' : S) (rule : JudgeRule) (rules : List JudgeRule) (r : JudgeResult)
      → Decides s rule s' r
      → Judged s (rule ∷ rules) s' r
  at_front s s' rule rules r d = inr ([], rule, rules, s, refl, done s, d)

  decided :
      (s t s' : S) (rule : JudgeRule) (rules : List JudgeRule) (r q : JudgeResult)
      → Path (Result RbInternalError (S × JudgeResult)) (ok (t, q)) (ok (s', r))
      → Decides s rule t q
      → Judged s (rule ∷ rules) s' r
  decided s t s' rule rules r q e d =
      let a : t ≡ s' = cc e in let b : q ≡ r = cc e in rw (← a, ← b) (at_front s t rule rules q d)

  -- When `judge_by_rules` judges an answer, the rules before some rule let the answer pass and this
  -- one decides as its type says; or all rules let it pass, and the answer fails without a result.
  pub judge_by_rules-Judged :
      (s s' : S) (rules : List JudgeRule) (r : JudgeResult)
      → judge_by_rules run s rules answer ≡ ok (s', r)
      → Judged s rules s' r
  unfolding judge_by_rules
  judge_by_rules-Judged s s' [] r h = let a : s ≡ s' = cc h in inl (rw (← a) (done s), cc h)
  judge_by_rules-Judged s s' (rule ∷ rules) r h =
      elim (Bool-cases (is_type rule.rtype (codes "exact"))) [
        | inl e ↦ elim (Bool-cases (text_is rule.text answer)) [
          | inl m ↦ decided s s s' rule rules r (decide rule) (rw (e, m) at h) (exact s rule e m)
          | inr m ↦
              behind s s s' rule rules r (λ l t. exact s rule l t e m)
                (judge_by_rules-Judged s s' rules r (rw (e, m) at h))
        ]
        | inr e ↦ elim (Bool-cases (is_type rule.rtype (codes "custom"))) [
          | inl c ↦ elim (outcomes (run s rule)) [
            | inl (x, o) ↦ cc (rw (e, c, o) at h)
            | inr (inl (t, o)) ↦
                behind s t s' rule rules r (λ l u. custom s rule l t u c o)
                  (judge_by_rules-Judged t s' rules r (rw (e, c, o) at h))
            | inr (inr (t, output, o)) ↦
                decided s t s' rule rules r (result_of_output output) (rw (e, c, o) at h)
                  (custom s rule t output c o)
          ]
          | inr c ↦ elim (Bool-cases (is_type rule.rtype (codes "all"))) [
            | inl a ↦
                decided s s s' rule rules r (decide rule) (rw (e, c, a) at h) (catch_all s rule a)
            | inr a ↦
                behind s s s' rule rules r (λ l t. unknown s rule l t e c a)
                  (judge_by_rules-Judged s s' rules r (rw (e, c, a) at h))
          ]
        ]
      ]

-- Every trigger of every rule has a key that a gate may name.
abbrev pub HasValidTriggers : List JudgeRule → Type 0
HasValidTriggers rules = all (λ rule. all valid_key rule.triggers) rules ≡ true

any_invalid_key-valid : (keys : List Str) → any_invalid_key keys ≡ not (all valid_key keys)
unfolding any_invalid_key
any_invalid_key-valid [] = refl
any_invalid_key-valid (key ∷ keys) =
    ground (arith, valid_trigger_key-eq-valid_key key, any_invalid_key-valid keys)

all-append :
    (keys later : List Str)
    → all valid_key (keys ++ later) ≡ (all valid_key keys && all valid_key later)
all-append [] later = refl
all-append (key ∷ keys) later = ground (arith, all-append keys later)

all_triggers-valid :
    (rules : List JudgeRule)
    → all valid_key (all_triggers rules) ≡ all (λ rule. all valid_key rule.triggers) rules
all_triggers-valid [] = refl
all_triggers-valid (rule ∷ rules) =
    all-append rule.triggers (all_triggers rules)
    ∙ ap (λ b. all valid_key rule.triggers && b) (all_triggers-valid rules)

-- What `value_to_judge` tests, on all rules at once, says the same of each rule.
any_invalid_key-all_triggers :
    (rules : List JudgeRule)
    → any_invalid_key (all_triggers rules) ≡ not (all (λ rule. all valid_key rule.triggers) rules)
any_invalid_key-all_triggers rules =
    any_invalid_key-valid (all_triggers rules) ∙ ap not (all_triggers-valid rules)

module _ (to_lowercase : ℕ → List ℕ) where
  -- White space makes no difference.
  pub normalize_answer-append :
      (s t : Str)
      → normalize_answer to_lowercase (s ++ t)
        ≡ normalize_answer to_lowercase s ++ normalize_answer to_lowercase t
  unfolding normalize_answer
  normalize_answer-append [] t = refl
  normalize_answer-append (c ∷ s) t = elim (Bool-cases (is_whitespace c)) [
    | inl p ↦ rw p (normalize_answer-append s t)
    | inr p ↦
        rw (p, normalize_answer-append s t)
          (sym (
            append_assoc (to_lowercase c) (normalize_answer to_lowercase s)
              (normalize_answer to_lowercase t)))
  ]

  normalize_answer_space :
      (w : Str) → all is_whitespace w ≡ true → normalize_answer to_lowercase w ≡ []
  unfolding normalize_answer
  normalize_answer_space [] h = refl
  normalize_answer_space (c ∷ w) h = elim (Bool-cases (is_whitespace c)) [
    | inl p ↦ rw p (normalize_answer_space w (rw p at h))
    | inr p ↦ cc (rw p at h)
  ]

  -- White space anywhere in an answer makes no difference.
  pub normalize_answer_spaced :
      (s w t : Str)
      → all is_whitespace w ≡ true
      → normalize_answer to_lowercase (s ++ w ++ t) ≡ normalize_answer to_lowercase (s ++ t)
  normalize_answer_spaced s w t h =
      rw
        (
          normalize_answer-append (s ++ w) t,
          normalize_answer-append s w,
          normalize_answer_space w h,
          normalize_answer-append s t,
          append-nil,
        )
        refl

  normalize_rule_triggers : (x : JudgeRule) → (normalize_rule to_lowercase x).triggers ≡ x.triggers
  unfolding normalize_rule
  normalize_rule_triggers x = elim (Bool-cases (is_type x.rtype (codes "exact"))) [
    | inl p ↦ rw p refl
    | inr p ↦ rw p refl
  ]

  HasValidTriggers-map :
      (rules : List JudgeRule)
      → all (λ rule. all valid_key rule.triggers) (map (normalize_rule to_lowercase) rules)
        ≡ all (λ rule. all valid_key rule.triggers) rules
  HasValidTriggers-map [] = refl
  HasValidTriggers-map (x ∷ rules) = rw (normalize_rule_triggers x, HasValidTriggers-map rules) refl

  -- The rules that `value_to_judge` accepts trigger keys that a gate of the gate language may name,
  -- each trigger of each rule.
  pub value_to_judge-keys :
      (v : Result Str (List JudgeRule)) (rules : List JudgeRule)
      → value_to_judge to_lowercase v ≡ ok rules
      → HasValidTriggers rules
  unfolding value_to_judge
  value_to_judge-keys (err message) rules h = cc h
  value_to_judge-keys (ok read) rules h = elim (Bool-cases (any_invalid_key (all_triggers read))) [
    | inl p ↦ cc (rw p at h)
    | inr p ↦
        let q : map (normalize_rule to_lowercase) read ≡ rules = cc (rw p at h) in
        rw (← q, HasValidTriggers-map read) (ground (arith, any_invalid_key-all_triggers read))
  ]

  -- Rules that are read are accepted if and only if each trigger of each of them has a key that a gate
  -- of the gate language may name.
  pub value_to_judge-accepts :
      (read : List JudgeRule)
      → ((rules : List JudgeRule) × (value_to_judge to_lowercase (ok read) ≡ ok rules))
        ↔ HasValidTriggers read
  unfolding value_to_judge
  value_to_judge-accepts read = (
    λ (rules, h). elim (Bool-cases (any_invalid_key (all_triggers read))) [
      | inl p ↦ cc (rw p at h)
      | inr p ↦ ground (arith, any_invalid_key-all_triggers read)
    ],
    λ valid.
        let clean : any_invalid_key (all_triggers read) ≡ false =
          ground (arith, any_invalid_key-all_triggers read) in
        (map (normalize_rule to_lowercase) read, rw clean refl),
  )
