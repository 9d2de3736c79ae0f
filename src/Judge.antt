-- ===== src/Judge.antt =====
-- src/game/judge.rs: rules that judge answers. `char::to_lowercase` and the custom executor are
-- parameters.
pub mod Rules
use rbph_website_backend.Prelude.{
  ℕ, Str, codes, Option, none, some, List, [], ◌∷◌, ◌++◌, map, Bool, true, false, not, ◌&&◌, ◌||◌,
  Result, ok, err, all, any, leb, ◌==◌, if◌then◌else◌, str_eq, is_whitespace, is_ascii_alphabetic,
  is_ascii_alphanumeric, byte_len,
}
use rbph_website_backend.Model.Game.{RbJudgeAction, action_from_option}

-- `error::RbInternalError`, with the errors of other libraries as their text.
pub data RbInternalError : Type 0 where
  sql : Str → RbInternalError
  bcrypt : Str → RbInternalError
  io : Str → RbInternalError
  zip : Str → RbInternalError
  redis : Str → RbInternalError
  redis_pool : Str → RbInternalError
  json : Str → RbInternalError
  session : Str → RbInternalError
  askama : Str → RbInternalError
  lettre : Str → RbInternalError
  lettre_address : Str → RbInternalError
  other : Str → RbInternalError

pub record JudgeRule : Type 0 where
  pub rtype : Option Str
  pub text : Option Str
  pub action : Option Str
  pub result : Option Str
  pub answer : Option Str
  pub function : Option Str
  pub triggers : List Str

pub record JudgeResult : Type 0 where
  pub action : RbJudgeAction
  pub result : Option Str
  pub answer : Option Str
  pub ignored : Bool
  pub triggers : List Str

pub record JudgeBackendOutput : Type 0 where
  pub action : Option RbJudgeAction
  pub result : Option Str
  pub answer : Option Str
  pub ignored : Option Bool
  pub triggers : List Str

-- `Option::unwrap_or` and `Option::or_else`.
abbrev pub unwrap_or : {A : Type 0} → A → Option A → A
unwrap_or default none = default
unwrap_or default (some a) = a

abbrev or_else : {A : Type 0} → Option A → Option A → Option A
or_else (some a) _ = some a
or_else none later = later

-- `JudgeResult::from(JudgeBackendOutput)`.
unfoldable pub result_of_output : JudgeBackendOutput → JudgeResult
result_of_output value = record {
  action = unwrap_or RbJudgeAction.fail value.action;
  result = value.result;
  answer = value.answer;
  ignored = unwrap_or false value.ignored;
  triggers = value.triggers;
}

-- The strings that `deserialize_judge_action` reads.
unfoldable pub action_from_camel : Str → RbJudgeAction
action_from_camel value =
    if str_eq value (codes "fail")
    then RbJudgeAction.fail
    else if str_eq value (codes "correct")
    then RbJudgeAction.correct
    else if str_eq value (codes "milestone")
    then RbJudgeAction.milestone
    else if str_eq value (codes "startGame")
    then RbJudgeAction.start_game
    else if str_eq value (codes "easterEgg")
    then RbJudgeAction.easter_egg
    else if str_eq value (codes "finishGame")
    then RbJudgeAction.finish_game
    else RbJudgeAction.error

-- `rule.rtype.as_deref() == Some(name)`.
abbrev pub is_type : Option Str → Str → Bool
is_type none name = false
is_type (some rtype) name = str_eq rtype name

-- The characters of a key behind the first.
unfoldable pub key_tail : Str → Bool
unfolding is_ascii_alphanumeric
key_tail [] = true
key_tail (c ∷ chars) = (is_ascii_alphanumeric c || c == b'_' || c == b'-') && key_tail chars

unfoldable pub valid_trigger_key : Str → Bool
unfolding is_ascii_alphabetic key_tail
valid_trigger_key [] = false
valid_trigger_key (first ∷ chars) =
    is_ascii_alphabetic first && leb (byte_len (first ∷ chars)) 64 && key_tail chars

-- Some key of the rules' triggers is not valid.
unfoldable pub any_invalid_key : List Str → Bool
unfolding valid_trigger_key
any_invalid_key keys = any (λ key. not (valid_trigger_key key)) keys

abbrev pub all_triggers : List JudgeRule → List Str
all_triggers [] = []
all_triggers (rule ∷ rules) = rule.triggers ++ all_triggers rules

-- What a rule that matches decides.
unfoldable pub decide : JudgeRule → JudgeResult
unfolding action_from_option
decide rule = record {
  action = action_from_option rule.action;
  result = rule.result;
  answer = rule.answer;
  ignored = false;
  triggers = rule.triggers;
}

abbrev pub no_match : JudgeResult
no_match = record {
  action = RbJudgeAction.fail;
  result = none;
  answer = none;
  ignored = false;
  triggers = [];
}

module _ (to_lowercase : ℕ → List ℕ) where
  unfoldable pub normalize_answer : Str → Str
  unfolding is_whitespace
  normalize_answer [] = []
  normalize_answer (c ∷ s) =
      let rest = normalize_answer s in if is_whitespace c then rest else to_lowercase c ++ rest

  -- `value_to_judge` on one rule.
  unfoldable pub normalize_rule : JudgeRule → JudgeRule
  unfolding normalize_answer
  normalize_rule x =
      if is_type x.rtype (codes "exact")
      then record {
        rtype = x.rtype;
        text = elim x.text [ none ↦ none | some t ↦ some (normalize_answer t) ];
        action = x.action;
        result = x.result;
        answer = or_else x.answer x.text;
        function = x.function;
        triggers = x.triggers;
      }
      else x

  -- The argument is what `serde_json::from_value` gives.
  unfoldable pub value_to_judge :
      Result Str (List JudgeRule) → Result RbInternalError (List JudgeRule)
  unfolding any_invalid_key normalize_rule
  value_to_judge (err message) = err (json message)
  value_to_judge (ok rules) =
      if any_invalid_key (all_triggers rules)
      then err (other (codes "judge rule contains an invalid trigger key"))
      else ok (map normalize_rule rules)

abbrev pub text_is : Option Str → Str → Bool
text_is none answer = false
text_is (some expected) answer = str_eq expected answer

-- The loop over the rules. The executor runs in a state that its calls may change.
module _ {S : Type 0}
    (custom_executor : S → JudgeRule → Result RbInternalError (S × Option JudgeBackendOutput)) where
  unfoldable pub judge_by_rules :
      S → List JudgeRule → Str → Result RbInternalError (S × JudgeResult)
  unfolding decide result_of_output
  judge_by_rules s [] answer = ok (s, no_match)
  judge_by_rules s (rule ∷ rules) answer =
      if is_type rule.rtype (codes "exact")
      then (if text_is rule.text answer then ok (s, decide rule) else judge_by_rules s rules answer)
      else if is_type rule.rtype (codes "custom")
      then (elim (custom_executor s rule) [
        | err e ↦ err e
        | ok (s', some output) ↦ ok (s', result_of_output output)
        | ok (s', none) ↦ judge_by_rules s' rules answer
      ])
      else if is_type rule.rtype (codes "all")
      then ok (s, decide rule)
      else judge_by_rules s rules answer
