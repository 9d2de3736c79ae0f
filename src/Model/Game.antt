-- ===== src/Model/Game.antt =====
-- src/model/game.rs: the enumerations that the database stores as `i16`.
use rbph_website_backend.Prelude.{
  Str, codes, Option, none, some, Bool, true, false, str_eq, if◌then◌else◌, ◌≡◌, refl,
}
use rbph_website_backend.Prelude.{ℤ, pos, negsuc, eqℤ}

pub data RbJudgeAction : Type 0 where
  error : RbJudgeAction
  pending : RbJudgeAction
  fail : RbJudgeAction
  correct : RbJudgeAction
  milestone : RbJudgeAction
  start_game : RbJudgeAction
  easter_egg : RbJudgeAction
  finish_game : RbJudgeAction
  invalid : RbJudgeAction

-- `i16::from`: the discriminants. `Invalid` has the one after `FinishGame`.
unfoldable pub action_to_i16 : RbJudgeAction → ℤ
action_to_i16 error = negsuc 1
action_to_i16 pending = negsuc 0
action_to_i16 fail = pos 0
action_to_i16 correct = pos 1
action_to_i16 milestone = pos 2
action_to_i16 start_game = pos 3
action_to_i16 easter_egg = pos 4
action_to_i16 finish_game = pos 5
action_to_i16 invalid = pos 6

-- `RbJudgeAction::from(i16)`, with `Invalid` for every other number.
unfoldable pub action_from_i16 : ℤ → RbJudgeAction
unfolding eqℤ
action_from_i16 n =
    if eqℤ n (negsuc 1)
    then error
    else if eqℤ n (negsuc 0)
    then pending
    else if eqℤ n (pos 0)
    then fail
    else if eqℤ n (pos 1)
    then correct
    else if eqℤ n (pos 2)
    then milestone
    else if eqℤ n (pos 3)
    then start_game
    else if eqℤ n (pos 4)
    then easter_egg
    else if eqℤ n (pos 5)
    then finish_game
    else invalid

unfoldable pub side_effect : RbJudgeAction → Bool
side_effect correct = true
side_effect start_game = true
side_effect finish_game = true
side_effect _ = false

abbrev pub is_error : RbJudgeAction → Bool
is_error error = true
is_error _ = false

abbrev pub is_fail : RbJudgeAction → Bool
is_fail fail = true
is_fail _ = false

abbrev pub is_start_game : RbJudgeAction → Bool
is_start_game start_game = true
is_start_game _ = false

-- `From<&str>`.
unfoldable pub action_from_str : Str → RbJudgeAction
action_from_str s =
    if str_eq s (codes "fail")
    then fail
    else if str_eq s (codes "correct")
    then correct
    else if str_eq s (codes "milestone")
    then milestone
    else if str_eq s (codes "start_game")
    then start_game
    else if str_eq s (codes "easter_egg")
    then easter_egg
    else if str_eq s (codes "finish_game")
    then finish_game
    else error

-- `From<Option<String>>`.
unfoldable pub action_from_option : Option Str → RbJudgeAction
unfolding action_from_str
action_from_option (some s) = action_from_str s
action_from_option none = error

pub data RbPuzzlePenaltyType : Type 0 where
  no_penalty : RbPuzzlePenaltyType
  fixed_time : RbPuzzlePenaltyType
  linear_time : RbPuzzlePenaltyType
  currency : RbPuzzlePenaltyType

pub action_from_i16-to_i16 : (a : RbJudgeAction) → action_from_i16 (action_to_i16 a) ≡ a
unfolding action_from_i16 action_to_i16
action_from_i16-to_i16 error = refl
action_from_i16-to_i16 pending = refl
action_from_i16-to_i16 fail = refl
action_from_i16-to_i16 correct = refl
action_from_i16-to_i16 milestone = refl
action_from_i16-to_i16 start_game = refl
action_from_i16-to_i16 easter_egg = refl
action_from_i16-to_i16 finish_game = refl
action_from_i16-to_i16 invalid = refl
