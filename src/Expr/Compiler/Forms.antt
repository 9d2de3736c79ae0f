-- ===== src/Expr/Compiler/Forms.antt =====
-- src/expr/compiler.rs: the heads that its `match` expressions know.
use rbph_website_backend.Prelude.{Str, codes, str_eq, Option, none, some, if◌then◌else◌}
use rbph_website_backend.Expr.Ast.{CmpOp, gt, ge, lt, le, eq, ne}

pub data SetForm : Type 0 where
  puzzles puzzle_range round unknown : SetForm

unfoldable pub set_form : Str → SetForm
set_form head =
    if str_eq head (codes "puzzles")
    then SetForm.puzzles
    else if str_eq head (codes "puzzle-range")
    then SetForm.puzzle_range
    else if str_eq head (codes "round")
    then SetForm.round
    else SetForm.unknown

unfoldable pub op_to_cmp : Str → Option CmpOp
op_to_cmp op =
    if str_eq op (codes "gt")
    then some gt
    else if str_eq op (codes "ge")
    then some ge
    else if str_eq op (codes "lt")
    then some lt
    else if str_eq op (codes "le")
    then some le
    else if str_eq op (codes "eq")
    then some eq
    else if str_eq op (codes "ne")
    then some ne
    else none

pub data GateForm : Type 0 where
  true false and or not solved all_solved any_solved game_started triggered unknown : GateForm
  cmp : CmpOp → GateForm

abbrev cmp_form : Option CmpOp → GateForm
cmp_form (some op) = GateForm.cmp op
cmp_form none = GateForm.unknown

unfoldable pub gate_form : Str → GateForm
unfolding op_to_cmp
gate_form head =
    if str_eq head (codes "true")
    then GateForm.true
    else if str_eq head (codes "false")
    then GateForm.false
    else if str_eq head (codes "and")
    then GateForm.and
    else if str_eq head (codes "or")
    then GateForm.or
    else if str_eq head (codes "not")
    then GateForm.not
    else if str_eq head (codes "solved")
    then GateForm.solved
    else if str_eq head (codes "all-solved")
    then GateForm.all_solved
    else if str_eq head (codes "any-solved")
    then GateForm.any_solved
    else if str_eq head (codes "game-started")
    then GateForm.game_started
    else if str_eq head (codes "triggered")
    then GateForm.triggered
    else cmp_form (op_to_cmp head)

pub data HintForm : Type 0 where
  hint_enabled hint_cooled_down and or not other : HintForm

unfoldable pub hint_form : Str → HintForm
hint_form head =
    if str_eq head (codes "hint-enabled")
    then HintForm.hint_enabled
    else if str_eq head (codes "hint-cooled-down")
    then HintForm.hint_cooled_down
    else if str_eq head (codes "and")
    then HintForm.and
    else if str_eq head (codes "or")
    then HintForm.or
    else if str_eq head (codes "not")
    then HintForm.not
    else HintForm.other
