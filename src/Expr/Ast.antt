-- ===== src/Expr/Ast.antt =====
-- src/expr/types.rs and the types of src/expr/ast.rs. `Vec<GateExpr>` and `Vec<HintDisplayExpr>`
-- are the second types of their blocks. A `PuzzleId` or `RoundId` is a u32, a `CountSize` a usize.
use rbph_website_backend.Prelude.{ℕ, Str, Bool, Option, List}

pub data PuzzleRef : Type 0 where
  id : ℕ → PuzzleRef
  slug : Str → PuzzleRef

pub data RoundRef : Type 0 where
  id : ℕ → RoundRef
  slug : Str → RoundRef

-- The trait through which an expression sees a team's state.
pub record PuzzleStates : Type 0 where
  pub is_solved : ℕ → Bool
  pub solved : List ℕ
  pub puzzle_slug : Str → Option ℕ
  pub round_slug : Str → Option ℕ
  pub round_puzzles : ℕ → Option (List ℕ)
  pub game_started : Bool
  pub is_triggered : ℕ → Str → Bool

pub data CmpOp : Type 0 where
  gt ge lt le eq ne : CmpOp

pub data SetExpr : Type 0 where
  puzzles : List PuzzleRef → SetExpr
  puzzle_range : ℕ → ℕ → SetExpr
  round : RoundRef → SetExpr

pub data ValueExpr : Type 0 where
  solved_count : SetExpr → ValueExpr
  number : ℕ → ValueExpr

mutual
  pub data GateExpr : Type 0 where
    true false game_started : GateExpr
    and or : GateExprs → GateExpr
    not : GateExpr → GateExpr
    solved : PuzzleRef → GateExpr
    all_solved any_solved : SetExpr → GateExpr
    triggered : PuzzleRef → Str → GateExpr
    cmp : CmpOp → ValueExpr → ValueExpr → GateExpr

  pub data GateExprs : Type 0 where
    nil : GateExprs
    cons : GateExpr → GateExprs → GateExprs

mutual
  pub data HintDisplayExpr : Type 0 where
    gate : GateExpr → HintDisplayExpr
    and or : HintDisplayExprs → HintDisplayExpr
    not : HintDisplayExpr → HintDisplayExpr
    hint_enabled hint_cooled_down : HintDisplayExpr

  pub data HintDisplayExprs : Type 0 where
    nil : HintDisplayExprs
    cons : HintDisplayExpr → HintDisplayExprs → HintDisplayExprs
