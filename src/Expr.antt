-- ===== src/Expr.antt =====
-- The gate language of src/expr: S-expressions, their compiler, the evaluator and the cache.
pub mod Tokenizer
pub mod Parser
pub mod Ast
pub mod Eval
pub mod Compiler
pub mod Cache
