-- ===== src/Submit.antt =====
-- src/db/puzzle.rs: `submit_answer`, from its checks to its commit.
pub mod Rows
pub mod Guards
pub mod Judging
pub mod Context
pub mod Penalties
pub mod Outcome
pub mod Transaction
pub mod Frame
pub mod Agreement
pub mod Attempts
pub mod Limit
pub mod Commits
pub mod Bound
pub mod Keys
pub mod Solved
