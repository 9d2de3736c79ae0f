-- ===== src/Tests.antt =====
-- Runs of the models on concrete inputs, and each theorem at an input that meets its conditions.
mod Gates
mod Fixtures
mod Submissions
mod Currencies
mod Unlocks
mod Hints
mod Teams
mod Assets
