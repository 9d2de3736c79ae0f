-- ===== src/Model.antt =====
-- src/model/game.rs and src/model/user.rs: the enumerations, the roles and the game's settings.
pub mod Game
pub mod User
pub mod Roles
