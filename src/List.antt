-- ===== src/List.antt =====
-- internal/list: the environment that a list sets, and its .env files.
pub mod Dotenv
pub mod Pieces
pub mod Env
