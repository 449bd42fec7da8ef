-- ===== src/Cli.antt =====
-- cmd/cli: the interactive client. Rows of rules in `Rule`, the session in `Ctx`.
pub mod Number
pub mod Rule
pub mod Words
pub mod Ctx
pub mod Login
pub mod Completer
