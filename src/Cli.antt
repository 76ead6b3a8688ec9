-- ===== src/Cli.antt =====
-- packages/cli/internal: the client of the terminal program.
pub mod Client
pub mod Repl
pub mod Run
pub mod Watch
