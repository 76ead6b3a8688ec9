-- ===== src/Cli/Repl.antt =====
-- packages/cli/internal/commands/repl.go: the model of the terminal program, and its Update in
-- Repl/Keys and Repl/Events. bubbletea calls Update with one message at a time; the components for the
-- text and the screen, the decoders of JSON and the styles are records of functions. The sizes of the
-- window and View are not part of the model.
pub mod Screen
pub mod Keys
pub mod Events
pub mod Update
pub mod Effects
pub mod Laws
pub mod Prompt
pub mod Steps
mod Tests
