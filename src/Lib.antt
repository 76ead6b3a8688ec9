-- ===== src/Lib.antt =====
-- gm-agent: an event-driven agent runtime.
--
-- The runtime keeps a state that only events change. A round of the loop
-- takes the first active goal, asks the language model, and hands
-- the answer to the reducer, which returns the next state and the commands
-- that follow from it. The dispatcher carries the commands out with the model,
-- the tool executor and the store, and answers each with an event, which the
-- loop applies in turn. The executor asks the policy before it calls a
-- handler, and the user where the policy says so.
--
-- All paths are from the root of the repository.
--
--   Types       packages/agent/pkg/types: the state, the events, the commands
--               and the tool calls (Types/State, Types/Event, Types/Command,
--               Types/Tool), and the Clone methods (Types/Clone).
--   Tool        packages/agent/pkg/tool: registry.go (Tool/Registry),
--               policy.go (Tool/Policy), executor.go (Tool/Executor).
--   Runtime     packages/agent/pkg/runtime: reducer.go (Runtime/Reducer, its
--               helpers on goals in Runtime/Goals), dispatcher.go
--               (Runtime/Dispatcher), runtime.go (Runtime/Core for the state
--               and applyEvent, Runtime/Loop for Run, Ingest and the
--               checkpoints, Runtime/History for the prompt), and
--               permission/manager.go (Runtime/Permission).
--   Session     packages/agent/pkg/api/service/session.go: the table of sessions
--               (Session/Service), its life as a step relation
--               (Session/Lifecycle), and Rewind with the requests and answers of
--               packages/agent/pkg/api/dto/checkpoint.go (Session/Rewind).
--   Patch       packages/agent/pkg/patch: apply.go, tracker.go and the counting
--               of lines of diff.go (Patch/Engine), rollback.go
--               (Patch/Rollback; ListBackups, and parseDiff of diff.go, in
--               Patch/Backups), over an operating system that is a record
--               of functions.
--   Store       packages/agent/pkg/store/fs_store.go: the event log
--               (Store/Events), the state and the checkpoints
--               (Store/Checkpoints), Open and the artifacts (Store/Artifacts),
--               the permission rules (Store/Rules).
--   Tools       packages/agent/pkg/agent/tools: file_editing.go with GenerateDiff
--               of patch/diff.go (Tools/Edit), search.go (Tools/Search),
--               builtin.go and interaction.go (Tools/Basic), and the tools
--               themselves (Tools/Catalog).
--   Approval    packages/agent/cmd/gm/main.go: the permission callback of a session,
--               which joins the manager, the store and the policy.
--   Security    packages/agent/pkg/security/validator.go: the validators of paths and of
--               commands.
--   Config      packages/agent/pkg/config/config.go: the options of a provider and
--               which provider is taken.
--   Llm         packages/agent/pkg/llm: gateway.go, provider.go and
--               factory/factory.go, and the providers openai/provider.go
--               (Llm/Openai), gemini/provider.go (Llm/Gemini) and
--               mock/provider.go (Llm/Mock).
--   Api         packages/agent/pkg/api: router.go and middleware/auth.go (Api),
--               handler/session.go, handler/artifact.go and handler/health.go
--               with dto (Api/Handler), and the event stream of
--               handler/session.go (Api/Sse), whose loop is a list of wakes.
--   Cli         packages/cli/internal: client/client.go (Cli/Client), the
--               model and Update of commands/repl.go (Cli/Repl, its keys in
--               Keys, its events in Events, its commands in Effects), and the
--               server's stream read by the client (Cli/Watch), the
--               commands of run.go and health.go (Cli/Run).
--   External    the code that is not in the repository: identifiers, the
--               clock, the JSON codec, path.Base and the stack trace, as a
--               record of functions without laws.
--   Prelude     what the parts share: lists, dictionaries, texts, results,
--               and the integers that have a sign.
--   Samples     the data of the tests.
--
-- Struct fields are record fields in the source's order, an enum or an
-- interface with a closed set of implementations is a data type, a map is an
-- association list, a pointer that may be nil is an Option. A fallible
-- function returns a Result with a value, an error or a panic. Strings are
-- those of the native library, numbers are ℕ, or ℤ where the source asks for
-- a sign; float64 is a parameter. Code that acts on the world
-- (tool handlers, the store, the model, the approval callback) is a function
-- on an abstract world that returns the world after it. Cancellation is one
-- such question to the world.
--
-- Bounds: the loop of the runtime recurs on the number of rounds that
-- MaxSteps leaves, which is the bound that the source has, so no fuel is
-- added to it. A text
-- is searched for a null byte in its first 8192 bytes, as in the source; a
-- character takes as many of them as its UTF-8 encoding has. All
-- other definitions recur on the lists and texts they walk.
--
-- Not modelled: locks and the interleaving of an Ingest with a run; the
-- aliasing of shared pointers, and the difference between a nil and an empty
-- slice; timeouts, which the world decides; panics inside tool handlers; the
-- matching of paths and the recovery of gin, the third-party clients of the
-- language models, net/http and bubbletea, which are records of functions;
-- what the terminal draws, and the start of the processes.

pub mod Prelude
pub mod Types
pub mod External
pub mod Samples
pub mod Tool
pub mod Runtime
pub mod Api
pub mod Approval
pub mod Cli
pub mod Config
pub mod Llm
pub mod Patch
pub mod Security
pub mod Session
pub mod Store
pub mod Tools
