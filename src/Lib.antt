-- ===== src/Lib.antt =====
-- A model of sigiledd, the daemon that rents out workspaces for the projects of a stack, keeps
-- their work items and runs their jobs, and of what its parts promise. Paths are those of the
-- repository.
--
-- The parts. sigiledd/src/auth.rs decides who calls: it validates tokens of the identity provider,
-- makes an actor of a token's groups, keeps the approvals that a human grants a driver, and
-- answers the edge's `verify`. sigiledd/src/sessions.rs opens, recycles and closes sessions, each a
-- branch with a container; sigiledd/src/reaper.rs closes idle ones. sigiledd/src/jobs.rs runs the
-- jobs of the projects' manifests by cron or by hand. sigiledd/src/work_items.rs keeps the work
-- items in one file. sigiledd/src/merge.rs brings a closed session's branch into master.
-- sigiledd/src/browser/mod.rs logs humans in and guards what their browsers ask for. In a session's
-- container, ide-agent/src/activity.rs tells the reaper whether the editor is in use, and
-- ide-agent/src/durable.rs saves the work by pushes to the session's branch.
--
-- The files. Base passes on the library's names and holds Boolean tests, lists measured by native
-- numbers (Base/Lists), maps as association lists (Base/Maps: `get`, `insert`, `remove`, `adjust`
-- and their laws), texts as code points (Base/Texts), integers and decimals.
-- Auth/Approvals: `ApprovalStore` and the background task of `elevate`; a run of the task is a list
-- of polls. Auth/Policy: `authorize`, `requires_approval`, `actor_from_claims`,
-- `authorize_service_call`. Auth/Token: `constant_time_eq`, `validate_jwt` with its `KeyStore`, the
-- extractor `from_request_parts` and `verify`, over a record `Jwt` of what the jsonwebtoken crate
-- answers and a function for the fetch of a key set. The folders below hold the proofs.
-- WorkItems/Items: the data and `validate`. WorkItems/Store: `create`, `update`, `get` (read_item),
-- `transaction` and `save`; the file's state and the reply of the file system are inputs, the
-- encoded size and `reqwest::Url` parameters. WorkItems/Listing: `list`.
-- Jobs/Runs: `JobsState` and `run_verdict`. Jobs/Engine: `trigger` and `execute_run`; a spawned run
-- is a task that waits in the state. Jobs/Latch: the step relation of the engine (a fire, the end
-- of any waiting run, a restart) and its invariant. Jobs/Schedule: the scheduler's windows over a
-- parameter for the cron crate. Jobs/Verbs: the verb `run` and `scheduler_tick`.
-- Sessions/Records: `SessionRecord`, the maps of `SessionState`, `hydrate`. Sessions/Orphans:
-- `find_orphan`, from the text of git's answer.
-- Sessions/World: the state with its durable snapshot, the requests to the outside with the
-- answers, and the handlers' monad, in which a handler may reply early. Sessions/Open: `open`,
-- `open_human` and `open_inner`. Sessions/Close:
-- `close_expected`; Sessions/Recycle: `recycle`; Sessions/Reap: `reap_generation_min`; Sessions/Sweep:
-- `reap_pass`.
-- Sessions/Ends: rules for what holds when a handler goes on and when it has replied.
-- IdePolicy: `prove` of sigiledd/src/ide_policy.rs, which decides whether a repository's rules leave
-- its master branch to one host user.
-- Manifest: the checks of pins, session images and jobs in sigiledd/src/manifest.rs.
-- Routine: routines on a shared state that may end with an error, and rules for what they leave.
-- Git: runs of the git command. Merge: `close_merge` over a repository; Merge/Rules: what it relies on
-- of git. Browser/Requests: `single`, `cookie`, `origin` and `return_path`; Browser/Store: `login` and
-- `callback`; Browser/Sessions: `resolve_session`, the extractor of `BrowserContext` and `logout`;
-- Browser/Reach: requests in any order. Browser/Tickets: the tickets and grants of
-- sigiledd/src/browser/ide_gateway/access.rs, over the answers of `authorize`. Agent/Activity: `Activity`, with the handler `activity` and the
-- reply of `status` of ide-agent/src/main.rs; Agent/Durable: `validate` and `checkpoint_mode`.
-- Examples: runs at concrete inputs.
--
-- Choices. A map is an association list in which a later insertion stands in the place of the
-- former; the order of a map's entries has no meaning except where the source sorts. Answers of the
-- outside (Docker, git, the disk, the identity provider, clocks, random tokens) are arbitrary: the
-- record `Outside` gives each answer as a function of all requests so far, so the theorems hold for
-- every behaviour of the outside. To a handler `close_merge`, `accept_handoff`, the image choice and the requests
-- to an agent are among these answers. The git requests of Merge and Agent/Durable, and the identity
-- provider behind Browser, answer arbitrarily in the same way; a callback is two steps, with any
-- requests in between. The lock of a session is held from the lookup to the reply,
-- and the locks of the stores for each operation, so handlers are functions of the state; another
-- session's handler that runs in between is not modelled; nor is a request that the browser's
-- store serves while `resolve_session` awaits the identity provider. Numbers are natural numbers: epochs,
-- offsets and revisions stay far below 2^64, and the one counter that the source guards against an
-- overflow, the generation, keeps its guard. Every loop is recursion on the list of its rounds,
-- but two: the client that follows a listing's pages is given a bound, and the trimming of a branch's
-- name in Sessions/Orphans has the length of the text as fuel; both are proved to be enough.
--
-- Not modelled: the rest of the manifest and its refresh, project creation, the rest of the browser interface, the
-- IDE provider, and the rest of the agents in the containers. Denials and details are constructors with
-- the values that their texts quote. A session's hand-off is kept as its phase, and its IDE binding as
-- whether it has started.
pub mod Base
pub mod Agent
pub mod Auth
pub mod WorkItems
pub mod Jobs
pub mod Routine
pub mod Git
pub mod Browser
pub mod Merge
pub mod Manifest
pub mod Sessions
pub mod IdePolicy
pub mod Examples
