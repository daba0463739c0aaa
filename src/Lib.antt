-- ===== src/Lib.antt =====
-- A model of sexton, an agent that watches git repositories, commits what its policy selects, and
-- keeps each repository in step with its remote, with what is proved of it.
--
-- The parts of the program and the modules that model them:
--
-- - Common: shared lists, texts, sorting, results and durations. A text is a list of numbers:
--   bytes where the program walks bytes, code points for clock times. Common.Space has what the
--   program takes from Go's `strings`; Common.Duration has times in nanoseconds since Go's zero
--   time, which is 0.
-- - Config (internal/config): Config.Clock and Config.Holdout are holdout.go, the clock times and
--   the daily windows in which nothing is synced (`parseClockMinute`, `mergeHoldoutWindows`,
--   `resolveHoldoutWindows`). Config.Repo, Config.Regions and Config.Hooks are `Resolve` of
--   load.go and what it calls: the three layers of a repository's configuration become one
--   record. Config.Path is the part of `path/filepath` that this needs, on Unix.
-- - Git (internal/git): Git.Status is status.go, the parsers of `git status` and `git show
--   --name-status`; Git.Message is message.go; Git.Quote, Git.Command and Git.Client are git.go.
--   The client is a state monad over `Shell`, which holds the world and the commands that were
--   run, the latest first; a command is a list of arguments, and the process that runs it is the
--   parameter `Host`. Git.Errors is errors.go.
-- - Agent (internal/agent): Agent.State is the struct `Agent` of agent.go with the sections that
--   run under its mutex; Agent.State.Control has the requests of other goroutines (`TriggerSync`,
--   `Snooze`, `Resume`, `handleHoldoutTransition`, `handleSnoozeExpiry`), each one step.
--   Agent.Holdout is the schedule of the windows, Agent.Policy is `partitionStatus`, and
--   Agent.Sync is `sync`. Agent.Run is the loop `run`, a relation of steps. Agent.Sync.Client
--   carries its operations out by the client of git. Agent.Alerter is alerter.go.
--   Agent.Controller is controller.go with `validateRepoIdentifiers` of container.go.
--
-- - Rpc (internal/rpc): Rpc is controller.go, the interface of the control plane and its errors;
--   Rpc.Handler is handler.go.
-- - Format (internal/format): duration.go.
-- - Mattermost (internal/mattermost): Mattermost.Visible and Mattermost.Format are formatter.go, over
--   the runes of a text of bytes (Mattermost.Runes); Mattermost.Commands is commands.go;
--   Mattermost.Client is client.go, with its caches in Mattermost.Client.Caches and its goroutine in
--   Mattermost.Client.Listen and Mattermost.Client.Reconnect; Mattermost.Alerter is alerter.go.
-- - Cmd (cmd/sexton/agent.go): Cmd.Adapter is `containerAdapter`, which answers the control plane
--   from the agents of a container; Cmd.Chat is `mattermostAdapter`, which answers the chat from the
--   same controller; Cmd.Alerts is `buildAlerter`.
--
-- How they interact: a sync (Agent.Sync.Remote, `sync`) is a computation over `Sys`, the agent, a
-- world, and the events that an observer sees, of which an operation's holds its outcome and whether
-- the context is canceled behind it. The operations of git, the hooks, the language
-- model and the clock are an `Env`, which answers each of them in any way; before every section
-- under the mutex the environment may name any requests of other goroutines, which are served
-- first. So a theorem about `sync` holds for every answer and every interleaving of those
-- sections. The Go returns in the midst of `sync` are the early end of the monad
-- (Agent.Sync.Monad), its deferred call is `deferred`. The requests that a sync may meet are those
-- that the control plane and the chat make: Cmd.Adapter applies the sections of Agent.State.Control
-- to the agent that an identifier finds, in a store of agents by path. The chat's client is a
-- function on its own state, a network `V` and the world of a handler; what happens around its
-- goroutine is a list of rounds.
--
-- Bounds and fuel: `decimal` of Common.Text is given one round more than the number, and every
-- round divides by ten. All other loops are recursive on their lists. Numbers are unbounded, but
-- for the counts of a branch line, which end at Go's largest `int`; the program's counts and
-- minutes stay far below the range of Go's `int`.
--
-- Parameters, for what is not the program's own: the process of git and its outputs, the hooks,
-- the language model, the clock and the time zone (Agent.Holdout, `Zone`, with the laws of a zone
-- whose days last twenty-four hours in `IsRegular`), `strconv.Quote`, `time.ParseDuration`,
-- `time.Parse` for RFC 3339, the home directory and `os.ExpandEnv`; for the chat and the control
-- plane also the server of the chat with HTTP, its websocket, JSON and URLs (Mattermost.Client,
-- `Library`; Mattermost.Client.Listen, `Reader`), `strings.ToLower`, and the prints of times and
-- durations. `Runs` says what the start and the stop of a client do. `IsReliable` says that a
-- canceled context stays canceled and that an operation reports a cancellation only under a
-- canceled context.
--
-- Not modelled: the loop and the timer of `runHoldoutScheduler` (each of its calls is a request),
-- the start and the end of the goroutines, the reading of files, the gRPC server on its socket and
-- its generated code, the HTTP client of the language model, and the commands other than the agent.
-- Between two readings of one answer of the control plane no other goroutine changes an agent.
pub mod Common
pub mod Config
pub mod Git
pub mod Agent
pub mod Format
pub mod Rpc
pub mod Mattermost
pub mod Cmd
