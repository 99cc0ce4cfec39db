-- ===== src/Lib.antt =====
-- Sentinalysis collects the logs of servers: an agent tails log files and Docker
-- containers, classifies what it reads and forwards it to a hub, which authenticates and
-- checks every request. This library models the parts with logic of their own and proves
-- what makes them correct. Paths are from the repository's root.
--
-- Agent, for src/agent:
-- - Agent.Batcher: `BoundedBatcher` of batcher.rs, the bounded buffer of lines. Agent.Batcher.Push
--   and Agent.Batcher.History are about one push and about sequences of calls.
-- - Agent.Forward: the `select!` loop of `run`, with `flush` and `shutdown`, of mod.rs. A round is
--   one event; the outcome of each send is part of the event. Agent.Forward.Flow and
--   Agent.Forward.Backlog are about whole runs.
-- - Agent.Connect: `resolve_api_key` and `HubClient::connect` of mod.rs.
-- - Agent.Docker: docker_logs.rs, from the discovery of containers to the drain thread.
--   Agent.Docker.Growth is about reads of a growing log, Agent.Docker.Refused about the hub's answer.
-- - Agent.Logs: logs.rs, the resolver and the sink that forward the scanner's rows.
-- Hub, for src/hub:
-- - Hub.Auth.Permission, Hub.Auth.Cache, Hub.Auth.Key and Hub.Auth.Service: auth.rs, from the
--   permissions to `authenticate`, which uses the other three. Time is a number of nanoseconds.
-- - Hub.Validate: the input checks of validate.rs.
-- - Hub.Ingest: grpc.rs. Wire has the messages of proto/sentinel.proto, Check the checks of one
--   item, Handlers the authorization and `send_metrics`, and Logs `send_logs`.
-- - Hub.Range and Hub.Rest: range.rs, and the REST interface of rest: Auth is the guard in front of
--   the handlers, Events is `post_events`, and Read, Rows and Summary are the dashboard's queries.
-- - Hub.Keys: the `hub-key` command of keys_cli.rs on the table of api_key_repo.rs.
-- - Hub.Retention: retention.rs with the statements that it runs.
-- - Hub.Bind: `validate_bind_security` of src/config.rs.
-- LogScanner, for src/log_scanner, in the order in which a line passes through:
-- - LogScanner.Tailer.State: tailer/state.rs, which reads the new lines of a file.
-- - LogScanner.Source: the file-name rules of source.rs.
-- - LogScanner.Entry: the entry and the row, of parser/mod.rs and src/db/models.rs.
-- - LogScanner.Discovery: the sources of the configured targets, source_discovery.rs.
-- - LogScanner.Parser: the parsers of parser, for access logs and for syslog lines.
-- - LogScanner.Filter: the noise rules of filter.rs.
-- - LogScanner.Classifier: classifier/mod.rs, and patterns.rs with its whole table.
-- - LogScanner.Pipeline: pipeline.rs, from a line to its row.
-- - LogScanner.Scanner: scanner.rs, from events to batches in a sink.
-- ServiceTracker, for src/service_tracker: Discoverer lists the unit files, for discoverer.rs, and
-- Monitor reads what systemctl says of services, for monitor.rs.
-- Tui, for src/tui: Tui.Data is data/mod.rs and data/memory.rs, Tui.Viewer the state of
-- components/log_viewer/mod.rs, and Tui.Terminal the keys and the event loop of terminal.rs.
-- Base holds texts, lists, maps and integers over the native numbers; Tests applies the
-- theorems to concrete values.
--
-- The agent's lines and rows meet the hub where Agent.Docker.Refused, Agent.Logs.RoundTrip and
-- LogScanner.Parser.Nginx.Status put Hub.Ingest behind them; the created keys meet
-- authentication in Hub.Keys.Lifecycle.
--
-- A text is the list of its code points, with `len` in bytes of UTF-8. A `usize` and a `u64`
-- have 64 bits, and the counters of the batcher wrap. The loop of `push` has one round of
-- fuel for each held line and one more, which is enough for a valid batcher, since each round
-- but the last removes a line; the trimming of a suffix has one round for each character, and
-- each round removes some; the connection loop takes its fuel as an argument, and a theorem
-- says how much is enough. Interleavings are lists of events.
--
-- Parameters stand for code outside the repository: the regex, argon2, base64, sha2, serde, chrono
-- and sqlx crates, the random source, lowercasing, the formatting of addresses and times, and
-- the parsers of addresses and floats. Tables are a state with the operations that a component
-- calls, or the list of their rows where SQL statements are short.
--
-- Not modelled: drawing, SQL queries with joins, host metrics, the watcher threads, the journal
-- of services, process control, the command line, configuration files and routing, which are
-- input and output or glue around libraries, and the web interface.
pub mod Base
pub mod Agent
pub mod Hub
pub mod LogScanner
pub mod ServiceTracker
pub mod Tui
pub mod Tests
