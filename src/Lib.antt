-- ===== src/Lib.antt =====
-- The store, the assembly of episodes, the rendering, and the recovery of Redline OS, which manages the episodes of a show in DaVinci Resolve
-- Studio: an episode is created, assembled into a Resolve project, rendered and archived.
--
-- The parts and the files that model them:
--
-- - Store/Rows: the rows and the enumerations of src/redline_core/db/models.py and db/schema.sql.
-- - Store/Sql: what src/redline_core/db/database.py uses of sqlite3. A state `Db` is the tables, the time
--   that datetime('now') reads during the call, and a list of faults, which says of each statement to
--   come whether SQLite raises an OperationalError instead of running it. `query` and `execute` are one
--   statement each, `transaction` is `with self.conn:`. Store/Sql/Keeps has the rules by which a
--   predicate on tables is kept by what a method is made of, Store/Sql/Laws those of a transaction.
-- - Store/Episodes: `create_episode` to `release_assembly_claim`, with the compare-and-set of ADR-0001.
-- - Store/RenderJobs: `create_render_job` to `update_render_job`, with the partial UNIQUE index on the
--   output paths of the jobs that are claiming, queued or rendering.
-- - Store/Archives: `create_archive_record` to `commit_verified_archive`, and the digest.
-- - Store/Consistency, Store/History: what the schema promises of the tables, and any history of calls.
-- - Render/World: the store beside the state of Resolve, which is behind a record of the methods of
--   `ResolveAdapter` (src/redline_core/resolve/adapter.py), and the platform: pathlib, the file system
--   and str.format, as functions on texts.
-- - Render/Plan: src/redline_core/render/plan.py; what is relied on of pathlib is in Render/Plan/Contained,
--   and holds for POSIX paths. Render/Status: the texts of the job statuses.
-- - Render/Manager: `RenderManager` of src/redline_core/render/manager.py. `queue_render` claims the
--   output in the store, hands the job to Resolve, and makes the claim a queued job; each failure is
--   followed by the compensations of the source. Its children: Queue,
--   Accepted, Start, Sync, Claiming, Checks, Reads.
-- - Adapter/Mock: `MockResolveAdapter` of src/redline_core/resolve/mock.py, an instance of the record.
-- - Episode: src/redline_core/episode/manager.py, with the parts of timeline/builder.py and media/manager.py that it calls, over the
--   store and a record of what lies outside, Resolve and the creation of folders. Episode/Definition: the checks. Episode/Manager:
--   `build_episode` as a chain of stages, after each of which the rest is a definition of its own; its children are Settles,
--   Ends, Builds and Refused.
-- - Asset/PathPolicy: `validate_declared_asset_path` of src/redline_core/asset/path_policy.py.
-- - Asset/Reconciliation: src/redline_core/asset/reconciliation/classification.py. Models: the data that it reads. Pairs: the rules for
--   a record and its observation, with Unchanged. Classification: `classify_reconciliation`, where a state is the decisions so far and
--   the ids that they claim, and each loop of the source is one rank; Once, Ranks and Single are the proofs.
-- - Restore/Disk: the operating system as restore/ uses it: a disk of objects, and a list that says of each
--   call to come whether it raises an OSError. A rename refuses a destination that is there.
-- - Restore/Disposition: src/redline_core/restore/recovery_disposition.py, `dispose_target`.
-- - Restore/Classification, Restore/Planning: recovery_classification.py, sidecar_classification.py and
--   recovery_planning.py of src/redline_core/restore/, as functions of what the disk, SQLite and the
--   verification of the backup say.
-- - Restore/Journal: src/redline_core/restore/journal.py. `append` is `RestoreJournal.record`. Its children: Directory, the operating
--   system's part, where each call works, fails, or writes only a part; States, Names (read back in Names/Reads, and from 10000 on in Names/Limits), Payload; Discovery, `discover_journal_chain`;
--   and for the proofs Published, Appends, Fresh, Collected, Accepts, RoundTrip, Digests, Verified, Chain, Ends. Python's hashlib, json and the digits of
--   `\d` are a record `Runtime`, of which Assumed says what a journal relies on.
-- - Restore/System: what a restore or a recovery calls outside of the modelled code, as a record over a state of its own: os,
--   SQLite, the backup and capture packages, the journal and `dispose_target`. Each call may raise.
-- - Restore/Capture, Restore/Stability, Restore/Staging, Restore/Authorization, Restore/Verification: capture_models.py,
--   recovery_stability.py, staging.py and sidecar.py, the attestations and the form of a backup id, and verification.py.
-- - Restore/Protocol: the order that docs/BACKUP_RECOVERY_ARCHITECTURE.md promises, as a small automaton over the states that are
--   recorded and the live changes that are tried: milestones in their order, and each change between its intent and its end.
--   Steps and Guards draw what it promises of any log.
-- - Restore/Attempt: a state of the system beside the log of one attempt, and the shapes that both methods are made of: a call, a change,
--   a record, a check that is recorded as failed, a try whose handler records a failure. Follows has a rule for each.
-- - Restore/Execution: `execute_recovery` of src/redline_core/restore/recovery_execution.py in its order; Baseline has `_Baseline` and the
--   comparisons with the fresh capture, and Order, Refines and Safe the proofs. Restore/Manager: `RestoreManager.restore` and, in Plan,
--   `restore_plan` of src/redline_core/restore/manager.py.
-- - Prelude, Errors, Exec: lists of rows, texts, dicts, the exception classes, and the monad of methods
--   that change a state and may raise. What was written before a raise stays written.
-- - Tests: the theorems at concrete inputs.
--
-- Numbers are naturals: row ids, episode numbers and counts are never negative in this code. Texts are
-- lists of Unicode code points; the content of a file is a text with one character for each byte. On fuel
-- run `decimal`, the text of a number, of which each step divides by ten, so that one step more than the number is
-- enough; and the loop of `discover_journal_chain`, which gets one round for each name that was collected
-- and one more, and would raise the model's own error `out_of_fuel`.
--
-- Not modelled: the messages of exceptions, the log, opening and closing the connection and the
-- migrations of `_migrate`, a failing COMMIT or ROLLBACK, the foreign key
-- of archives.render_job_id when a job is deleted, a clock that moves during one call, and writes
-- to the tables from outside of `Database`. The values of a job of Resolve's queue are texts. The media,
-- markers and clips of the mock adapter, ResolveScriptAdapter, what the captures, the schema fingerprints and the backup package do inside, the details that a recovery records, what the matching of the asset package does inside, its plan and its store, and the archive,
-- backup, build and manifest packages, the command line, the MCP server and the control
-- room are not part of this development.
pub mod Prelude
pub mod Errors
pub mod Exec
pub mod Store
pub mod Render
pub mod Adapter
pub mod Episode
pub mod Asset
pub mod Restore
pub mod Tests
