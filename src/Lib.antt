-- ===== src/Lib.antt =====
-- Transport Lookout schedules network scans over approved scopes and keeps an inventory of the open
-- services that they find. This library models the control plane and the lease protocol of the scan
-- workers, under src/scanpod_enterprise of the repository, and proves what makes them correct.
--
-- The parts and their files. A part's file holds the definitions; the proofs are in the modules below.
--   Config       config.py (the settings), and what comes from outside: `uuid.uuid4`, the order of
--                texts in the database, and the order in which a Python set is iterated.
--   Model        models.py: a record for each table, and `Db`, all tables with the count of the
--                identifiers that have been drawn and the tasks that the broker has accepted.
--   Http         the HTTPException, and results of code that may raise it.
--   Audit        services.py `audit`.
--   Cidr         services.py `parse_approved_cidr`, `shard_cidr`; Cidr/Ipv4 is what they use of the
--                standard library's `ipaddress`, on texts.
--   Outbox       services.py `publish_pending_outbox` (publisher.py calls it in an endless loop).
--   Dispatch     services.py `dispatch_available_shards`.
--   Recovery     services.py `recover_expired_leases`.
--   Exposure     services.py `incomplete_discovery_shards`, `materialize_current_exposures`,
--                `backfill_current_exposures`.
--   Diff         services.py `exposure_diff`.
--   Finalize     services.py `finalize_terminal_run`, `reconcile_terminal_runs`.
--   Cancel       services.py `cancel_run`.
--   Runs         services.py `create_run`.
--   Worker       worker.py: Lease has `claim_lease`, `current_lease`, `clear_shard_observations`,
--                `finish_lease` and the heartbeat; Execute has the transactions of `execute_shard`
--                before and after the scan; Command has `run_command`, CommandLine the command
--                lines, and Scan `execute_shard` as a whole.
--   Session      db.py `SessionLocal`: what a worker's session has added since the last commit.
--   Results      results.py: `artifact_key`, `masscan_observations`, `masscan_candidates`; Xml is what
--                they use of `xml.etree`, Normalize has `normalize_nmap_xml`.
--   Scheduler    scheduler.py, one round of the loop of `main`.
--   Auth         auth.py `current_user`, `require_roles`.
--   Text         what the program uses of Python's `str` and `int`.
--   Schemas      schemas.py: the bodies of requests and their constraints.
--   Api          main.py: the handlers, in Scopes, Import, Users, Profiles, Schedules, Runs, Exposures
--                and Changes; References/Requests has the requests that write, and the authentication
--                that precedes them, as one relation, and
--                Unique, Permissions and Approval what holds of them.
--   Metrics      metrics.py `collect_operational_metrics`.
--   Shard        the updates that the program makes to a row of scan_shards, and what an operation
--                does to that table.
--   System       all processes on one database, as a step relation, and what holds of all they reach.
--   Prelude      shared tests, the statements of SQL on lists of rows, and their laws.
--   Tests        small databases and the theorems at concrete inputs.
--
-- How the state corresponds. A table is a list of rows in insertion order; `session.get` and a query
-- are `find`, `select` and `count`, an UPDATE is `modify`, a DELETE `delete`. An operation takes the
-- database and returns the new one with its result; the writes up to a commit are one step. A
-- comparison with a NULL column never holds. Instants are seconds, and all readings of the clock in
-- one call give one instant. Identifiers are texts; the n-th that is drawn is `uuid4 n`. What
-- `celery.send_task` does with an event is an argument of the call. Operations are taken whole and
-- one at a time; row locks are not modelled.
--
-- A worker's execution is one function of what happens outside: the two commands, which fail to start
-- or run through a list of polls, the files that the scanners leave, the failures of storing them, and what the other processes do to
-- the database during each wait, as functions on it. A request body comes parsed; a handler that needs
-- a role takes the user that the token names. `zone_info`, ILIKE, what `\d` matches, pydantic's texts
-- and PyJWT's validation are arguments.
--
-- Fuel. `skip_missed` has one round more than there are seconds up to now; an interval is at least a
-- second, so this is enough. All other loops recur on lists; the polling loop of a command recurs on
-- the list of its polls.
--
-- Not modelled: reading and parsing of files, request bodies and tokens, moving artifacts to a folder
-- or to S3 (results.py `store_artifact` enters by its key and by what it raises), the text of CSV, JSON
-- and Prometheus responses, middleware, health checks and the settings of CORS (main.py), the JWKS
-- client (auth.py), the engine (db.py), violations of database constraints, migrations, the console.
-- `int` of a scanner's port number reads ASCII digits, with a sign or not; a text with other digits,
-- which Python's `int` takes too, is an error in the model.
pub mod Prelude
pub mod Config
pub mod Model
pub mod Http
pub mod Audit
pub mod Cidr
pub mod Outbox
pub mod Dispatch
pub mod Recovery
pub mod Exposure
pub mod Diff
pub mod Session
pub mod Results
pub mod Finalize
pub mod Cancel
pub mod Runs
pub mod Worker
pub mod Text
pub mod Schemas
pub mod Auth
pub mod Api
pub mod Metrics
pub mod Scheduler
pub mod Shard
pub mod System
pub mod Tests
