-- ===== src/Lib.antt =====
-- SentinelHost runs several malware scanners over a hosting account, merges what they report into one
-- verdict for each file, and moves confirmed files to a vault from which they can be restored. This library
-- models the part of it that decides and acts.
--
-- The parts, in the order in which data flows through them:
--
-- * Baseline (internal/baseline/baseline.go, walk.go): which files changed since the last cycle.
--   Baseline/Compare has Compare, Targets, NeedsHash and Update, and Changes and Settled are about them;
--   Baseline/Hashing has HashEntries.
-- * Exec (internal/exec/batch.go): the batches in which an engine gets its files. Exec/Batch has
--   NewBatcher, Batches and Each; Exec/Batches is about them.
-- * Schema (internal/schema): the records that all packages exchange. Schema/Enums has the enums of
--   enums.go with their validity and the order of levels, Schema/Types the records of finding.go,
--   report.go and verdict.go with their methods. A Go string type is a data type with the constants and
--   one constructor `unknown` for every other text.
--   Schema/Validate has the validation of validate.go as lists of problems, Schema/Checked is about it.
--   Schema/Snippet has SanitizeSnippet on the code points of a text, Schema/Snippets is about it.
-- * Adapter (internal/adapter): how a driver is called. Adapter/Paths has pathsafety.go, the target list and
--   the report that drivers start from; Adapter/Safe is SafeScanAndParse and SafeProbe of safe.go, where a
--   call returns or panics; Adapter/Outcomes is about them.
-- * Drivers (internal/adapter/maldet, pmf, amwscan): the drivers of three engines, from the command they run to
--   the report they make of its output. Drivers/Lines reads lines as bufio.Scanner does, Drivers/Hits has the
--   finding that all three write, Drivers/Command what they ask of the runner, Drivers/Tables the rule tables;
--   Accounts and Valid are about these. Maldet/Scan and Maldet/Report with Maldet/Parse are the two halves of
--   the driver of maldet, Maldet/Rules its tables; Listed, Complete, Judged, Valid, Printed, Scanned and
--   Scoped are about it. Pmf and Amwscan have the same shape: Rules, Parse, Scan (and Amwscan/Lines, the regular
--   expressions), and Matched, Valid, Scope and Fresh are about them.
-- * Cycle (internal/cycle/cycle.go, persist.go): Cycle/Run is Run with its phases and early returns,
--   Cycle/Gather is collectTargets, Cycle/Engines is runEngines and runEngineBatches. They compose the other
--   parts as the code does: Run takes the lock, gathers the files with Baseline, runs the engines through
--   Adapter, Exec and Cycle/Merge, asks Verdict, and acts through Quarantine. Found is about Gather, Roll about
--   Engines, Promises about Run.
-- * Cycle/Merge (internal/cycle/persist.go): mergeReports and worstStatus make one report for each
--   engine out of its batches.
-- * Verdict (internal/verdict/verdict.go): Consolidate. Verdict/Collect groups findings by their hash and
--   collects abstentions, official hashes and paths; Verdict/Votes is buildVotes, the score and the level;
--   Verdict/Decide is consolidateFile (the veto, the location, the whitelist); Verdict/Consolidate
--   composes them. The other files are about these: Groups, Paths, Sorting, Ballot, OneVote, Outcome,
--   Targets, Complete, Silence.
-- * PathMatch (internal/pathmatch/pathmatch.go): the patterns of the whitelist. PathMatch/Glob is the match of
--   one segment (Go's path.Match), PathMatch/Segments the recursion over `**`, PathMatch/Relation an
--   independent relation, PathMatch/Rules the lists of patterns.
-- * Reach (internal/reach/reach.go): whether the web serves a path. Reach/Classify is the classifier,
--   Reach/Inside is about it.
-- * Cycle/Act (internal/cycle/persist.go, internal/config/defaults.go): act and quarantineOne go through the
--   verdicts, behind the gate AutomaticActionAllowed. Cycle/Touches is about what they may change.
-- * Quarantine (internal/quarantine/vault.go, links_unix.go, internal/store/quarantine.go): the vault.
--   Quarantine/World is its state (files and the table of items) and what the operating system may
--   answer; Quarantine/Vault, Restore and Purge are its operations; Safe, Elsewhere, RoundTrip and
--   Retention are about these.
-- * Lock (internal/lock/lock.go): Acquire, Read and Release as a step relation. Lock/States has the file, the
--   phases of a process and the steps, one for each call of the operating system, besides its exit and its kill; Exclusion, Refines and
--   Race are about what can be reached.
-- * Sched (internal/sched/cron.go, sched.go): Sched/Cron parses and matches cron expressions, Sched/Daemon is
--   maybeFull with the times at which the daemon asks, Sched/Values is about the loop of parseField.
-- * Alert (internal/alert/dispatcher.go, webhook/webhook.go, internal/store/deliveries.go): Alert/Deliveries is
--   the table, Alert/Dispatch is dispatchWebhooks, attemptWebhook, RetryPending and Backoff. Lookup and
--   Retry are about one row, Due and Pass about one pass, Closing about many.
-- * Web (internal/web/auth.go, api.go, origin.go, patch.go, server.go, internal/store/settings.go): Web/Login is
--   handleLogin with the limit of attempts, Web/Limit is about a sequence of requests. Web/Origin is
--   requireSameOrigin, which guards every request that acts; Web/Settings is the change of the configuration
--   from the panel (patch.go, mask, handleConfigPut, mutateConfig), Web/Secrets is about it.
-- * Config (internal/config/validate.go, config.go): Config/Types has the records, Config/Validate and
--   Config/Alerts the checks, Config/Valid is about a configuration that passes them.
-- * Housekeeping (internal/housekeeping/housekeeping.go): Housekeeping/Run is Run with its routines, where
--   no failure stops the next one; Housekeeping/Pruned is about the raw output that is deleted.
--
-- How the code is modelled. A Go map is a list of pairs in the order of first insertion; where the
-- code ranges over a map and the order shows, it sorts afterwards, and so does the model (the validation of
-- the configuration does not sort, and the model takes the order of the list). An `error` is a value, one
-- constructor for each branch. The vault's operations pass the world explicitly; each call takes a record `Answers` with
-- what the operating system and the database answer, so every error path is a choice of answers.
-- `float64` is its bit pattern with the comparisons of IEEE 754 (Prelude/Float); the arithmetic is a
-- parameter. Also parameters: hashes, the clock, absolute paths, formatted texts, dates. All loops are structural
-- recursion on the data they go through, except those of the batches: they have one step of fuel for each item,
-- which is enough since a batch is never empty, and the loop of parseField, which has 128 steps: no field has more
-- than 60 values in its range (Sched/Values says how many steps are enough).
--
-- Not modelled: the driver wpchecksums and the installation of engines, SQL beyond the tables of the quarantine
-- and of the deliveries, subprocesses, the walk of the account's files, the configuration's
-- file, e-mail, the rest of the panel, the command line, logging; and in the parts above, the text of most
-- errors. Prelude has the names that the modules share; Prelude/Int is Go's int with strconv.Atoi.

pub mod Prelude
pub mod Schema
pub mod PathMatch
pub mod Reach
pub mod Verdict
pub mod Quarantine
pub mod Cycle
pub mod Exec
pub mod Baseline
pub mod Adapter
pub mod Lock
pub mod Sched
pub mod Alert
pub mod Web
pub mod Config
pub mod Drivers
pub mod Housekeeping
