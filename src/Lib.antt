-- ===== src/Lib.antt =====
-- The Python tooling of yocto-qemu-edu-lab, a Yocto laboratory around QEMU's edu device. Its scripts
-- validate the lock of the Yocto sources, the catalog of labs, the maintenance workflow and the
-- evidence that a build or a test run leaves, and diagnose a working tree from them. Each module of
-- this library follows one script; a comment at the top of each file names the code it is about.
--
-- Diagnostics models scripts/diagnostics.py, the read-only status, doctor, inspect and evidence
-- commands. Diagnostics/Checks is the tables CHECKS and SEQUENCES, `check` and `aggregate`;
-- Diagnostics/Patterns the regular expressions and the validators of single values;
-- Diagnostics/Environment the outside functions the commands call (files, Git, and the parsers of the
-- other scripts), an argument of the model; Diagnostics/Context the class `Context`, one function
-- from a context to a check and a context for each method; Diagnostics/Transitions
-- `validate_state_transitions`; Diagnostics/Commands `base`, `evidence_checks` and the checks of
-- `command_document`, without the document it builds. A Python exception that no handler of the
-- method catches is a value of `Raised`. Diagnostics/Steps and Diagnostics/Runs are about what each method
-- owes to the tables, and Diagnostics/Found, Kept and Selected about the lock and the lab that a command
-- ends with.
--
-- Json is the value of a parsed JSON or TOML document, with the keys of an object in order. Regex is a
-- matcher by derivatives for the regular expressions, each of which the scripts anchor at both ends;
-- Regex/Language is the language that a regular expression stands for. Common holds the shared
-- helpers.
--
-- Workflow models scripts/validate_workflow.py, the policy of the maintenance tasks.
-- Workflow/Floats says when a float counts as false, Workflow/Policy is its constants and its readings
-- of single values, Workflow/Tasks the checks on
-- the configuration and on each task, Workflow/Models the dependencies, the ledger and
-- `validate_models`. Workflow/Spec describes a sound list of tasks without the tables that the code
-- builds; Workflow/Sound and Workflow/Complete compare the two. Messages are the constructors of a
-- type of errors. The one exception that can leave the function, a TypeError for a status that
-- cannot be an element of a set, is a value.
--
-- SourceLock models scripts/source_lock.py, the lock of the Yocto sources. SourceLock/Paths is what it
-- uses of texts and of PurePosixPath, SourceLock/Values the validators of single values,
-- SourceLock/Validate `validate_lock`, whose checks on one source are a list run in order.
-- SourceLock/Spec says what a lock promises; SourceLock/Reads, Sources, Loop and Locked are about a
-- value, one source, the loop and the whole lock, and SourceLock/Normal about the texts that
-- `relative_path` accepts.
-- `urlsplit` of Python's library is an argument. An error is the kind of its message.
--
-- RepositoryTrust models scripts/repository_trust.py, the trust policy of the hosted repository.
-- RepositoryTrust/Values and Arrays are the validators of values and the equality of JSON values,
-- Policy the approved policy, Observation `validate_observation`, Facts `facts_from_observation`,
-- Statuses `check_statuses` and `aggregate`, Evidence the evidence and its validation. Approved and
-- Accepted are about what a pass shows. A validator that the source applies under `if key in table` is a
-- row of a table of rules, in the order of the source. Files, the shape of the JSON and the security
-- policy text are not in it.
--
-- Shape is the reading of bounded JSON, which scripts/source_lock.py and scripts/lab_config.py share in
-- copies. Shape/Walk is `_validate_json_shape`, a loop over a stack of pending values; Shape/Weight
-- and Shape/Bounds compare it with a count and a test by recursion on the value. The loop recurs on
-- fuel of one round more than the items that it allows. Shape/Parse is `parse_json_bytes` with the
-- guard against duplicate keys, and Shape/Unique and Shape/Accepted the inputs that it accepts. The
-- decoder of UTF-8, the reader of JSON and SHA-256 are arguments. SourceLock/Parse is
-- `parse_lock_bytes` on top of it.
--
-- LabConfig models scripts/lab_config.py, the catalog of the labs. LabConfig/Values is the validators
-- of single values, Profiles the keys, the patterns and the rules of the profiles, Fields the reading
-- and comparing of fields, Manifest `validate_manifest`, Index `validate_index`, Catalog
-- `_catalog_from_index`, and Select `read_catalog_bytes`, `read_catalog`, `select_lab` and `get_field`.
-- Apart, Sound, Chosen and Bytes are about the labs of a catalog, Declared about the index, and Reads,
-- Rules, Ruled and Accepted about a manifest. The categories of Unicode and the files are arguments.
--
-- SourceLock/Git is what the checkouts use of Git and the file system, an interface of what can be read
-- at a path and of the operations that write. SourceLock/Inspect is `inspect_source`,
-- `preflight_existing` and `status_result`, SourceLock/Sync is `sync_source` and `sync_result`, with the
-- world passed on explicitly, also where a call raises, and SourceLock/Materialized reads the sources
-- of a lock. Ready, Kept, Separate and Status are about them. That an operation on one path leaves
-- other paths alone is a hypothesis, which SourceLock/Checkouts meets.
--
-- RuntimeEvidence models scripts/runtime_evidence.py, the evidence of a run of the tests of the guest.
-- RuntimeEvidence/Suite is its constants and counts, Values the validators of single values, Paths
-- what the contract says of the paths, Validate and Judge `validate_evidence`, Select
-- `select_oeqa_result`, and Build `git_state` and `build_evidence`. Reads, Passed, Parts, Accepted and
-- Counts are about evidence that is accepted, RunOrder, Among and Latest about the run that is
-- selected, and Built about evidence that is built. What Git prints, the files, the digest of the
-- lock, whether the text of a float is that of a finite number of at least 0, and the rounding of a
-- duration are arguments. The OverflowError of a float that an integer is too large for is an error of
-- the model.
--
-- The other loops of the source are recursion on the list they walk, without fuel. Python's integers
-- are unbounded, and so are the numbers here. A text is walked as the list of its code points.
--
-- Not modelled: reading files, processes and Git itself, command line parsing, the shell scripts, the
-- recipes and the kernel drivers, and the scripts that no module above names.

pub mod Common
pub mod Regex
pub mod Json
pub mod Shape
pub mod Diagnostics
pub mod Workflow
pub mod SourceLock
pub mod LabConfig
pub mod RepositoryTrust
pub mod RuntimeEvidence
