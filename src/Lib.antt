-- ===== src/Lib.antt =====
-- k8s_stack_tooling: setup automation and operational tools for a Kubernetes platform, in Python.
--
-- Prelude and its children: shared names, tests on numbers, lists, results of fallible calls.
-- Value: the values of the dynamic language, as JSON moves them.
--
-- Recovery models cli_tools/openbao_stack_setup/src/openbao_stack_setup/recovery.py, the private
-- offline kit of an OpenBao installation.
--   Recovery/Kit: the record RecoveryKit, whose fields hold any JSON value, and the checks
--   `_valid_*` and `_safe_text`. `checkpoint` is one of its four strings or `other`.
--   Recovery/Operations: new_kit, the `with_*` functions, and `valid_values`, the last test of load.
--   Recovery/Load: load; json.loads and base64.b64decode are parameters.
--   Recovery/Files: write_new, update and the helpers below them over a store of files. A `System`
--   says how each system call ends. `_write_all` has the length of the payload as fuel, since each
--   round writes a byte or ends.
--   Recovery/Saved: the object that the text of json.dumps stands for.
--   Recovery/Validity, Lifecycle, Accepted, Saved, Files/Durability: the proofs; Recovery/Examples:
--   runs.
--
-- Adapter models src/k8s_stack_tooling/opensearch_glitchtip, the adapter that reads failures from
-- OpenSearch and delivers them to GlitchTip through a durable outbox in SQLite.
--   Adapter/Types, Adapter/Rows, Adapter/State: the tables as lists of rows in the order of rowid,
--   the statements on them, and `State.enqueue` as one transaction. A `Context` holds the keyed
--   digest, the rules, the grouping keys, the links and the clock.
--   Adapter/Delivery: due, acknowledge, defer and deliver_due. Its loop has one round of fuel more
--   than a cycle has attempts, since a round that goes on has tried a row.
--   Adapter/Poll: the loop of `run` over scopes and windows. The fuel of `poll_scope` is 20 rounds
--   for each of 512 segments and 20 more: a window of five minutes is halved 19 times at most.
--   Adapter/Policy: the rules, `structured`, `flatten`, `severity`; Adapter/Policy/Evaluate:
--   `Policy.evaluate`. The JSON calls, the texts shown and the readers of gateway records are fields
--   of `Texts`; the rules come in the order of `Policy.rules`. These readers are taken as total, and
--   Python's recursion limit, at which flatten raises RecursionError, is not modelled.
--   The modules below these hold the proofs; Adapter/Examples runs a small adapter.
--
-- Jobs models src/k8s_stack_tooling/api/jobs.py, one-shot Kubernetes Jobs. What the cluster answers
-- is a parameter; a call that raises is `none`.
--   Jobs/Submit: require_configmap_versions and submit_snapshot_job, with the calls they make.
--   Jobs/Wait: wait_for_job over a clock in milliseconds; the fuel is one round for each two seconds
--   of the wait and one more, since a round sleeps two seconds or up to the deadline.
--   Jobs/Summary: read_job_summary; the decoding of bytes and the redactor are parameters.
--   Jobs/Submission, Waiting and Summaries hold the proofs; Jobs/Examples: runs.
--
-- CatalogSync models cli_tools/openrouter_catalog_sync/src/openrouter_catalog_sync/sync.py, which
-- takes the prices and models of OpenRouter over into three files of the repository.
--   CatalogSync/Objects: the tests of JSON values and of the fields and records of a page;
--   CatalogSync/Fetch: fetch_models and the functions below it over a `Network`: requests, urlsplit,
--   urljoin, the cases of a text and json.loads are its fields. The loop has 21 rounds of fuel, since
--   its own test of the pages ends it in round 21.
--   CatalogSync/Files: write_files with the staging, the backups, the rollback and the `finally` over
--   a store of files; `Answers` says how each system call for one destination ends. Its three outputs
--   are a list.
--   CatalogSync/Paths: validate_paths, check_files and write_files with its checks; what the file
--   system says of a path is a `PathSystem`.
--   CatalogSync/Policy: load_policy; Policy/Schedules: _pricing_schedule. json.loads, the patterns and
--   the arithmetic of decimal texts are fields of `Library` and `Numbers`. The numbers of a document
--   are naturals, so the refusal of a negative, broken or infinite threshold is not modelled.
--   CatalogSync/Selection: _normalized_models and _validated_selected_ids.
--   CatalogSync/Files/*, Fetch/*, Paths/*, Policy/*, Selection/*: the proofs; CatalogSync/Examples:
--   runs.
--
-- Runtime models cli_tools/inference_runtime_manager/src/inference_runtime_manager/installer.
--   Runtime/Assignments: assignments.py and `services` of docker.py; the reviewed recipes and the
--   categories of models are a `PackageData`. save_deployment, which writes the file, is not modelled.
--   Runtime/Changes: pending.py; deployment-changes.json is an option of its parsed state. What the
--   alias reads with `_` for `-`, and the texts of the options, are fields of `Settings`.
--   Runtime/Assignments/*, Runtime/Changes/*: the proofs; Runtime/Examples: runs.
--
-- OpenBao models cli_tools/openbao_stack_setup/src/openbao_stack_setup/credentials.py.
--   OpenBao/Kv: the records that read_secret and write_secret of client.py read and write, as a
--   `Server` with the laws of its reads and writes; runs that may raise.
--   OpenBao/Upsert: `_upsert` and the small functions around it; OpenBao/Credentials: the random
--   values and the tests of fields; Credentials/Services: `_reconcile_contextforge` and
--   `_reconcile_glitchtip`; Credentials/Reconcile: reconcile_internal_credentials in parts of its
--   body; Credentials/Plan: plan_bootstrap_passwords. The random texts and the tests of characters
--   are fields of `Texts`.
--   The modules below these hold the proofs; OpenBao/Examples: runs against a server in memory.
--
-- Addons models src/k8s_stack_tooling/addons/validation.py, the checks of an addon's release.
--   Addons/Graph: `visit` and `ancestors` of check; a round of fuel stands for a call that is open, of
--   which there are as many as packages at most.
--   Addons/Resource: identity, and what is read of a rendered resource; a resource of another shape
--   than the code expects is `malformed`. A reference name that is no text names no producer, also
--   where it is unhashable and the code raises TypeError.
--   Addons/Check: the loops over inputs, outputs and resources; Addons/Producers: the loop over the
--   packages, the tests of the consumers and check from its test of the package names to its call of
--   check_consumers. What a package renders to, and whether a chart is there, are given by `Sources`.
--   Addons/Graph/*, Producers/*: the proofs; Addons/Producers/Examples: runs.
--
-- Not modelled: what HTTP, SQLite, Docker, Kubernetes and the file system do, whose answers are
-- parameters; of sync.py the pricing of a model and the rendering of the three files; of the addons
-- the tests of artifacts, databases and browsers and their installation; the other tools below
-- cli_tools, the clients of Keycloak, LDAP, PostgreSQL and OpenSearch, and the command lines.
pub mod Adapter
pub mod Addons
pub mod CatalogSync
pub mod Jobs
pub mod OpenBao
pub mod Prelude
pub mod Recovery
pub mod Runtime
pub mod Value
