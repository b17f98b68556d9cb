-- ===== src/Lib.antt =====
-- nuzur-cli deploys a project: it generates code, ships it to a machine, and applies the schema of a
-- project version to a database through an agent. This library models the parts of it that decide
-- what a deploy does and in which order, where it goes and what it records, whether a migration runs
-- and what is said of it, how generated archives are written, how the agent answers the server, and the
-- rules for an uploaded file.
--
-- The parts, and how they interact:
--
-- * SqlPlan, the package sqlplan. `split` (split.go) cuts a script into statements; `normalize`,
--   `has_prefix_word` and `classify` (plan.go) label each one by what it can cost; `analyze` makes
--   the plan. SqlPlan.Render and SqlPlan.Churn are the texts of render.go. SqlPlan.Classify has the
--   ALTER TABLE actions in child modules: Actions cuts them (`splitTopLevel`), Action labels one
--   (`classifyAlterAction`).
-- * ExtensionRun.Poll, the loop `pollExtensionExecution` of extensionrun/run.go with the types of
--   extensionrun/step.go. It asks a decider for each confirmation step and sends the answer.
-- * App.Gate, app/deploy_schema_gate.go with `sqlPushProgress` and `sqlPushRun` of
--   app/deploy_schema_push.go and `applySchema` of app/command_deploy.go: the decider that analyzes
--   the migration which a step shows, and declines if the analysis
--   finds a loss of data and there is no authorization.
-- * App.Outcome, app/command_deploy_outcome.go with `classifySchemaOutcome`, `exitCodeForOutcome`
--   and the steps `stepPublishCatalog` and `stepApplySchema` of app/deploy_pipeline.go: what a run
--   of the gate is recorded as, the messages and the exit code.
-- * App.Pairs, app/extension_pairs.go: which of two extensions with the same job runs, and what
--   configuration it starts from. The question to a person is not modelled.
-- * Deploy, deploy/deploy.go and deploy/state.go: the providers, the record of a deployment and its
--   checkpoints. Deploy.Store is the directory of the records; a write is given by the directory after
--   each system call, so that a run can stop between any two. Deploy.Chart is deploy/chartversion.go on
--   the lines of a file; a version to stamp is one line without `$`.
-- * App.Pipeline, app/deploy_pipeline.go: the sets of effects, `deploySteps` (Steps) and the loop of
--   `Deploy` in app/command_deploy.go (Run). What a step does is an argument of the loop: a function
--   from its name and the state to the state that it leaves, and whether it returned an error.
--   Records are the seven functions that a run gives to `MutateDeployment`: six by its steps and the one of
--   `Deploy` for its error; and their sequences.
-- * App.Targeting, app/deploy_targeting.go: the record of an earlier deploy that is meant, and Box,
--   `decideDeployBox`. It reads the records that Deploy.Store lists. Selector, with `imageRepoFromRef` of
--   app/deploy_k8s.go, takes the settings of App.Config from a record.
-- * App.Args, app/command_args.go: the error for arguments that a command does not take.
-- * App.Destroy, app/command_destroy_outcome.go: the sentences that a destroy ends with.
-- * App.Config, app/deploy_config.go and app/deploy_lockfile.go: Resolve makes the settings from the
--   flags, the file and the defaults, Printed makes a configuration and the lock file of the settings.
-- * ExtensionRun.Config, extensionrun/config_schema.go and config_apply.go: `fieldSchema` describes a field with
--   the options it has, and `BuildConfigFromJSON` makes a configuration of what a caller provides and of what
--   was used last. The lists that the server gives and the formats of floats are arguments; a map is a list of
--   its entries, of which the first of a name counts.
-- * ExtensionRun.JwtRequirements, extensionrun/jwt_requirements.go: what a generation with JWT authentication
--   needs of the entities of the project.
-- * ExtensionRun.Archive, the functions of extensionrun/run.go from `extractZip` to `sanitizeZipPath`,
--   with `CleanupOrphanedGeneratedFiles` and `IsGeneratedFile` of files/generated_manifest.go (Zip).
-- * Agent, the daemon of the package agent. Semaphore and TxPool (semaphore.go, txpool.go) cap the queries
--   that run at a time and keep transactions open between requests. Daemon is the loop of `Run` in
--   daemon.go with version.go: it dials, handles what the server asks until the stream ends, and waits.
--   Requests is `handleReverseRPC` with the handlers of handlers.go, Rows the rows of a query as
--   messages, and Probes the requests for schema plans and metrics; a handler is the list of what it
--   does, which uses TxPool. Connections is the registry of agent/connections, from which DbPool
--   (dbpool.go) opens its handles, with Dsn for their source names.
-- * FieldFile, the package fieldfile: Name and Key (name.go, key.go), Validate (validate.go,
--   limits.go) and Resolve (fieldfile.go).
-- * Base and Text are helpers: lists, tests and integers over the native numbers, and the parts of
--   the packages strings and unicode that the code uses.
--
-- Strings are lists of code points, where the code indexes bytes. The scanners compare with ASCII
-- characters only, which no part of a longer UTF-8 sequence equals, so both see the same cuts; a
-- position counts code points here. `ToUpper`, `ToLower` and `EqualFold` change ASCII letters only,
-- so a letter such as the long s, which Unicode folds to an ASCII one, is left as it is.
--
-- Numbers are native natural numbers, and ℤ where the code admits a negative one. Machine words do
-- not wrap here: the counts are of statements, slots and characters in memory.
--
-- Loops are structural recursion, or recursion on fuel: the splitter has one round for each character
-- of the script, since a round passes at least one; `contains_word` has one more than that, since each
-- round leaves a character behind it; and `show` has one for each unit of the number that it prints.
--
-- What comes from outside is an argument: the server's reports on an execution are a list, which a
-- report that it accepts an answer is part of; so is whether the run starts at all. The poll loop
-- waits for ever where the list ends. The clock and the ids of transactions are arguments, the
-- pieces of generated messages are records of what the code reads, and the content sniffer of
-- net/http is a function.
--
-- A file of a record is modelled by what reading and parsing it gives, and a moment by a number, so it
-- has no zone. A path of an archive is absolute and a list of segments. How fmt quotes a text is an
-- argument of the messages about a server and about arguments. Of what the steps of a deploy do, only the writes of the
-- record and the two steps above (`stepPublishCatalog`, `stepApplySchema`) are modelled, since the others
-- call ssh, cloud providers and gRPC.
--
-- Not modelled: terminal output and colours on the screen, gRPC, ssh, cloud providers, the code scanner,
-- prompts, the parsing of flags and of JSON, generated code and templates, the
-- inference of a workspace from a lock file, the search for a manifest and the tidying of go.mod. The
-- errors of fieldfile are named without their texts, and a transaction's rollback is recorded, not
-- performed.
pub mod Base
pub mod Deploy
pub mod Text
pub mod SqlPlan
pub mod ExtensionRun
pub mod App
pub mod Agent
pub mod FieldFile
