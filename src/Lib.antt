-- ===== src/Lib.antt =====
-- offload runs a test suite in parallel on sandboxes and collects the results. This library models
-- the parts of it that decide what is run, when a test is done, and what is reported and
-- remembered.
--
-- How the parts work together. Orchestrator::run_with_tests (src/orchestrator.rs) turns the
-- discovered test records into test instances (one more than the retry count of each) and gives
-- them to a scheduler (src/orchestrator/scheduler.rs), which packs them into batches. Workers, one
-- for each sandbox, take batches from the scheduler, run them, add the JUnit XML of each batch to
-- the master report (src/report/junit.rs), and tell the completion tracker
-- (src/orchestrator/completion.rs) which tests passed. The run ends early once all tests are
-- decided. Afterwards the attempts are recorded in the history (src/history/), whose durations feed
-- the scheduler of the next run.
--
-- Modules and their code:
--   Base           shared names, lists, tables (HashMap as an association list, HashSet as a list
--                  without duplicates), stable sorting; no code of the program
--   Completion     src/orchestrator/completion.rs, and the registration loop of
--                  src/orchestrator.rs. Outcomes and Counting are about sequences of recorded
--                  batches
--   Framework      src/framework.rs: TestRecord and TestInstance; Matching is the resolution of
--                  JUnit testcases to batch ids (normalize_test_id, longest_common_suffix_len,
--                  resolve_test_id_suffix_matching), Vitest is src/framework/vitest.rs: the names
--                  and xml_from_report, Batches the command of a batch and resolve_test_ids;
--                  Closed, Reading and Converted hold what is shown of the conversion
--   Instances      src/orchestrator.rs: the list tests_to_run, with its round-robin of the
--                  individually scheduled tests
--   Scheduler      src/orchestrator/scheduler.rs. Batch is the struct Batch, Assign the assignment
--                  loop (longest processing time first), Build is Scheduler::new, Queue is pop with
--                  enqueue_followups and push; Coverage, Limits, Draining, Handout, Makespan and
--                  Factor hold what is shown of them
--   Workers        src/orchestrator/spawn.rs: the loop of spawn_task as steps of a worker on the
--                  shared state (WorkerStep), and a run as any interleaving of such steps (Step,
--                  Reaches); Conserved and Endless are about all reachable runs
--   Runner         src/orchestrator/runner.rs: a batch on a sandbox (run_tests), with the streaming
--                  of its output (exec_with_streaming), the download of its results and the
--                  bookkeeping; Recorded holds what is shown of it
--   Pool           src/orchestrator/pool.rs: creating the sandboxes, in any order (populate), and
--                  take_all; Populated is about the former
--   Report         src/report/junit.rs. Suites holds the data, Master the methods of
--                  MasterJunitReport, Reader is parse_all_testsuites_xml as a fold over XML events,
--                  Writer is write_to_file as the events it writes; Xml is the XML library and what
--                  a well-formed document is; Outcomes, Counts, Rereading, WellFormed, RoundTrip
--                  and Restored hold what is shown of them
--   History        src/history.rs, src/history/jsonl.rs (Data), src/history/reservoir.rs
--                  (Reservoir), src/history/merge.rs (Merge), and of src/history/store.rs the
--                  recording (Store), the lines of the file (Files), percentiles (Stats), and the
--                  statistics, rankings and expected durations (Rankings); Bounds, Merging,
--                  Recording, Counters, Merged, Union, Saved and Scheduled hold what is shown of
--                  them
--   Retry          src/provider/retry.rs with the errors of src/provider.rs; Actions is the macro
--                  around an expression that changes what is outside
--   Git            src/git.rs over a machine that runs git: the queries, Notes (read_note,
--                  write_note and the transport of notes), Trees (export_tree,
--                  generate_checkpoint_diff), Paths (canonicalize_config_path, with what it uses of
--                  paths); Notes.Stored is about a note that is read back
--   Cache          src/image_cache.rs: the base commit and its cached image (resolve_base), and in
--                  Prewarm the preparation of an image (prepare_with_prewarm); git is the interface
--                  Repository, which Backend fills with the model of git; Traced records the calls
--                  of a run; Keeping, Sound, Fallback and Backend hold what is shown of them
--   Aggregate      src/orchestrator.rs, the end of run_with_tests: RunResult, its exit code,
--                  record_history; Codes is about the exit code
--   Durations      what the scheduler is given: load_test_durations of src/report/junit.rs, and of
--                  src/orchestrator.rs the choice of durations and group_to_default_duration, which
--                  Averages is about
--   Runs           concrete inputs for Framework, Instances and Retry; the other components have a
--                  child Samples
--
-- State and operations. A struct is a record and a method a function from the old state to the new
-- one. A panic (an index out of range) is none. A pop that would wait is none. Loops are recursion
-- on the list they walk; the number of times that workers ask for a batch is an explicit number of
-- Scheduler.Draining.
--
-- Parameters. Code that is not in this repository, and arithmetic on f64, is a parameter: the
-- decoding and printing of numbers and the XML library (Report.Reader.Decoding,
-- Report.Writer.Encoding, Report.Xml.XmlLibrary with its law on well-formed documents), the random
-- keys and the order of f64 (the record History.Reservoir.Lottery), serde_json on one record and
-- the order of keys (History.Files.Codec), the overlap ratio of History.Merge, the rounding of
-- History.Stats, the arithmetic of History.Rankings, the delays of the backoff library, what a
-- sandbox answers to a batch (Runner.Environment), the processes and files of git (Git.Machine),
-- the image builder of a provider and the file system around it (Cache.Prewarm.ImageBuilder,
-- Surroundings), the creation of a sandbox (Pool.SandboxProvider), arithmetic on times in vitest's
-- report (Framework.Vitest.Times), and the splitting of shell words with the escaping of regular
-- expressions (Framework.Vitest.Batches.Shell).
--
-- Abstractions. Durations are numbers of nanoseconds without overflow; counters of the history are
-- u64 values and wrap. A worker's step is one critical section or atomic access; of the two flags
-- that end a run, all_complete is set in one step and the token cancelled in the next, as other
-- workers read them without a lock. For the workers a run of a batch is a step that records its
-- batch in the tracker, with any outcome, or nothing; Runner says what the runner does. Code that
-- changes the world outside is a function from the world to a result and the next world. The order
-- in which a HashMap is iterated is unspecified in the program and is the order of insertion here.
-- Mutexes and notifications are left out: each operation on shared state is one call, and a worker
-- that waits for a batch has no step to take. Errors of the file system are left out.
--
-- Not modelled: the download of artifacts, the providers (external commands and their output), the
-- frameworks but vitest, configuration (derived by serde), tracing, and the command line.
pub mod Base
pub mod Completion
pub mod Framework
pub mod Scheduler
pub mod Report
pub mod History
pub mod Retry
pub mod Instances
pub mod Runs
pub mod Workers
pub mod Runner
pub mod Git
pub mod Cache
pub mod Aggregate
pub mod Durations
pub mod Pool
