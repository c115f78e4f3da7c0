-- ===== src/Lib.antt =====
-- web_listening: verification of the core of the repository: the durable ledger of agentic runs, the
-- acquisition of one page, the tree crawl of a site, and the jobs that are run for a scope.
--
-- The program collects web sources for monitored sites. Four of its parts are modelled.
--   An agentic run (web_listening/blocks/agentic_orchestration.py) plans tasks (reads of a URL, or
--   searches), and every step of it is written to a SQLite ledger that several worker processes share:
--   a run with its budgets and its lease, the run's tasks, and the observations that their reads made.
--   AgenticOrchestrator drives a run by calls of the repository (class AgenticTaskRepository); the read
--   gateways report to it. The ledger is what makes a run safe to resume, to replay and to audit.
--   An acquisition (web_listening/blocks/acquisition_fallback.py) tries the adapters of a profile
--   (acquisition_profile.py) in order. Each capture is judged by quality gates (acquisition_capture.py)
--   and becomes a tool's result (web_listening/contracts/tool_result.py), which ends the acquisition or
--   lets it go on.
--   A tree crawl (web_listening/blocks/tree_crawler.py) reads the pages of a scope breadth first, and
--   the documents that they link, within limits on depth, pages and files.
--   A job (web_listening/blocks/job_orchestration.py) is the row that says how far the work for a scope
--   is. Its runner, such as a crawl, reports to it; execute_job writes every report, and how it ended.
--
-- Parts and files:
--   Prelude             shared names, Boolean tests (Prelude/Tests), lists (Prelude/Lists), texts
--                       (Prelude/Texts), integers (Prelude/Integers)
--   Ledger/Data         rows, fences, errors, budgets (the tables; `_TargetSendClaim`)
--   Ledger/Guards       the triggers of `_drop_ledger_guards`, as tests on the old and the new row
--   Ledger/Store        methods as actions on a state, an UPDATE of one run, `_assert_run_fence`
--   Ledger/Lease        acquire_run_lease, release_run_lease, seal_required_tasks
--   Ledger/Budget       reserve_read_budget, begin_read_budget, consume_target_request,
--                       finish_read_budget
--   Ledger/TargetSend   claim_target_send, release_target_send, renew_target_send
--   Ledger/Discovery    _validate_task_discovery, _validate_observation_provenance
--   Ledger/Outcome      _derive_parent_outcome
--   Ledger/Rows         _parent_from_row, _task_from_row, _observation_from_row, list_tasks,
--                       list_observations, _validate_terminal_run_evidence, require_run
--   Ledger/Runs         create_run, finalize_run, interrupt_run
--   Ledger/Tasks        create_task, transition_task
--   Ledger/Observations add_observation
--   Ledger/Calls        one constructor for each method that changes state, and what a call leaves
--   Ledger/Rules, Frames, Methods, Steps
--                       how a relation between states passes from statements to whole methods
--   Ledger/Epochs, Workers, Fencing, Leasing, Settling, Bounds, Rowwise, History, Audit, Ending,
--   Interrupting, Evidence, Repeating, Interleaving
--                       the proofs, each named for what it is about
--   Acquisition/Data    adapters, profiles, captures, results
--   Acquisition/Profile acquisition_profile.py: the validator, the default profile,
--                       recommend_next_adapter
--   Acquisition/Capture acquisition_capture.py: evaluate_fetch_result, run_capture_attempt
--   Acquisition/Result  tool_result_from_capture_attempt, _result_from_attempt and the mapping of
--                       status codes
--   Acquisition/Records _skipped_result, _terminal_result, _attempt_record, should_continue
--   Acquisition/Safety  _input_url_safety_error, _final_url_safety_warning, _host_allowed
--   Acquisition/Resolve _resolve_profile, _resolve_goal_preset, _adapter_chain, DEFAULT_CHAINS
--   Acquisition/Engine  acquire_with_fallback_result and its loop
--   Acquisition/Turns, Phases, Chain, Judging, Origins, Evidence, Report, Attempts, Irrelevant, Permits,
--   Returning, Choosing, Passing, Hosts
--                       the proofs
--   Crawl/Urls          sanitize_request_url, canonicalize_tracked_url, path_matches_prefixes, the scope
--   Crawl/Data          the variables of a crawl, and the operations it calls (Backend)
--   Crawl/Links         the links of one page: documents and pages
--   Crawl/Pages         the outer loop of _bootstrap_scope_in_transaction, and how it ends
--   Crawl/Revisit, Runs the incremental run: the links of one page; the loop of
--                       _run_scope_in_transaction, and what it reports as missing
--   Crawl/Rules, Turns, Ending, Sound, Prefixes, Again, Rounds, Tours, Limits, Missing
--                       the proofs
--   Jobs/Data           the table of jobs (models.py; storage.py), _summarize_artifacts
--   Jobs/Reports        runners, JobProgressReporter
--   Jobs/Execution      execute_job
--   Jobs/Outcomes       the proofs
--   Tests               the methods run on small tables, sites and pages, and the theorems at them
--
-- How the code is read:
--   The ledger. A method is a function from the repository to a result and the repository after it; the state comes
--   back after a raise too. The state is the tables, which processes share, and `_lease_fences`, which
--   each process has of its own. One call is one step: threads of one process take turns
--   (`_turn`), and `with self.transaction()` holds the database, after which a raise restores the
--   tables. Outside a transaction another process may write between the statements of a call; that
--   interleaving is not modelled (the updates of a fenced method test the fence again for it). A
--   statement is one test and one change of the rows that it names, and aborts where a trigger does.
--   A text that is only stored and compared is a number; a time is a number of microseconds, ordered as
--   the fixed-width texts are. Each reading of the clock is an argument, so that the theorems hold of
--   clocks that jump. Python's tests of types are met by the types here. Counts are natural numbers,
--   as the triggers keep the columns from going below 0; where the code subtracts it has tested that
--   there is something left. Python's and SQLite's integers are taken to be unbounded: the budgets
--   keep the counts small.
--   Regular expressions, hashes that make identifiers, URL canonicalisation and the ordered set of
--   reason codes are the fields of `Texts`, a parameter of every definition that uses them; no theorem
--   supposes anything of them.
--   Its loops are over lists that are there, so no fuel is used.
--   The acquisition. A text is a list of code points. `casefold`, `isspace`, `urlparse`, the count of
--   words, the dump of metadata and pydantic's reading of a mapping are the fields of `Externals`; an
--   adapter is a function of a world that it reads and changes, so captures may depend on all that came
--   before. Of a capture's metadata the keys are kept that the code reads. Warnings and reasons are the
--   data they are printed from. `urlparse` may raise its ValueError. Counts that a caller may choose are
--   integers.
--   The crawl. `urllib.parse` and BeautifulSoup are the fields of `UrlLibrary`. The ValueErrors that
--   they raise at a link or a final URL leave the loop as ordinary exceptions; the seed, and what
--   `urlunsplit` has written, are taken to be URLs that can be split. The acquisition gateway,
--   the pauses, the storage and `_track_file` are the fields of `Backend`, functions of a world, each of
--   which may raise; no theorem supposes anything of them. The outer loop runs on fuel, one more than
--   `max_pages`: every turn counts one request, and the loop stops at `max_pages` of them.
--   The jobs. A runner is a tree of reports that ends in a result or an exception, and each next report
--   may depend on the job that the last one returned; so its loops are structural. The table takes every
--   statement: a failure of the database itself is not among the exceptions; the TypeError of json.dumps
--   is. A runner does not catch what its reporter raises. The texts of an exception are a number.
--
-- Not modelled: migration of older ledgers (it runs once, before the methods), the orchestrator that
-- calls the repository, the adapters and gateways that do the requests, the YAML of profiles and their
-- resource limits (no operation modelled here reads them), the transaction around a crawl, the file
-- downloads, text diffs, and the command line, HTTP and MCP layers, which only call these. Of jobs, the
-- deferred execution with its buffered reporter, whose fields may become None, the rows that
-- persist_job_result writes, and the paths of a scope's plan.
pub mod Prelude
pub mod Ledger
pub mod Acquisition
pub mod Crawl
pub mod Jobs
pub mod Tests
