-- ===== src/Lib.antt =====
-- Open DevOps Agent: an agent that takes incidents from alerts, investigates them with tools, and
-- remedies or escalates them, for several organisations at once.
--
-- The program. A webhook (api/server.py) is authenticated (api/webhook_auth.py), an alert is
-- deduplicated (services/alert_dedupe.py), and the incident is put in a durable queue
-- (services/incident_queue.py), which lives in an object store (storage/base.py). Workers claim
-- incidents from the queue, lay the organisation's credentials over the environment
-- (services/org_config.py, services/org_context.py), classify the incident (agent/classifier.py)
-- and let the agent call tools. Commands pass the gates of tools/executor.py and tools/safety.py;
-- those that wait for a human are kept behind references (services/approval_store.py). The result
-- is checked for evidence (agent/grounding.py) and may be escalated (services/escalation.py). The
-- loop of agent/core.py ties these together: it calls the language model, runs the tools, keeps a
-- checkpoint, and has a fix verified (tools/fix_verifier.py) before it reports the incident as
-- resolved. What is kept of an incident expires (services/incident_store.py). On hosts without the
-- agent, the edge server (middleware/app.py) forwards incidents and runs a few commands for it.
--
-- The files.
--   Prelude, Prelude/Tests, Prelude/Lists: what the files share: numbers, Boolean tests, lists.
--   Text, Text/Laws, Text/Decimal, Text/Hex: Python's `str` as a list of code points, with the
--     methods that the program calls; decimal and hexadecimal numerals.
--   Text/Regex: the part of `re` that the patterns use, as a matcher that computes where a match can
--     end. Text/Shell: shlex.split as its reader's steps.
--   Json: values of JSON and the operations of dicts on objects.
--   Environ: os.environ as an association list, and the ways in which settings are read.
--   Storage/Keys, Storage/Segments: the paths of storage/base.py.
--   Storage/Memory, Storage/Memory/Laws: MemoryStorage of storage/memory_storage.py.
--   Storage/Program: code that calls a provider, as a tree of calls and answers (get_json, put_json,
--     put_json_if_absent, delete, exists, list_keys, the clock), and its run on MemoryStorage.
--   Storage/Trace, Storage/Trace/Schedule: interleavings of the calls of several such programs on
--     one store, where a conditional create may raise before or after it has written.
--   Storage/Exclusive and its children: programs of which at most one can win, by creating a key
--     that nobody deletes or deleting a key that nobody writes. Storage/Disjoint compares the
--     folders of the queue.
--   Services/AlertDedupe, Claims: AlertDeduper.claim.
--   Services/IncidentQueue, in children: Entry (the stored objects), Enqueue, Reviews (slots and
--     terminal records of code reviews), Claim (claim_next), Finish (mark_completed, mark_failed),
--     Recover (recover_stale_processing), Orgs (list_pending_org_ids, adopt_legacy_reviews);
--     Exclusive and Taken are about claims, Ended about the end of an incident, Lifecycle about both,
--     Orgs/Found about the organisations polled.
--   Services/Approvals, Spent, Cleaned, Authorised: CommandApprovalStore on the in-memory provider.
--   Services/OrgConfig, Isolation and Services/OrgContext, Restored: whose credentials are used.
--   Services/IncidentStore, in children: Expire (what goes or is compacted), Dates; Live, Attempts,
--     Ages, Spared and Kept (what retention leaves): IncidentStore of services/incident_store.py.
--   Services/Escalation, Decision: EscalationService.evaluate and escalate.
--   Tools/Safety, Tools/Ssh, Tools/Executor, Gates: which commands run; Approved and Once: those
--     that were approved, by SafeExecutor.run.
--   Tools/DiskPolicy, Paths, Resolved, Verdicts: which files the disk cleanup may delete.
--   Tools/FixVerifier, Observe, Monitor: FixVerifier.verify_fix, what it reads of other systems, and
--     its monitoring; Monitor/Bounds and Verified are about when that ends and what a verdict rests on.
--   Agent/Loop, Claude: DevOpsAgent._run_with_org_context and _call_claude; Steps and Resolved are
--     about how long a run goes on and what it reports.
--   Agent/Classifier, Types and Agent/Grounding, Evidence: the type of an incident, and when a
--     diagnosis rests on evidence.
--   Api/Webhook, Verified and Api/Access, Granted: who may send webhooks and use the API.
--   Mcp/Auth, Binding: devops_mcp/auth.py.
--   Middleware, in children, middleware/app.py: Values (checks of single values), Options
--     (_parse_options; Items, Reads and Inverse are about what it accepts), Commands (the default
--     commands; Known, Cluster and ReadOnly are about what they can do), Settings (settings,
--     authentication),
--     Exec (`/exec`; Gate and Refused are about it) and Forward (`forward_incident`; Vouched is
--     about it).
--   Collectors/DatabasePolicy, Blocked: when databases are out of reach.
--   Examples: runs on small inputs.
--
-- The state. A store maps keys to objects; an object is held as the record that it stands for, since
-- JSON text is the library's. Each operation on the store is a program of calls, so the same
-- definition runs alone (`run`) and interleaves with others (`Step`, `Reach`). The clock answers
-- each reading; times are natural numbers, microseconds where the code compares fractions.
--
-- Bounds and fuel. Loops over keys, paths and lists recurse on the list. `digits_up` of
-- Text/Decimal and `hex_up` of Text/Hex have one unit of fuel more than the number has value, and
-- every step divides the number by the base.
-- The loop of `retain` counts the 256 slots down. The agent's loop is given `max_steps` rounds, and
-- the monitoring of a fix a round for each second; both are shown to end by their own tests within
-- them. A star of a pattern goes round once per character left, since each round takes one. The
-- matcher knows the letters of ASCII; a letter beyond it is no word character.
--
-- What is a parameter. SHA-256, HMAC, JSON texts, UTF-8, `uuid4`, the addresses that `ipaddress`
-- calls loopback, the clients of the escalation channels, the language model and the tools as the
-- agent's loop sees them, what kubectl, systemctl, CI servers and clouds answer to a verification,
-- the processes that the edge server starts, patterns that a setting holds, and the calendar:
-- `datetime.fromisoformat` and the months by which retention tells an age.
--
-- What is not modelled. The agent's prompts and its table of tools (agent/prompts.py, agent/core.py)
-- are text; the collectors and most tools call cloud APIs; the HTTP server of the API, the command
-- line and the cloud storage providers are input and output, as is what a process prints. The report
-- of a verification and the timestamps in its checks are for people to read. What the scrubber of
-- services/pii_scrubber.py and `_serialize_messages` make of a checkpoint is a function that the
-- agent's loop is given.
pub mod Prelude
pub mod Text
pub mod Json
pub mod Storage
pub mod Environ
pub mod Services
pub mod Tools
pub mod Agent
pub mod Api
pub mod Mcp
pub mod Middleware
pub mod Collectors
pub mod Examples
