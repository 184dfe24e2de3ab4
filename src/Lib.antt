-- ===== src/Lib.antt =====
-- Agent Nexus: a server (Go, services/api) that runs AI agents and workflows of agents for chat
-- channels and HTTP clients, with a store of runs in PostgreSQL.
--
-- The parts that are modelled, and how they interact:
--
-- - Run (services/api/internal/domain/types.go and the writes of the handlers): the row of a run, its
--   status and the SQL updates of the status with the conditions that they carry.
-- - Workflow (services/api/internal/api/handler/invoke.go, executeGroupRun; workflow_nodes.go): the
--   walk of a workflow graph. Workflow.Graph has the nodes, the edges and the maps that are built of
--   them; Expression is evaluateExpression and sanitizeToolName; Condition chooses the edge of a
--   condition node; Joins is the search for the joins at which the branches of a parallel node stop;
--   State is what the branches share (outputs, loop counts, the checkpoint, the number of steps, the
--   mark of a settled run) and what each has of its own; Delivery is executeWorkflowWebhook and
--   deliverWorkflowGateway; Nodes has the cases of the switch over the type of a node up to a call
--   that leaves the process, Turns one round of the loop of walkBranch and what follows such a call.
-- - Workflow.Threads: the goroutines of a walk. A parallel node starts one for each edge and waits for
--   them. A history is a list of actions: a turn of a thread with the answers from outside, a cancel,
--   or the end of the request that streams the events. Every interleaving of the rounds is such a list.
-- - Provider (services/api/internal/provider/interface.go, tokens.go): messages and tool calls, and the
--   truncation of a conversation to the window of a model.
-- - Waits (approval.go, session_wait.go, wait_state.go, resume.go, runs.go and the gate and session
--   wait of executeRun in invoke.go, all in services/api/internal/api/handler): one wait of a run for
--   an approval or for a session. Snapshot is the row of run_wait_states, Slot the entry of the
--   registry with its channel, Goroutine the steps of the goroutine that waits, Handlers those of
--   Approve, SessionCallback, the sweep of the watchdog and Cancel, and World a history in which they
--   interleave. Each step is one operation on the database, the registry or the channel, save that the
--   insert of an approval request and the status that goes with it are one. Callback has the checks of
--   SessionCallback before its delivery and SessionProgress, Cancels the map runCancels.
-- - Agent (executeRun in services/api/internal/api/handler/invoke.go, completion.go, future_work.go,
--   tools_helper.go): the loop of a single agent. State is what the loop keeps and the tables that it
--   asks; Calls the branches of one tool call, as a run that resumes and as one that does not; Batch the
--   calls of one completion, with the agent calls that run at the same time; Completion the events of a
--   stream and the retry of an empty one; Rounds the loop over the completions, with the guards on the
--   final reply. A batch that parks hands its loop to Waits, whose requests resume it; the row that the
--   loop settles is the sub-run that a walk of Workflow reads.
--
-- - Gateway (services/api/internal/api/handler/gateway.go, with services/api/internal/gateway/service.go
--   and services/api/internal/repository/gateway.go): one channel. Phone has the forms of numbers;
--   Channel the rows and the queries on them; Policy the contact of a message, the policies, pairing and
--   bot mode, OwnerSender the test for the owner; Owner and Owner.Intents read what an owner types,
--   Commands does what the commands do and Switch is handleOwnerCommand; Runs is dispatchGatewayRun,
--   which makes the run that Agent and Workflow execute; Inbound is handleInbound and the endpoints
--   WhatsAppReceive and HTTPReceive. Delivery is deliverWhenComplete, which polls that run's row, and
--   SendWhatsApp; Schedule the scheduled messages, with Calendar the part of Go's time that they use,
--   and Reminders the reminders.
-- - RateLimit (services/api/internal/api/middleware/ratelimit.go): the limiter in front of the endpoints
--   that need no credentials, the gateway's among them.
-- - Runner (services/runner/main.go): the service that executes the sessions whose results Waits.Callback
--   receives. The sessions of one key are a machine of launches, joins, ends, callbacks, removals of the
--   journal and restarts, each step as its mutex makes it; Sound has the journal against the sessions,
--   Recovery what a restart keeps. Requests has the checks and the key of a launch, and deliverCallback
--   with its attempts.
-- - Evals (services/api/internal/api/handler/evals.go): the grading of a case with a reply of a judge, and
--   the requests that start a suite; Running has the goroutines of executeEvalRun, each a start, a count
--   under the lock, and a store that frees its slot, in any order. The run of an agent on a case, which is
--   Agent's, and the judge answer through arguments.
-- - Secrets (services/api/pkg/encrypt/aes.go, services/api/internal/connector/secrets.go,
--   services/api/internal/api/handler/mcp_secrets.go): encryption with the instance key over a record of
--   what AES-GCM and base64 do; Connectors and Mcp are the configs whose secrets it keeps, with a nonce or
--   a failure of the random source for each field as an argument.
-- - Connector (services/api/internal/connector/pipeline.go): chunkText, which cuts a document into the
--   chunks that are indexed. Its loop runs on the length of the text; each round begins later.
--
-- How values stand: ids are UUIDs, and stand as numbers in the order of their texts. Texts are lists of
-- character codes; trimming and lower case are those of ASCII, which is what the code compares with.
-- The answers of models, tools, HTTP servers and gateways, whether a database call fails, and which case
-- of a select is taken are arguments of the steps, so the theorems hold for each of them. A Go map is an
-- association list, or a list in the order that a range over it happens to take.
--
-- Fuel: the search of Joins runs on one more than the number of edges; a node is put into the queue
-- at most once and only as the target of an edge, so the queue is empty by then. The loop of
-- TruncateMessages runs on the number of messages, and each round drops one. The loop that strips
-- verbs off a command runs on the length of the text, and each round shortens it; the loop that
-- catches up with a schedule on the days up to the one after now, and each round passes at least one,
-- unless the rule's interval is so large that a number of days wraps around (its product is one of 64-bit
-- integers; what AddDate answers beyond its range is a parameter): then the loop of the code goes on;
-- the search for the month of a day on the number of days. The six attempts of a callback are the code's
-- own bound. Nothing else runs on fuel: histories are finite lists, and the limit of steps of the walk
-- bounds the turns that have an effect; the rounds of an agent are a list of what the model and the tools answer.
--
-- Not modelled: the prompts and the lists of tools that are offered to a model, memory extraction
-- and compaction; the JSON of checkpoints, snapshots and configs, which read back as they were written;
-- the texts of log lines, and ids and numbers in the texts of events; the regular expression for
-- promises of future work, which is a test on texts that the rounds take; the handlers that only read
-- and write rows, those of the gateway and of suites among them, and the media of messages; the
-- generation and analysis of eval cases, which are prompts; the rest of the connectors, the tools and the
-- clients of models; the processes, git and prompts of the runner, and two of its keys that share the path
-- of a journal; the web application.
pub mod Prelude
pub mod Workflow
pub mod Evals
pub mod Secrets
pub mod Connector
pub mod Gateway
pub mod RateLimit
pub mod Runner
pub mod Run
pub mod Provider
pub mod Waits
pub mod Agent
