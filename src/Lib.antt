-- ===== src/Lib.antt =====
-- Khazar OS: the daemons that turn a user's query into an action of an agent (khazar/ in the
-- repository). They are C programs that exchange short JSON texts over Unix sockets.
--
-- A request comes to the orchestrator (khazar/components/orchestrator), which resolves its query to a
-- capability (by the rule engine, or else by its keyword router, or else by the intent classifier),
-- looks for an agent with that capability in its registry, asks the policy engine
-- (khazar/components/policy-engine) whether the agent may act, and hands the request to the agent.
--
-- Files:
-- - Common: library names, tests on numbers, lists and integers, and the lemmas shared by the parts.
-- - CString: texts as lists of bytes with the functions of the C library that the programs call, each
--   read as documented for texts without NUL; CString/Lines reads lines and numbers.
-- - PolicyEngine: Store is policy/policy.c (rules, `policy_check`), Load its loader, Protocol is
--   protocol/protocol.c, Engine the handler of main.c.
-- - Orchestrator: Registry, Session, Router, Message, PolicyClient, RuleClient, IntentClient and
--   AgentClient are the directories of the same names (Message is protocol/), Agent the agent record
--   of khazar/sdk/include/common.h, Handler the function `on_request_handler` of main.c.
-- - RuleEngine: Intent and Result are include/common.h of khazar/components/rule-engine, Tokens, Matcher,
--   Intents, Cache, Alias and Fuzzy the tables of tokens/, matcher/, intent/, cache/, alias/ and fuzzy/, and
--   Pipeline the function `run_tier0_pipeline` of main.c, Multi its `split_query` and the request of
--   `handle_message`; Metrics is metrics/metrics.c, Rules rules/rules.c, and AddRule the functions
--   `handle_add_rule` and `do_reload` of main.c.
-- - IntentClassifier: Protocol is protocol/protocol.c of khazar/components/intent-classifier, Keywords and
--   Classify are main.c.
-- - ModelRuntime: Config is config/config.c of khazar/components/model-runtime, Protocol protocol/protocol.c,
--   Inference inference/inference.c, and Engine the handler of main.c.
-- - Settings: what the readers of the configuration files (config/config.c of each daemon) have in common;
--   the reader of a daemon is Config in the daemon's own module.
-- - Agents: the five programs of khazar/agents. Task and Daemon are what their files main.c hold alike: the
--   handling of a message, the registration, the heartbeat and the main loop. Package (with PackageManager),
--   Power, Network, Audio and Desktop are the parts of their own, from a query to a command and an answer.
-- - Sdk: the library of the agents, khazar/sdk: Json is json/json.c, Protocol protocol/protocol.c, Events
--   events/events.c, Agent agent/agent.c with the client's flags of ipc/ipc.c (Agent/Steps the
--   turns of its threads), and Ipc the function
--   `ipc_client_send` of the latter.
--
-- State: an array with its count is a list, so an operation takes the list and returns the new one
-- with the result of the call; a pointer into an array is the element it points to when the call
-- returns. A buffer is the text it holds, and each copy into a buffer is cut where the source cuts
-- it. Where the mutex is held through an operation, the operation is one
-- step; Sdk/Agent/Steps has the steps of an agent whose threads take turns. The clock is an argument.
--
-- Parameters: `fnmatch`, `regcomp` and `regexec`, the files and directories that are loaded, what
-- happens on a socket (the text that comes back, or its absence), `atof`, what a shell command ends with,
-- which paths `access` allows, how `fork` and `execl` end, and what the handlers of an agent and of an event
-- do.
--
-- Bounds and fuel: the sizes of buffers and arrays are those of the headers. `lines`,
-- `decimal` and `event_publish` run on fuel. Each step of the first uses up a byte, so the length of the
-- text is enough; the second takes 20 steps, as a number of 64 bits has at most 20 digits; the third takes
-- a step for each of at most 32 subscribers and one to see the end.
--
-- Not modelled: the built-in tables of the rule engine and the messages of its protocol other than a
-- request and the addition of a rule, its interactive tools, process start-up, sockets and threads, logging,
-- the latencies and the metrics of the orchestrator, and the scripts and images of the distribution. Similarities are exact fractions in place of floating-point
-- numbers, and other floating-point numbers the texts that stand for them.
pub mod Common
pub mod CString
pub mod Settings
pub mod PolicyEngine
pub mod Orchestrator
pub mod RuleEngine
pub mod IntentClassifier
pub mod ModelRuntime
pub mod Agents
pub mod Sdk
