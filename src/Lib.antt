-- ===== src/Lib.antt =====
-- deepseek-as-subagent: a server that lets a coding agent delegate tasks to a DeepSeek sub-agent.
--
-- The job manager starts one delegated run at a time, in a worker thread or in the calling thread, under
-- the workspace's lease. A run is the agent loop: turn by turn it asks the provider through the retry
-- policy, validates the response, executes the tools that it asks for, and ends with a result or an
-- exception. Tools that change files report mutation records, which the loop accumulates, the result or
-- the exception carries, and the manager keeps also when a job is cancelled. Every mutation has an intent
-- in the journal. The tools may touch only the paths that the safety policy allows. The parent runs each
-- tool in a child process, which dispatches the call to the tool; files are written within the mutation
-- budget of the run, which does not count what the commands of Bash write. The configuration says which tools, which bounds and which credential a run has.
--
-- Files, with the code that each is about:
--   Text, Json, Json/Size     texts as lists of code points; JSON values and the sizes of their encodings
--                             (src/deepseek_mcp/agent_loop.py: `_encoded_size`)
--   Mutation                  src/deepseek_mcp/mutation_outcome.py; theorems in Mutation/Records
--                             and Mutation/Messages
--   Provider                  src/deepseek_mcp/provider_response.py; theorems in Provider/Accepted
--   Job/Record, Job/Manager, Job/Methods, Job/Worker
--                             src/deepseek_mcp/job_manager.py: `JobRecord`, the helpers, methods and
--                             worker thread of `DeepSeekJobManager`, one function for each
--   Job/World                 the manager among its threads: one step each time its lock is taken
--   Job/Mailbox, Job/Dict, Job/Lifecycle, Job/Ending, Job/Slot to Job/Exclusive
--                             theorems on the mailbox, the dict, single jobs, and the invariant
--   Agent/Host                what a run meets outside: provider child, tool child, clocks, controls
--   Agent/State, Agent/Loop, Agent/Turn, Agent/Bash, Agent/Errors
--                             src/deepseek_mcp/agent_loop.py, bash_outcome.py, resource_budget.py
--   Agent/Retry               src/deepseek_mcp/provider_retry.py; theorems in Agent/Retry/Bounds
--   Agent/Triples, Agent/Conversation, Agent/Budgets, Agent/Ordered, Agent/Outcome
--                             theorems on turns and runs
--   Safety/Paths, Safety/Commands
--                             src/deepseek_mcp/safety.py; theorems in Safety/Paths/Boundary
--   Journal, Journal/Store    src/deepseek_mcp/transaction_journal.py; theorems in Journal/RoundTrip
--                             and Journal/Intents
--   Deadline                  src/deepseek_mcp/hard_deadline.py; theorems in Deadline/Limits
--   FileIdentity              src/deepseek_mcp/file_identity.py; theorem in FileIdentity/Baseline
--   ToolCall                  src/deepseek_mcp/tool_process.py; theorems in ToolCall/Accounted,
--                             ToolCall/Announced and ToolCall/Charged
--   BashTool                  src/deepseek_mcp/bash_tool.py; theorems in BashTool/Capture
--   Tools, Notebook, Dispatch src/deepseek_mcp/tools.py: limits and edits of texts, the cells of a
--                             notebook, the tools and `execute_tool`; theorems in Tools/Edit,
--                             Notebook/Targets, Notebook/Cells, Dispatch/Charged and Dispatch/Readonly
--   Glob                      src/deepseek_mcp/workspace_walk.py: `_GlobPattern`, and walk_support.py:
--                             `PrunedDirectories`; what a pattern matches in Glob/Reference, theorems
--                             in Glob/States, Glob/Advanced and Glob/Matching
--   Config                    src/deepseek_mcp/config.py, provider_settings.py; theorems in
--                             Config/Credential and Config/Valid
--   Lease                     src/deepseek_mcp/execution_lock.py on a POSIX host; theorem in Lease/Released
--   Examples                  the theorems at concrete inputs
--
-- State and errors: a function that may raise returns a result, and code that also changes a state takes
-- and returns the state, which keeps what was written before a raise. A dict is an association list in
-- insertion order. The threads of the manager are interleaved at its lock, which every method holds from
-- its beginning to its end. What the program does not define is a parameter: the host of a run, path
-- resolution, case folding, shlex, json.dumps and json.loads, and the answers of locks, journal, clock
-- and id generator.
--
-- Bounds: times are whole ticks or milliseconds, and time left is 0 once a deadline has passed. The retry
-- loop has fuel 4, which is enough since a retry uses up one of three. The turns of a run are counted
-- down from the configured number. Decimal digits have fuel above the number itself.
--
-- Not modelled: the file system and the Windows backends of the journal, its recovery, the walk of the
-- workspace below its glob patterns, the scans of Glob and Grep, access to the files of the workspace,
-- the starting and stopping of child processes, the reading of the configuration file, and the server,
-- which drive the operating system or the hosts; logging; the attachment of progress to exceptions.
pub mod Prelude
pub mod Text
pub mod Json
pub mod Mutation
pub mod Provider
pub mod Job
pub mod Agent
pub mod Safety
pub mod Journal
pub mod ToolCall
pub mod BashTool
pub mod Glob
pub mod Tools
pub mod Notebook
pub mod Dispatch
pub mod Config
pub mod Lease
pub mod Deadline
pub mod FileIdentity
pub mod Examples
