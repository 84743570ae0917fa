-- ===== src/Agent.antt =====
-- src/deepseek_mcp/agent_loop.py and the modules that it drives: the retry policy, the budgets and
-- the tools of one delegated run. The provider, the tool processes, the clocks and the controls
-- of the parent are the fields of `Agent.Host`.
pub mod Errors
pub mod Host
pub mod Retry
pub mod State
pub mod Bash
pub mod Loop
pub mod Turn
pub mod Triples
pub mod Budgets
pub mod Ordered
pub mod Outcome
pub mod Conversation
