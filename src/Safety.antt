-- ===== src/Safety.antt =====
-- src/deepseek_mcp/safety.py: the workspace boundary of the file tools, and the command policy. A
-- resolved path is its components below the anchor. What the operating system resolves, the
-- Unicode tables of `casefold` and `lower`, and `shlex` are parameters.
pub mod Paths
pub mod Commands
