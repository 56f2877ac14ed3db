-- ===== src/Lib.antt =====
-- Dobby, an assistant in C: channels put messages on a bus, a worker takes each one, finds or opens
-- the session of its conversation, and lets the session's agent answer it; the agent talks to a
-- language model and runs the tools that the model asks for. The reply goes back over the bus.
--
-- Which file models which part (paths from the root of the repository):
--   Base: the names shared by all, Boolean tests, lists over the native numbers, C strings.
--   Text, Text/Sanitize, StrBuf: src/core/types.c. A C string is the list of its bytes without the
--     terminator, a null pointer is none. strbuf_append is StrBuf.strbuf_append, and so on by name.
--   Session: src/session/session.c and session.h. The table is the list of the 64 slots; a pointer
--     to a session is the index of its slot. The factory's answer and the clock are arguments.
--   Json: the calls of the bundled JSON library (src/core/cJSON.h), as a record of functions.
--   ToolRegistry: src/agent/tool_registry.c. The global table is the list of its tools.
--   Agent: the history, the compaction and the system prompt of src/agent/agent.c; Agent/Think is
--     strip_think_tags, Agent/Wire is build_messages_json, Agent/Chat is agent_chat with its
--     helpers. The provider and the tools' functions are fields of the record Env.
--   Bus: src/bus/bus.c. A function is the step that it makes while it holds its lock; a call that
--     has to wait on a condition answers so, and is made again. Bus/Fifo runs such steps in any order.
--   Worker: the loop of src/bus/agent_worker.c, over the messages in the order of the queue.
--   Allowlist: src/security/allowlist.c, without allowlist_save_email; fnmatch is an argument, and
--     the configuration file is the list of its lines.
--   Scheduler: src/tools/scheduler/scheduler.c. A round of the thread answers what it starts, and
--     takes as an argument whether there is a bus;
--     Scheduler/Jobs is the jobs file, Scheduler/Tools the three tools, whose answers are values.
--   Config: the table of settings and the INI loader of src/core/config.c, from the lines of a file;
--     Config/Env is env_load.
--   Channel: the table of channels and the dispatcher of src/channels/channel.c.
--   ProviderRegistry: src/providers/registry.c.
--   Memory: src/memory/md_memory.c. The file is the list of its bytes, none where there is no file;
--     Memory/Files has the operations on it and the tools' arguments.
--   Subagent: src/tools/subagent/subagent.c. A section under the pool's lock is one function, the
--     clock is an argument; Subagent/Tool is alloc_slot and tool_spawn, Subagent/Reports what the
--     status tool and the snapshot report, Subagent/Life the steps of the threads in any order.
--   History: src/history/history.c. The file is its bytes, the local date and time are arguments.
--   FileTool: src/tools/file_ops/file_tool.c. The file system is a record of what the system calls
--     answer; a search goes down six levels, as in the code.
--   ShellTool: src/tools/shell/shell_tool.c. A child is the rounds of the loop that polls it; none is
--     one that still runs at the end of the rounds.
-- The modules below each of them hold the proofs. Tests holds the theorems at concrete inputs.
--
-- Faults and fuel. Allocation always succeeds. A null pointer that the code hands to strcmp or to
-- strdup is a fault: `fault` in a search, none in a turn of the agent; none is also a read past
-- the end of a line's copy in the memory file. The strdup of src/core/types.c has a test for null,
-- which gcc leaves out in an optimised build (CMakeLists.txt asks for -Os), where the function
-- counts as nonnull: the field is_strdup_nonnull of Env says which of the two the build has, and
-- the theorems hold for both. The loops over lists go by the list. Those that skip a part of a
-- text (sanitize_output, strip_think_tags) go on fuel, the length of the text and one more, for
-- each round takes a byte at least; the growth of a buffer goes on 65 doublings, which pass every
-- 64-bit size. The iterations of a turn go by max_iterations.
--
-- Not modelled: freeing of memory, logging, status callbacks and terminal output; the creation and
-- joining of threads, and the heartbeat, which is little else; the registration of the tools;
-- strbuf_appendf, session_snapshot and the formatted views of the scheduler, which only format;
-- allowlist_save_email; the providers, the channels and the other tools themselves, the gateway and
-- the command line.
pub mod Base
pub mod Text
pub mod StrBuf
pub mod Session
pub mod Json
pub mod ToolRegistry
pub mod Agent
pub mod Bus
pub mod Worker
pub mod Allowlist
pub mod Scheduler
pub mod Config
pub mod Channel
pub mod ProviderRegistry
pub mod Memory
pub mod Subagent
pub mod History
pub mod FileTool
pub mod ShellTool
pub mod Tests
