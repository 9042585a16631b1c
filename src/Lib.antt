-- ===== src/Lib.antt =====
-- The Python side of fastagent, a connection plugin and action plugins for Ansible that send
-- requests to an agent on the remote host in place of modules.
--
-- How the parts interact: Ansible runs an action plugin (plugins/action/*.py) for a task. The
-- plugin asks the connection (plugins/connection/fastagent.py) for the become user, connects, and
-- calls a method of the client (plugins/module_utils/fastagent_client.py), which writes one JSON
-- request and reads one response. Where the fast path does not cover a task the plugin runs the
-- builtin module of Ansible.
--
-- Which file models what:
--
-- - Base, Base/*: library names and lemmas that the others share; tests on numbers and lists,
--   texts, paths (os.path.join, os.path.basename).
-- - Value: Python values as JSON has them, and dicts with get, in, update and truth. Run: methods
--   that read and write a state and return or raise; Run/Keeps, Run/Ensures, Run/Returns and
--   Run/Fails are the logics for invariants, for what holds where code returns, for code that
--   always returns, and for exceptions.
-- - Env: the events that the plugins cause, newest first, and the outside as functions of them.
-- - Params: the dicts that the client sends. Client: class FastAgentClient, one definition for
--   each method. A channel is the counter and the events so far. Client/Trace: the trace file
--   (_trace_hint, _trace) and `call` with it.
-- - FileState and Octal: plugins/module_utils/file_state.py (format_octal_mode,
--   requires_builtin_file, infer_file_state).
-- - World: the connection object as the action plugins see it (set_become_plugin,
--   get_become_user, the client), `_execute_module`, and the interface Link of `_connect`.
--   World/Laws states what `_connect` promises (a connection with these promises is called
--   lawful), and how calls act on the events; World/Become adds the become user, World/Answered
--   the worlds where each request was answered without an error, World/Down an agent that is
--   gone.
-- - Action/Command, Action/File, Action/Stat, Action/Systemd, Action/Apt and Action/Copy: the
--   plugin of that name, `run` as `run`, the parts of its body as definitions that `run` calls in
--   the order of the source. Action/Apt/Args has the tables and the tests of the arguments,
--   Action/Apt/Plain a description of what they let pass, spelled apart from them;
--   Action/Copy/Data is _fastagent_copy_data, Action/Copy/Builtin the search for the builtin
--   action. Failure has the results that the plugins share.
-- - Connection: plugins/connection/fastagent.py, the probe of the local socket and the ssh
--   command; Connection/Forward the forwarding session, Connection/Daemon the remote daemon and
--   its deployment, Connection/Connect `_connect` and `reset`, which implement Link,
--   Connection/Sockets the names of the sockets, Connection/Transfer exec_command, put_file and
--   fetch_file, and Connection/Binary the search for a binary of the agent and its download.
--   Connection/Steps has the laws of single steps.
-- - Modules: what the modules of plugins/modules share of AnsibleModule; Modules/Preflight the
--   test for parameters that a module does not implement; Modules/Apt, Modules/Dnf and
--   Modules/Systemd the module of that name, `main` as `main`; Modules/Routing the modules of
--   copy, file, stat and command, which only refuse. They run on the remote host, where a task
--   resolves to them. Modules/Systemd/Plan is the plan of commands that the systemd module is to
--   run.
-- - Play: the composition, the six plugins over the connection of this repository, in any order,
--   with become plugins attached and the connection reset in between.
-- - Laws, Failures and the other children of a module: its theorems. Tests: the settings and the
--   concrete inputs.
--
-- Bounds and fuel: a Python int is an integer without bound here as it is there. The octal format
-- of n recurs on fuel n + 1, and n has at most n + 1 digits. All other loops are structural:
-- `_connect` tries five times and waits for the socket with ten looks, as the source does.
--
-- Parameters: Env holds what the plugins call and this repository does not define: the answers of
-- the agent and of the modules as functions of the events so far, merge_hash, boolean, the
-- templar, shlex.split, the renderings of values and exceptions, hashing and base64, the files of
-- the controller, and the clock. Disk and Places are the file system and the directories of the
-- controller for the search of a binary, Host is what a module meets on the remote host, Tracer
-- the trace file, and Package the directories of Ansible's action plugins; IsFilled is the
-- promise of AnsibleModule that an argument that is not given has the default of its row. A
-- theorem that needs more of a parameter than its type names it as a hypothesis.
--
-- Not modelled: the messages on the display; the agent, which is a Go program; white space and
-- digits beyond ASCII in a mode; two threads on one client; responses whose members have another
-- JSON type than the agent sends; the requests by which Ansible itself transfers and runs a
-- module or the builtin copy action through exec_command and put_file, since a fall-back is one
-- event. An io_error of a process stands for OSError and for TimeoutExpired. In the search for a
-- binary, the second close and the removal of the temporary file cannot fail.
pub mod Base
pub mod Value
pub mod Run
pub mod Env
pub mod Params
pub mod Client
pub mod Octal
pub mod FileState
pub mod World
pub mod Failure
pub mod Action
pub mod Connection
pub mod Modules
pub mod Play
pub mod Tests
