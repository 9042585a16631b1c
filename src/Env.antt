-- ===== src/Env.antt =====
-- What the plugins meet outside their own code: the events that they cause, the answers of the
-- outside, and the parts of Ansible and of Python's libraries that they call.
use ansible_go.Base.{ℕ, String, Bool, Option, List}
use ansible_go.Value.{Value, str, Dict}
use ansible_go.Run.{Exn, Result}

-- One line of the protocol.
pub record Request : Type 0 where
  pub id : ℕ
  pub method : String
  pub params : Dict

-- A step of the controller that sets the connection up.
pub data Step : Type 0 where
  -- os.path.exists, and the connect of a local socket
  exists open_socket : String → Step
  -- subprocess.run
  run_process : List String → Step
  -- os.makedirs, and a file of the controller that is written
  make_dirs : String → Step
  save : String → List ℕ → Step
  -- os.remove, os.kill with SIGTERM
  remove kill : String → Step
  -- os.path.isfile, tempfile.mkstemp with a prefix in a directory and the os.close of what it
  -- opened, os.path.getsize, os.chmod with 0o755 and os.replace
  is_file : String → Step
  make_temp : String → String → Step
  close_temp : Step
  size_of make_executable : String → Step
  replace : String → String → Step
  sleep : Step

-- What a plugin does to the outside, in the order newest first.
pub data Event : Type 0 where
  -- a request line is written to the agent
  rpc : Request → Event
  -- `_execute_module(module_name=…, wrap_async=…)`
  run_module : String → Bool → Event
  -- the builtin copy action runs, with its calls of modules rewritten
  run_builtin_copy : Event
  -- a step that sets up the connection
  setup : Step → Event

-- The members of a decoded response object: server.go's Response.
pub record Reply : Type 0 where
  pub id : Value
  pub error : Option Dict
  pub result : Option Dict

-- What follows a request: the end of the stream, an exception of the transport or of the
-- decoder, or a response.
pub data Response : Type 0 where
  closed : Response
  broken : Exn → Response
  reply : Reply → Response

-- subprocess.CompletedProcess, its output decoded
pub record Completed : Type 0 where
  pub returncode : ℕ
  pub stdout : String
  pub stderr : String

abbrev pub Bytes : Type 0
Bytes = List ℕ

-- The outside, as functions of everything that was done to it so far.
pub record Env : Type 0 where
  pub agent : List Event → Response
  pub module_result : List Event → Result Dict
  pub path_exists : List Event → Bool
  pub socket_opened : List Event → Result (Unit {0})
  pub process : List Event → Result Completed
  -- A change of the controller's files: os.remove, os.makedirs, or the write of a file
  pub disk_change : List Event → Result (Unit {0})
  -- ActionBase.run
  pub base_run : Result Dict
  -- ansible.utils.vars.merge_hash
  pub merge_hash : Dict → Dict → Dict
  -- ansible.module_utils.parsing.convert_bool.boolean, with strict=False
  pub boolean : Value → Bool
  -- str(v), of a value that is no text
  pub show : Value → String
  -- str(e)
  pub show_exn : Exn → String
  -- float(v)
  pub to_float : Value → Result Value
  -- s.lower()
  pub lower : String → String
  -- s.splitlines()
  pub splitlines : Value → Result Value
  -- shlex.split
  pub shlex_split : Value → Result (List String)
  -- ansible's to_text, of an argument
  pub to_text : Value → String
  -- the templar, on one entry of the task's environment
  pub template : Value → Result Value
  -- the builtin copy action, as a whole
  pub builtin_copy : List Event → Result Dict
  -- the files of the controller: `_find_needle("files", …)`, stat.S_ISDIR(os.stat(…)),
  -- `DataLoader.get_real_file`, and the bytes of a file
  pub find_needle : Value → Result String
  pub is_dir : String → Result Bool
  pub real_file : String → Bool → Result String
  pub read_bytes : String → Result Bytes
  -- json.dumps(…).encode("utf-8"), to_bytes, and to_text of bytes
  pub json_bytes : Value → Bytes
  pub to_bytes : Value → Bytes
  pub bytes_text : Bytes → String
  -- hashlib.sha256(…).hexdigest(), base64.b64encode and base64.b64decode
  pub sha256 : Bytes → String
  pub b64encode : Bytes → String
  pub b64decode : Value → Result Bytes
  -- the controller's clock, rendered: the start and the end of a command, and their difference
  pub start_time : String
  pub end_time : String
  pub delta_time : String

-- `str(v)`: a text is its own rendering.
abbrev pub text_of : Env → Value → String
text_of env (str s) = s
text_of env v = env.show v
