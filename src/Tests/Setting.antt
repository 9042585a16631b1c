-- ===== src/Tests/Setting.antt =====
-- Two environments, a connection that is there, and tasks.
use ansible_go.Base.{
  String, Bool, true, false, Option, none, some, List, [], ◌∷◌, ◌==◌, if◌then◌else◌, refl,
}
use ansible_go.Value.{null, bool, nat, str, Dict, empty, entry}
use ansible_go.Run.{ok}
use ansible_go.Env.{Event, rpc, Response, closed, reply, Env}
use ansible_go.World.{Task, World, Link, get_become_user}
use ansible_go.World.Laws.{IsLawful}
use ansible_go.World.Down.{IsDown}

-- No request gets an answer.
abbrev pub offline : Env
offline = record {
  agent = λ log. closed;
  module_result = λ log. ok empty;
  path_exists = λ log. true;
  socket_opened = λ log. ok tt;
  disk_change = λ log. ok tt;
  process = λ log. ok (record { returncode = 0; stdout = ""; stderr = "" });
  base_run = ok empty;
  merge_hash = λ a b. b;
  boolean = λ v. elim v [ bool b ↦ b | _ ↦ false ];
  show = λ v. "?";
  show_exn = λ e. "!";
  to_float = λ v. ok v;
  lower = λ s. s;
  splitlines = λ v. ok v;
  shlex_split = λ v. ok ("echo" ∷ "hi" ∷ []);
  to_text = λ v. "?";
  template = λ v. ok v;
  builtin_copy = λ log. ok empty;
  find_needle = λ v. ok "/files/a";
  is_dir = λ s. ok false;
  real_file = λ s d. ok s;
  read_bytes = λ s. ok (104 ∷ 105 ∷ []);
  json_bytes = λ v. [];
  to_bytes = λ v. 104 ∷ 105 ∷ [];
  bytes_text = λ b. "hi";
  sha256 = λ b. "abc";
  b64encode = λ b. "aGk=";
  b64decode = λ v. ok (104 ∷ 105 ∷ []);
  start_time = "1";
  end_time = "2";
  delta_time = "1";
}

abbrev pub offline-IsDown : IsDown offline
offline-IsDown log = tt

-- What the agent of the other environment answers.
abbrev result_of : String → Dict
result_of method =
    if method == "Hello"
    then entry "version" (str "0.8.3") empty
    else if method == "Stat"
    then entry "exists" (bool true) (entry "checksum" (str "abc") empty)
    else entry "changed" (bool true) (entry "rc" (nat 0) empty)

abbrev pub respond : List Event → Response
respond (rpc r ∷ log) =
    reply (record { id = nat r.id; error = none; result = some (result_of r.method) })
respond log = closed

abbrev pub online : Env
online = record offline { agent = respond }

abbrev pub link : Link
link = record { connect = λ w. (ok tt, record w { connected = true; client = some 1 }) }

pub link-IsLawful : IsLawful link
unfolding get_become_user
link-IsLawful = record {
  events = λ P ps pr. record { at = λ w h. h };
  connects = λ w c e. refl;
  become_user = λ play w. refl;
}

-- A world at the start of a task, with become and without.
abbrev pub start : Bool → World
start become = record {
  connected = false;
  has_socket = false;
  client = none;
  use_become = become;
  become = none;
  log = [];
}

abbrev pub task : Dict → Bool → Option String → Task
task args check user = record {
  args = args;
  async_val = false;
  environment = null;
  play = record { check_mode = check; diff = false; become_user = user };
  transport = "fastagent";
}

abbrev pub command_args : Dict
command_args = entry "_raw_params" (str "echo hi") empty

abbrev pub file_args : Dict
file_args =
    entry "path" (str "/tmp/a") (entry "state" (str "touch") (entry "follow" (bool true) empty))

abbrev pub copy_args : Dict
copy_args = entry "content" (str "hi") (entry "dest" (str "/tmp/a") empty)

abbrev pub apt_args : Dict
apt_args = entry "name" (str "curl") (entry "lock_timeout" (nat 60) empty)

abbrev pub systemd_args : Dict
systemd_args = entry "name" (str "nginx") (entry "daemon_reload" (bool true) empty)
