-- ===== src/Connection/Transfer.antt =====
-- What Ansible asks of the connection itself: `exec_command`, `put_file` and `fetch_file`.
use ansible_go.Base.{
  String, ◌<>◌, Bool, true, false, not, ◌&&◌, ◌==◌, Option, none, some, is_some, List, [], ◌∷◌,
  if◌then◌else◌,
}
use ansible_go.Value.{Value, null, bool, nat, str, Dict, get_or, has}
use ansible_go.Run.{
  Exn, Result, ok, err, agent_error, io_error, no_client, bad_value, connection_failure,
  ansible_error, Run, pure, raise, lift, gets, attempt, ◌>>=◌, ◌>>◌, handle,
}
use ansible_go.Env.{make_dirs, save, Env, Bytes}
use ansible_go.Params.{ExecArgs, WriteArgs}
use ansible_go.Client
use ansible_go.World.{World, Link, PlayContext, get_become_user, on_client}
use ansible_go.Action.Command.{user_or_null}
use ansible_go.Connection.{Settings, Tools, step, path_there}
pub mod Laws

-- The user of a command: connection plumbing, which is not `sudoable`, runs as the SSH user.
abbrev command_user : Settings → Bool → Option String → Option String
command_user o sudoable none = none
command_user o sudoable (some user) =
    if sudoable then some user else if o.user == "" then none else some o.user

unfoldable pub command_args : String → Value → Option String → ExecArgs
command_args cmd stdin user = record {
  argv = null;
  cmd_string = str cmd;
  use_shell = bool true;
  cwd = null;
  env = null;
  stdin = stdin;
  timeout = null;
  creates = null;
  removes = null;
  stdin_add_newline = bool false;
  strip_empty_ends = bool true;
  become_user = user_or_null user;
}

-- What `exec_command` returns.
pub record Outcome : Type 0 where
  pub rc : Value
  pub stdout : Bytes
  pub stderr : Bytes

-- An option as an argument: one that is not given is None.
abbrev option_value : String → Value
option_value s = if s == "" then null else str s

module _ (env : Env) where
  -- The two handlers of `exec_command`; another exception goes on.
  caught : Exn → Run World Outcome
  caught (io_error m) = pure (record {
    rc = nat 1;
    stdout = [];
    stderr = env.to_bytes (str ("fastagent exec_command failed: " <> env.show_exn (io_error m)));
  })
  caught (agent_error c m) = pure (record {
    rc = nat 1;
    stdout = [];
    stderr = env.to_bytes (str (env.show_exn (agent_error c m)));
  })
  caught e = raise e

  -- An error of a transfer is a failure of the connection.
  transfer_error : {A : Type 0} → String → Exn → Run World A
  transfer_error prefix (io_error m) =
      raise (connection_failure (prefix <> env.show_exn (io_error m)))
  transfer_error prefix (agent_error c m) =
      raise (connection_failure (prefix <> env.show_exn (agent_error c m)))
  transfer_error prefix e = raise e

  module _ (link : Link) (o : Settings) where
    -- The call of the base class connects first; `stdin` is None or the decoded bytes.
    unfoldable pub exec_command : PlayContext → String → Value → Bool → Run World Outcome
    unfolding caught
    exec_command play cmd stdin sudoable = do
      link.connect
      user ← gets (get_become_user play)
      let args = command_args cmd stdin (command_user o sudoable user)
      answer ← attempt (on_client (Client.exec env args))
      handle answer caught λ reply. pure (record {
        rc = get_or reply "rc" (nat 0);
        stdout = env.to_bytes (get_or reply "stdout" (str ""));
        stderr = env.to_bytes (get_or reply "stderr" (str ""));
      })

    unfoldable pub put_args : String → Bytes → WriteArgs
    put_args out_path bytes = record {
      dest = str out_path;
      content = env.b64encode bytes;
      owner = option_value o.user;
      group = option_value o.user;
      mode = null;
      backup = false;
      unsafe_writes = false;
      checksum = null;
    }

    unfoldable pub put_file : String → String → Run World (Unit {0})
    unfolding transfer_error
    put_file in_path out_path = do
      link.connect
      there ← path_there env in_path
      if not there then raise (ansible_error ("file not found: " <> in_path)) else (do
        bytes ← lift (env.read_bytes in_path)
        answer ← attempt (on_client (Client.write_file env (put_args out_path bytes)))
        handle answer (transfer_error "fastagent put_file failed: ") (λ reply. pure tt))

    -- `base64.b64decode(result["content"])`
    content_of : Dict → Result Bytes
    content_of reply =
        if has reply "content"
        then env.b64decode (get_or reply "content" null)
        else err (bad_value "'content'")

    -- The file of the controller, in a directory that is made where it is missing.
    save_to : Tools → String → Bytes → Run World (Unit {0})
    save_to tools out_path bytes = do
      let dir = tools.dirname out_path
      (if dir == "" then pure tt else (do
        there ← path_there env dir
        if there then pure tt else step (make_dirs dir) env.disk_change))
      step (save out_path bytes) env.disk_change

    unfoldable pub fetch_file : Tools → String → String → Run World (Unit {0})
    unfolding transfer_error content_of save_to
    fetch_file tools in_path out_path = do
      link.connect
      answer ← attempt (on_client (Client.read_file env (str in_path)))
      handle answer (transfer_error "fastagent fetch_file failed: ")
          λ reply. do bytes ← lift (content_of reply); save_to tools out_path bytes
