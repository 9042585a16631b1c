-- ===== src/Connection.antt =====
-- The connection plugin (plugins/connection/fastagent.py): `_connect` with the probe of the local
-- socket, the forwarding session and the methods that Ansible calls for commands and files.
use ansible_go.Base.{
  ℕ, zero, suc, String, ◌<>◌, Bool, true, false, not, ◌&&◌, ◌==◌, Option, none, some, List, [], ◌∷◌,
  ◌++◌, is_some, eqb, if◌then◌else◌,
}
use ansible_go.Value.{Value, null, bool, nat, str, Dict, empty, get_or}
use ansible_go.Run.{
  Exn, Result, ok, err, connection_failure, Run, pure, raise, lift, gets, attempt, modify, ◌>>=◌,
  ◌>>◌, handle,
}
use ansible_go.Env.{
  Step, exists, open_socket, run_process, remove, kill, sleep, Event, setup, Env, Completed,
  text_of,
}
use ansible_go.Client
use ansible_go.Client.{Channel}
use ansible_go.World.{World, Link, PlayContext, get_become_user}
pub mod Daemon
pub mod Forward
pub mod Connect
pub mod Sockets
pub mod Steps
pub mod Transfer
pub mod Binary

-- `AGENT_VERSION`
abbrev pub agent_version : String
agent_version = "0.8.3"

-- The options of the plugin; the empty text and 0 stand for an option that is not given.
pub record Settings : Type 0 where
  pub host : String
  pub user : String
  pub port : ℕ
  pub ssh_executable : String
  pub scp_executable : String
  pub ssh_args : String
  pub private_key : String

-- What the plugin calls of Python's library on texts, the template of the option `agent_path` with
-- the version filled in, and whether the display is verbose.
pub record Tools : Type 0 where
  -- shlex.quote
  pub quote : String → String
  -- s.strip(), s.splitlines(), s.isdigit(), os.path.dirname
  pub strip : String → String
  pub lines : String → List String
  pub is_digits : String → Bool
  pub dirname : String → String
  pub agent_path : String → String
  pub verbose : Bool

-- The names of the socket on the remote host and of its local end.
abbrev pub remote_socket : Bool → String
remote_socket true = "/tmp/fastagent-root-" <> (agent_version <> ".sock")
remote_socket false = "/tmp/fastagent-" <> (agent_version <> ".sock")

abbrev pub local_socket : String → Bool → String
local_socket host true =
    "/tmp/fastagent-local-" <> (host <> ("-root-" <> (agent_version <> ".sock")))
local_socket host false = "/tmp/fastagent-local-" <> (host <> ("-" <> (agent_version <> ".sock")))

-- A step of the controller, and what the outside answers.
unfoldable pub step : {A : Type 0} → Step → (List Event → Result A) → Run World A
step s answer w = let log = setup s ∷ w.log in (answer log, record w { log = log })

-- A step whose answer is not looked at.
unfoldable pub act : Step → Run World (Unit {0})
act s w = (ok tt, record w { log = setup s ∷ w.log })

-- What the handshake leaves: a client where it succeeds, and else the connection as it was.
after_probe : World → Result Dict × Channel → Result Bool × World
after_probe w (ok d, ch) = (
  ok true,
  record w { connected = true; has_socket = true; client = some ch.next_id; log = ch.log },
)
after_probe w (err e, ch) = (ok false, record w { log = ch.log })

-- `close`: the client goes only with its socket.
unfoldable pub close : World → World
close w =
    if w.has_socket
    then record w { has_socket = false; client = none; connected = false }
    else record w { connected = false }

module _ (env : Env) where
  -- The handshake of a fresh client.
  unfoldable pub probe : Run World Bool
  unfolding after_probe
  probe w = after_probe w (Client.hello env agent_version (record { next_id = 1; log = w.log }))

  unfoldable pub path_there : String → Run World Bool
  unfolding step
  path_there path = step (exists path) (λ log. ok (env.path_exists log))

  unfoldable pub open_local : String → Run World (Unit {0})
  unfolding step
  open_local path = step (open_socket path) env.socket_opened

  -- `_try_local_socket`
  unfoldable pub try_local_socket : String → Run World Bool
  try_local_socket path = do
    there ← path_there path
    if not there
        then pure false
        else (do opened ← attempt (open_local path); handle opened (λ e. pure false) (λ u. probe))

  -- The attempts at the end of `_connect`, with a pause between two of them.
  unfoldable pub try_again : ℕ → String → Run World Bool
  try_again zero path = pure false
  try_again (suc zero) path = try_local_socket path
  try_again (suc (suc n)) path = do
    done ← try_local_socket path
    if done then pure true else (do act sleep; try_again (suc n) path)

  -- The options that every call of ssh has.
  named : String → String → List String
  named key value = if value == "" then [] else "-o" ∷ (key <> value) ∷ []

  unfoldable pub ssh_prefix : Settings → Result (List String) → Result (List String)
  unfolding named
  ssh_prefix o (err e) = err e
  ssh_prefix o (ok words) =
      let executable = if o.ssh_executable == "" then "ssh" else o.ssh_executable in
      let port = if eqb o.port 0 then "" else text_of env (nat o.port) in
      ok (
        executable
        ∷ (words
            ++ (named "IdentityFile=" o.private_key
                ++ (named "User=" o.user ++ named "Port=" port))))

  -- `shlex.split(ssh_args)`, if there are any
  unfoldable pub ssh_words : Settings → Result (List String)
  unfolding ssh_prefix
  ssh_words o = ssh_prefix o (if o.ssh_args == "" then ok [] else env.shlex_split (str o.ssh_args))

  -- `_run_ssh_command`, with the command of `_build_ssh_command`
  unfoldable pub run_ssh_command : Settings → String → Run World Completed
  unfolding step
  run_ssh_command o remote_cmd = do
    words ← lift (ssh_words o)
    step (run_process (words ++ ("-T" ∷ o.host ∷ remote_cmd ∷ []))) env.process
