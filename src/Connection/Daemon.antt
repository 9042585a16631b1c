-- ===== src/Connection/Daemon.antt =====
-- The daemon on the remote host (`_detect_remote_arch`, `_ensure_agent_deployed` and
-- `_ensure_remote_daemon`).
use ansible_go.Base.{
  String, ◌<>◌, Bool, not, ◌&&◌, ◌==◌, Option, none, some, List, [], ◌∷◌, ◌++◌, eqb, has_text, join,
  starts_with, drop_text, lookup, if◌then◌else◌,
}
use ansible_go.Value.{nat}
use ansible_go.Run.{Result, ok, err, connection_failure, Run, pure, raise, lift, ◌>>=◌, ◌>>◌}
use ansible_go.Env.{run_process, Env, text_of}
use ansible_go.World.{World}
use ansible_go.Connection.{agent_version, Settings, Tools, step, run_ssh_command}

-- `_find_local_binary`: the path of a binary for the architecture, found or downloaded.
pub record Binaries : Type 0 where
  pub find : String → Run World (Option String)

-- `arch_map`
abbrev arch_map : List (String × String)
arch_map = ("x86_64", "amd64") ∷ ("aarch64", "arm64") ∷ ("arm64", "arm64") ∷ []

known_arch : String → Option String → Result String
known_arch uname (some arch) = ok arch
known_arch uname none =
    err (connection_failure ("fastagent: unsupported remote architecture: " <> uname))

-- The binary that was found, or the failure where there is none and no URL to load it from.
found_binary : String → Option String → Result String
found_binary arch (some path) = ok path
found_binary arch none = err (
    connection_failure (
      join "" (
        "fastagent: cannot find local agent binary for linux-" ∷ arch
        ∷ " and fastagent_download_url is empty. Build from source with "
        ∷ "`make build` or set fastagent_local_agent_dir." ∷ [])))

module _ (env : Env) (tools : Tools) (o : Settings) where
  unfoldable pub detect_remote_arch : Run World String
  unfolding known_arch
  detect_remote_arch = do
    done ← run_ssh_command env o "uname -m"
    let uname = tools.strip done.stdout
    if not (eqb done.returncode 0)
        then raise (connection_failure ("fastagent: failed to detect remote arch: " <> done.stderr))
        else lift (known_arch uname (lookup uname arch_map))

  -- `{host}:{remote_path}`, with the user in front if there is one
  scp_target : String → String
  scp_target path =
      let target = o.host <> (":" <> path) in
      if o.user == "" then target else o.user <> ("@" <> target)

  -- The scp command of the upload.
  scp_words : String → String → List String
  unfolding scp_target
  scp_words binary path =
      let executable = if o.scp_executable == "" then "scp" else o.scp_executable in
      let key = if o.private_key == "" then [] else "-i" ∷ o.private_key ∷ [] in
      let port = if eqb o.port 0 then [] else "-P" ∷ text_of env (nat o.port) ∷ [] in
      executable ∷ (key ++ (port ++ (binary ∷ scp_target path ∷ [])))

  -- The upload of the binary, and what makes it executable.
  unfoldable pub upload : String → String → Run World (Unit {0})
  unfolding scp_words
  upload binary path = do
    run_ssh_command env o ("mkdir -p " <> tools.quote (tools.dirname path))
    done ← step (run_process (scp_words binary path)) env.process
    if not (eqb done.returncode 0)
        then raise (connection_failure ("fastagent: scp upload failed: " <> done.stderr))
        else (do run_ssh_command env o ("chmod +x " <> tools.quote path); pure tt)

  unfoldable pub ensure_agent_deployed : Binaries → String → String → Run World (Unit {0})
  unfolding upload found_binary
  ensure_agent_deployed binaries path arch = do
    done ← run_ssh_command env o (tools.quote path <> " --version 2>/dev/null || true")
    if eqb done.returncode 0 && has_text agent_version done.stdout then pure tt else (do
      found ← binaries.find arch
      binary ← lift (found_binary arch found)
      upload binary path)

  -- `sudo -n` runs the daemon as root; the redirection stands inside of the shell that it runs.
  start_command : Bool → String → String → String
  start_command wrap path socket =
      let debug = if tools.verbose then " --debug" else "" in
      let allow = if o.user == "" then "" else " --allow-user " <> tools.quote o.user in
      let launch =
        join ""
          (tools.quote path ∷ " --daemon --socket " ∷ tools.quote socket ∷ allow ∷ debug ∷ []) in
      let log = tools.quote (socket <> ".log") in
      let inner = join "" ("exec " ∷ launch ∷ " </dev/null >>" ∷ log ∷ " 2>&1" ∷ []) in
      let daemon = if wrap then "sudo -n sh -c " <> tools.quote inner else launch in
      let prefix = if wrap then "sudo -n true || exit $?; " else "" in
      let redirect =
        if wrap
        then " </dev/null >/dev/null 2>&1"
        else join "" (" </dev/null >>" ∷ log ∷ " 2>&1" ∷ []) in
      join "" (
        prefix
        ∷ "setsid "
        ∷ daemon
        ∷ redirect
        ∷ " & for i in 1 2 3 4 5; do   test -S "
        ∷ tools.quote socket
        ∷ " && exit 0;   sleep 0.1; done; echo 'timeout waiting for socket' >&2; exit 1"
        ∷ [])

  kill_command : Bool → String → String
  kill_command wrap socket =
      let pid = tools.quote (socket <> ".pid") in
      let command = join "" (
        "pkill -F "
        ∷ pid
        ∷ " 2>/dev/null || true; pkill -f 'fastagent[^ ]* --daemon' 2>/dev/null || true; rm -f "
        ∷ tools.quote socket
        ∷ " "
        ∷ pid
        ∷ []) in
      if wrap then "sudo sh -c " <> tools.quote command else command

  -- The path of the binary, with the home of the SSH user for `~`.
  unfoldable pub agent_path_for : String → Run World String
  agent_path_for arch =
      let path = tools.agent_path arch in
      if not (starts_with path "~/") then pure path else (do
        done ← run_ssh_command env o "echo $HOME"
        let home = tools.strip done.stdout
        pure (if eqb done.returncode 0 && not (home == "") then home <> drop_text 1 path else path))

  -- The daemon is killed and started again.
  unfoldable pub restart : Bool → String → String → Run World (Unit {0})
  unfolding kill_command start_command
  restart wrap path socket = do
    run_ssh_command env o (kill_command wrap socket)
    done ← run_ssh_command env o (start_command wrap path socket)
    if not (eqb done.returncode 0)
        then raise (
            connection_failure (
              join "" (
                "fastagent: failed to start daemon: rc="
                ∷ text_of env (nat done.returncode)
                ∷ "\nstdout: "
                ∷ done.stdout
                ∷ "\nstderr: "
                ∷ done.stderr
                ∷ [])))
        else pure tt

  test_command : String → String
  test_command socket =
      let s = tools.quote socket in
      join "" ("test -S " ∷ s ∷ " && test -r " ∷ s ∷ " && test -w " ∷ s ∷ [])

  unfoldable pub ensure_remote_daemon : Binaries → String → Bool → Run World (Unit {0})
  unfolding agent_path_for restart test_command
  ensure_remote_daemon binaries socket wrap = do
    done ← run_ssh_command env o (test_command socket)
    if eqb done.returncode 0 then pure tt else (do
      arch ← detect_remote_arch
      path ← agent_path_for arch
      ensure_agent_deployed binaries path arch
      restart wrap path socket)
