-- ===== src/Connection/Forward.antt =====
-- The forwarding session (`_kill_stale_forwarder` and `_ensure_ssh_forwarding`).
use ansible_go.Base.{ℕ, zero, suc, String, ◌<>◌, not, List, [], ◌∷◌, ◌++◌, eqb, if◌then◌else◌}
use ansible_go.Run.{
  Exn, io_error, connection_failure, Run, pure, raise, lift, attempt, ◌>>=◌, ◌>>◌, handle,
}
use ansible_go.Env.{run_process, remove, kill, sleep, Env}
use ansible_go.World.{World}
use ansible_go.Connection.{Settings, Tools, step, act, path_there, ssh_words}
pub mod Laws

module _ (env : Env) (tools : Tools) where
  -- SIGTERM for every line that is a number; an error of os.kill is passed over.
  unfoldable pub kill_all : List String → Run World (Unit {0})
  kill_all [] = pure tt
  kill_all (line ∷ more) =
      let rest = kill_all more in
      let pid = tools.strip line in
      if not (tools.is_digits pid) then rest else (act (kill pid) >> rest)

  -- `except (OSError, subprocess.TimeoutExpired)`, where io_error stands for both
  unfoldable pub unless_os_or_timeout : Exn → Run World (Unit {0})
  unless_os_or_timeout (io_error message) = pure tt
  unless_os_or_timeout e = raise e

  unfoldable pub kill_stale_forwarder : String → Run World (Unit {0})
  unfolding kill_all unless_os_or_timeout
  kill_stale_forwarder path = do
    listed ← attempt (step (run_process ("lsof" ∷ "-t" ∷ path ∷ [])) env.process)
    handle listed unless_os_or_timeout (λ done. kill_all (tools.lines done.stdout))

  -- The wait for the socket to appear: n looks, with a pause after each that fails.
  unfoldable pub wait_for : ℕ → String → Run World (Unit {0})
  wait_for zero path =
      raise (connection_failure ("fastagent: SSH forwarding socket " <> path <> " did not appear"))
  wait_for (suc n) path = do
    there ← path_there env path
    if there then pure tt else (do act sleep; wait_for n path)

  -- The words of the ssh command that forwards a local socket.
  abbrev forward_words : Settings → String → String → List String
  forward_words o here there =
      "-f"
      ∷ "-N"
      ∷ "-o"
      ∷ "ExitOnForwardFailure=yes"
      ∷ "-L"
      ∷ (here <> (":" <> there))
      ∷ o.host
      ∷ []

  unfoldable pub ensure_ssh_forwarding : Settings → String → String → Run World (Unit {0})
  ensure_ssh_forwarding o here there = do
    kill_stale_forwarder here
    stale ← path_there env here
    (if stale then step (remove here) env.disk_change else pure tt)
    words ← lift (ssh_words env o)
    done ← step (run_process (words ++ forward_words o here there)) env.process
    if not (eqb done.returncode 0)
        then raise (connection_failure ("fastagent: SSH forwarding failed: " <> done.stderr))
        else wait_for 10 here
