-- ===== src/Connection/Connect.antt =====
-- `_connect`, and the methods that follow from it.
use ansible_go.Base.{String, Bool, true, false, not, ◌&&◌, ◌==◌, ◌<>◌, if◌then◌else◌}
use ansible_go.Run.{connection_failure, Run, pure, raise, gets, modify, ◌>>=◌, ◌>>◌}
use ansible_go.Env.{Env}
use ansible_go.World.{World, Link}
use ansible_go.Connection.{
  Settings, Tools, remote_socket, local_socket, try_local_socket, try_again, close,
}
use ansible_go.Connection.Daemon.{Binaries, ensure_remote_daemon}
use ansible_go.Connection.Forward.{ensure_ssh_forwarding}
pub mod Laws
pub mod Ready
pub mod Joins

module _ (env : Env) (tools : Tools) (binaries : Binaries) (o : Settings) where
  -- The bootstrap, where no socket answers.
  bootstrap : Bool → Run World (Unit {0})
  bootstrap use_become = do
    let wrap = use_become && not (o.user == "root")
    let here = local_socket o.host use_become
    let there = remote_socket use_become
    ensure_remote_daemon env tools o binaries there wrap
    ensure_ssh_forwarding env tools o here there
    done ← try_again env 5 here
    if done
        then pure tt
        else raise (
            connection_failure ("fastagent: failed to connect to local forwarding socket " <> here))

  unfoldable pub connect : Run World (Unit {0})
  unfolding bootstrap
  connect = do
    connected ← gets (λ w. w.connected)
    if connected then pure tt else (do
      use_become ← gets (λ w. w.use_become)
      done ← try_local_socket env (local_socket o.host use_become)
      if done then pure tt else bootstrap use_become)

  unfoldable pub reset : Run World (Unit {0})
  reset = do modify close; connect

  abbrev pub connection : Link
  connection = record { connect = connect }
