-- ===== src/Connection/Connect/Laws.antt =====
-- `_connect` does what the action plugins rely on.
use ansible_go.Base.{◌≡◌, refl, ℕ, zero, suc, String, Bool, true, false, List, [], ◌∷◌}
use ansible_go.Value.{Dict}
use ansible_go.Run.{Exn, io_error, Result, ok, err}
use ansible_go.Run.Keeps.{
  Keeps, Keeps-bind, Keeps-if, Keeps-pure, Keeps-attempt, Keeps-handle, keeps_rules,
}
use ansible_go.Env.{Step, sleep, Request, Event, rpc, Env}
use ansible_go.Client
use ansible_go.Client.{Channel, call}
use ansible_go.World.{World}
use ansible_go.World.Laws.{Only, OnlyOn, OnlyOn-call}
use ansible_go.Connection.{
  agent_version, Settings, Tools, step, act, open_local, after_probe, probe, path_there,
  try_local_socket, try_again, run_ssh_command,
}
use ansible_go.Connection.Steps.{Logs, Keeps-step, Keeps-act}
use ansible_go.Connection.Daemon.{
  Binaries, detect_remote_arch, upload, ensure_agent_deployed, agent_path_for, restart,
  ensure_remote_daemon,
}
use ansible_go.Connection.Forward.{
  unless_os_or_timeout, kill_all, kill_stale_forwarder, wait_for, ensure_ssh_forwarding,
}
use ansible_go.Connection.Connect.{bootstrap, connect}

-- What steps, the handshake and the search for a binary keep, `_connect` keeps.
module _ (env : Env) (tools : Tools) (binaries : Binaries) (o : Settings) {Q : World → Type 0}
    (logs : Logs Q) (probes : Keeps Q (probe env))
    (finds : (arch : String) → Keeps Q (binaries.find arch)) where
  steps : {A : Type 0} (s : Step) (answer : List Event → Result A) → Keeps Q (step s answer)
  steps s answer = Keeps-step logs s answer

  acts : (s : Step) → Keeps Q (act s)
  acts s = Keeps-act logs s

  Keeps-open_local : (path : String) → Keeps Q (open_local env path)
  unfolding open_local
  Keeps-open_local path = steps _ env.socket_opened

  Keeps-path_there : (path : String) → Keeps Q (path_there env path)
  unfolding path_there
  Keeps-path_there path = steps _ (λ x. ok (env.path_exists x))

  Keeps-try_local_socket : (path : String) → Keeps Q (try_local_socket env path)
  unfolding try_local_socket
  Keeps-try_local_socket path = Keeps-bind _ _ (Keeps-path_there path) (λ there.
      Keeps-if _ _ _ (Keeps-pure false) (
        Keeps-bind _ _ (Keeps-attempt _ (Keeps-open_local path))
          (λ opened. Keeps-handle opened _ _ (λ e. Keeps-pure false) (λ u. probes))))

  Keeps-try_again : (n : ℕ) (path : String) → Keeps Q (try_again env n path)
  unfolding try_again
  Keeps-try_again zero path = search keeps_rules
  Keeps-try_again (suc zero) path = Keeps-try_local_socket path
  Keeps-try_again (suc (suc n)) path = Keeps-bind _ _ (Keeps-try_local_socket path) (λ done.
      Keeps-if done _ _ (Keeps-pure true)
        (Keeps-bind _ _ (acts sleep) (λ u. Keeps-try_again (suc n) path)))

  Keeps-run_ssh_command : (cmd : String) → Keeps Q (run_ssh_command env o cmd)
  unfolding run_ssh_command
  Keeps-run_ssh_command cmd = search (keeps_rules, steps) depth 8

  Keeps-kill_all : (lines : List String) → Keeps Q (kill_all env tools lines)
  unfolding kill_all
  Keeps-kill_all [] = search keeps_rules
  Keeps-kill_all (line ∷ more) =
      Keeps-if _ _ _ (Keeps-kill_all more) (Keeps-bind _ _ (acts _) (λ u. Keeps-kill_all more))

  Keeps-unless_os_or_timeout : (e : Exn) → Keeps Q (unless_os_or_timeout env tools e)
  unfolding unless_os_or_timeout
  Keeps-unless_os_or_timeout (io_error message) = search keeps_rules
  Keeps-unless_os_or_timeout e = search keeps_rules

  Keeps-kill_stale_forwarder : (path : String) → Keeps Q (kill_stale_forwarder env tools path)
  unfolding kill_stale_forwarder
  Keeps-kill_stale_forwarder path =
      search (keeps_rules, steps, Keeps-kill_all, Keeps-unless_os_or_timeout) depth 8

  Keeps-wait_for : (n : ℕ) (path : String) → Keeps Q (wait_for env tools n path)
  unfolding wait_for
  Keeps-wait_for zero path = search keeps_rules
  Keeps-wait_for (suc n) path = Keeps-bind _ _ (Keeps-path_there path) (λ there.
      Keeps-if there _ _ (Keeps-pure tt) (Keeps-bind _ _ (acts sleep) (λ u. Keeps-wait_for n path)))

  Keeps-ensure_ssh_forwarding :
      (here there : String) → Keeps Q (ensure_ssh_forwarding env tools o here there)
  unfolding ensure_ssh_forwarding
  Keeps-ensure_ssh_forwarding here there =
      search (keeps_rules, Keeps-path_there, Keeps-kill_stale_forwarder, Keeps-wait_for, steps)
        depth 16

  Keeps-detect_remote_arch : Keeps Q (detect_remote_arch env tools o)
  unfolding detect_remote_arch
  Keeps-detect_remote_arch = search (keeps_rules, Keeps-run_ssh_command) depth 8

  Keeps-upload : (binary path : String) → Keeps Q (upload env tools o binary path)
  unfolding upload
  Keeps-upload binary path = search (keeps_rules, Keeps-run_ssh_command, steps) depth 12

  Keeps-ensure_agent_deployed :
      (path arch : String) → Keeps Q (ensure_agent_deployed env tools o binaries path arch)
  unfolding ensure_agent_deployed
  Keeps-ensure_agent_deployed path arch =
      search (keeps_rules, Keeps-run_ssh_command, Keeps-upload, finds) depth 12

  Keeps-agent_path_for : (arch : String) → Keeps Q (agent_path_for env tools o arch)
  unfolding agent_path_for
  Keeps-agent_path_for arch = search (keeps_rules, Keeps-run_ssh_command) depth 8

  Keeps-restart :
      (wrap : Bool) (path socket : String) → Keeps Q (restart env tools o wrap path socket)
  unfolding restart
  Keeps-restart wrap path socket = search (keeps_rules, Keeps-run_ssh_command) depth 12

  Keeps-ensure_remote_daemon :
      (socket : String) (wrap : Bool)
      → Keeps Q (ensure_remote_daemon env tools o binaries socket wrap)
  unfolding ensure_remote_daemon
  Keeps-ensure_remote_daemon socket wrap =
      search
        (
          keeps_rules, Keeps-run_ssh_command, Keeps-detect_remote_arch, Keeps-agent_path_for,
          Keeps-ensure_agent_deployed, Keeps-restart,
        )
        depth 16

  Keeps-bootstrap : (use_become : Bool) → Keeps Q (bootstrap env tools binaries o use_become)
  unfolding bootstrap
  Keeps-bootstrap use_become =
      search (keeps_rules, Keeps-ensure_remote_daemon, Keeps-ensure_ssh_forwarding, Keeps-try_again)
        depth 14

  pub Keeps-connect : Keeps Q (connect env tools binaries o)
  unfolding connect
  Keeps-connect = search (keeps_rules, Keeps-try_local_socket, Keeps-bootstrap) depth 14

module _ (env : Env) (tools : Tools) (binaries : Binaries) (o : Settings) where
  -- The handshake: one request.
  OnlyOn-hello :
      {P : Event → Type 0}
      → ((r : Request) → r.method ≡ "Hello" → P (rpc r))
      → Keeps (OnlyOn P) (Client.hello env agent_version)
  unfolding Client.hello Client.check_version
  OnlyOn-hello {P} hellos =
      let called : (params : Dict) → Keeps (OnlyOn P) (call env "Hello" params) =
        λ params. OnlyOn-call env "Hello" params (λ id. hellos _ refl) in
      search (keeps_rules, called) depth 8

  Only-after_probe :
      (P : Event → Type 0) (w : World) (r : Result Dict) (ch : Channel)
      → OnlyOn P ch
      → Only P (after_probe w (r, ch)).1
  unfolding after_probe
  Only-after_probe P w (ok d) ch h = h
  Only-after_probe P w (err e) ch h = h

  pub Only-probe :
      {P : Event → Type 0}
      → ((r : Request) → r.method ≡ "Hello" → P (rpc r))
      → Keeps (Only P) (probe env)
  unfolding probe
  Only-probe hellos = record {
    at = λ w h.
        Only-after_probe _ w _ _ ((OnlyOn-hello hellos).at (record { next_id = 1; log = w.log }) h);
  }

  abbrev pub Becomes : Bool → World → Type 0
  Becomes b w = w.use_become ≡ b

  Becomes-after_probe :
      (b : Bool) (w : World) (r : Result Dict) (ch : Channel)
      → Becomes b w
      → Becomes b (after_probe w (r, ch)).1
  unfolding after_probe
  Becomes-after_probe b w (ok d) ch h = h
  Becomes-after_probe b w (err e) ch h = h

  pub Becomes-probe : (b : Bool) → Keeps (Becomes b) (probe env)
  unfolding probe
  Becomes-probe b = record { at = λ w h. Becomes-after_probe b w _ _ h }
