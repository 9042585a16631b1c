-- ===== src/Action/Systemd.antt =====
-- The systemd action (plugins/action/systemd.py).
use ansible_go.Base.{String, Bool, true, false, not, ◌&&◌, ◌||◌, ◌==◌, ◌<>◌, [], ◌∷◌, if◌then◌else◌}
use ansible_go.Value.{
  Value, null, bool, nat, str, list, Dict, get_or, get, has, set, truthy, or_value, is_none,
  eq_text, eq_nat, texts,
}
use ansible_go.Run.{Run, pure, lift, attempt, handle, ◌>>=◌, ◌>>◌}
use ansible_go.Env.{Env, text_of}
use ansible_go.Client
use ansible_go.Params.{ExecArgs}
use ansible_go.Failure.{failed, failed_with}
use ansible_go.World.{Task, World, Link, on_client, run_builtin}
pub mod Laws
pub mod Failures

abbrev pub builtin : String
builtin = "ansible.builtin.systemd"

-- `exec(argv=["systemctl", "daemon-reload"])`
abbrev pub reload_args : ExecArgs
reload_args = record {
  argv = list (texts ("systemctl" ∷ "daemon-reload" ∷ []));
  cmd_string = null;
  use_shell = bool false;
  cwd = null;
  env = null;
  stdin = null;
  timeout = null;
  creates = null;
  removes = null;
  stdin_add_newline = bool true;
  strip_empty_ends = bool true;
  become_user = null;
}

abbrev pub name_of : Dict → Value
name_of args = or_value (or_value (get args "name") (get args "service")) (get args "unit")

module _ (env : Env) where
  abbrev flag : Dict → String → Bool
  flag args k = env.boolean (get_or args k (bool false))

  -- Features that the fast path does not have.
  unfoldable pub needs_builtin : Dict → Bool
  needs_builtin args =
      not (is_none (get args "masked"))
      || not (eq_text (get_or args "scope" (str "system")) "system")
      || flag args "daemon_reexec"

  unfoldable pub manage : Dict → Dict → Run World Dict
  manage args result = do
    let name = name_of args
    let enabled = get args "enabled"
    answer ← attempt (
        on_client (
          Client.service env (record {
            name = name;
            manager = "systemd";
            state = get args "state";
            enabled = if is_none enabled then enabled else bool (env.boolean enabled);
            no_block = flag args "no_block";
          })))
    handle answer (λ e. pure (failed_with env result "fastagent systemd failed: " e))
        λ reply. do
          let changed = or_value (get_or reply "changed" (bool false)) (bool false)
          let result = set (set result "changed" changed) "name" name
          let state = get reply "state"
          let result = if truthy state then set result "state" state else result
          pure (if has reply "enabled" then set result "enabled" (get reply "enabled") else result)

  -- The part behind the reload.
  unfoldable pub settle : Dict → Bool → Dict → Run World Dict
  unfolding manage
  settle args check_mode result =
      let name = name_of args in
      if not (truthy name)
      then pure (set result "changed" (bool false))
      else if check_mode
      then pure (set (set result "changed" (bool true)) "name" name)
      else manage args result

  unfoldable pub apply : Dict → Bool → Dict → Run World Dict
  unfolding settle
  apply args check_mode result =
      if flag args "daemon_reload" && not check_mode
      then (do
        answer ← attempt (on_client (Client.exec env reload_args))
        handle answer (λ e. pure (failed_with env result "daemon-reload failed: " e))
            λ reply.
              if not (eq_nat (get_or reply "rc" (nat 1)) 0)
              then pure (
                  failed result
                    ("daemon-reload failed: " <> text_of env (get_or reply "stderr" (str ""))))
              else settle args check_mode result)
      else settle args check_mode result

  module _ (link : Link) where
    unfoldable pub run : Task → Run World Dict
    unfolding needs_builtin apply
    run task = do
      result ← lift env.base_run
      if not (task.transport == "fastagent") then run_builtin env builtin result else (do
        link.connect
        if needs_builtin task.args
            then run_builtin env builtin result
            else apply task.args task.play.check_mode result)
