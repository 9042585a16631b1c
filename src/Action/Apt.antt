-- ===== src/Action/Apt.antt =====
-- The apt action (plugins/action/apt.py).
use ansible_go.Base.{String, Bool, true, false, not, ◌&&◌, ◌==◌, if◌then◌else◌}
use ansible_go.Value.{Value, bool, nat, str, Dict, empty, entry, get_or, has, set, truthy, eq_text}
use ansible_go.Run.{Run, pure, lift, gets, attempt, handle, ◌>>=◌, ◌>>◌}
use ansible_go.Env.{Env}
use ansible_go.Client
use ansible_go.Failure.{failed_with}
use ansible_go.World.{Task, World, Link, on_client, run_builtin}
pub mod Args
pub mod Laws
pub mod Plain
pub mod Defaults
pub mod Names
pub mod Failures
use Args.{should_fallback, names_of, as_list}

abbrev pub builtin : String
builtin = "ansible.builtin.apt"

-- `installed` is `present`, and `removed` is `absent`.
abbrev pub normalize_state : Value → Value
normalize_state state =
    if eq_text state "installed"
    then str "present"
    else if eq_text state "removed"
    then str "absent"
    else state

module _ (env : Env) where
  -- A time for which the cache is valid asks for an update, unless the task says otherwise.
  unfoldable pub wants_update : Dict → Bool
  wants_update args =
      let asked = get_or args "update_cache" (get_or args "update-cache" (bool false)) in
      let timed = truthy (get_or args "cache_valid_time" (nat 0)) in
      if timed && (not (has args "update_cache") && not (has args "update-cache"))
      then true
      else env.boolean asked

  unfoldable pub package_request : Dict → Dict
  unfolding wants_update
  package_request args = entry "manager" (str "apt") (
      entry "names" (as_list (names_of args)) (
        entry "state" (normalize_state (get_or args "state" (str "present"))) (
          entry "update_cache" (bool (wants_update args))
            (entry "cache_valid_time" (get_or args "cache_valid_time" (nat 0)) empty))))

  unfoldable pub apply : Dict → Dict → Run World Dict
  unfolding package_request
  apply args result = do
    answer ← attempt (on_client (Client.call env "Package" (package_request args)))
    handle answer (λ e. pure (failed_with env result "fastagent apt failed: " e))
        λ reply. do
          let result = set result "changed" (get_or reply "changed" (bool false))
          let result = set result "cache_updated" (get_or reply "cache_updated" (bool false))
          pure (set result "msg" (get_or reply "msg" (str "")))

  module _ (link : Link) where
    unfoldable pub run : Task → Run World Dict
    unfolding apply
    run task = do
      result ← lift env.base_run
      if not (task.transport == "fastagent") then run_builtin env builtin result else (do
        link.connect
        fallback ← lift (should_fallback env task.args)
        if fallback
            then run_builtin env builtin result
            else if task.play.check_mode
            then run_builtin env builtin result
            else apply task.args result)
