-- ===== src/Action/File.antt =====
-- The file action (plugins/action/file.py): one definition for each state that a task asks for.
use ansible_go.Base.{String, Bool, true, false, not, ◌&&◌, ◌||◌, ◌==◌, ◌<>◌, is_some, if◌then◌else◌}
use ansible_go.Value.{
  Value, null, bool, nat, str, Dict, empty, entry, get_or, get, set, update, truthy, or_value,
  eq_text,
}
use ansible_go.Run.{Result, Run, pure, lift, gets, attempt, handle, ◌>>=◌, ◌>>◌}
use ansible_go.Env.{Env, text_of}
use ansible_go.Client
use ansible_go.Params.{FileArgs}
use ansible_go.FileState.{format_octal_mode, requires_builtin_file, infer_file_state}
use ansible_go.Failure.{failed, failed_with}
use ansible_go.World.{Task, World, Link, get_become_user, on_client, run_builtin}
pub mod Laws
pub mod Failures

abbrev pub builtin : String
builtin = "ansible.builtin.file"

-- The arguments of a task, behind the tests for the builtin module.
pub record Wish : Type 0 where
  pub path : Value
  pub owner : Value
  pub group : Value
  pub mode : Value
  pub src : Value
  pub recurse : Bool
  pub follow : Bool
  pub check_mode : Bool

-- `result["changed"] = changed; result["path"] = path; result["state"] = state`
abbrev pub reported : Dict → Value → Value → Value → Dict
reported result changed path state =
    set (set (set result "changed" changed) "path" path) "state" state

module _ (env : Env) where
  abbrev exists_of : Dict → Value
  exists_of reply = get_or reply "exists" (bool false)

  -- `client.file(…)` with the owner, the group and the mode of the task
  abbrev pub file_args : Wish → Value → FileArgs
  file_args w state = record {
    path = w.path;
    state = state;
    owner = w.owner;
    group = w.group;
    mode = format_octal_mode env w.mode;
    recurse = false;
    follow = true;
    src = null;
  }

  abbrev send : FileArgs → Run World (Result Dict)
  send args = attempt (on_client (Client.file env args))

  abbrev look : Value → Bool → Run World (Result Dict)
  look path follow = attempt (on_client (Client.stat env path follow false null))

  -- state=absent
  absent : Dict → Wish → Run World Dict
  absent result w =
      if w.check_mode
      then (do
        answer ← look w.path false
        handle answer (λ e. pure (reported result (bool false) w.path (str "absent")))
            (λ reply. pure (reported result (exists_of reply) w.path (str "absent"))))
      else (do
        answer ← send (record {
          path = w.path;
          state = str "absent";
          owner = null;
          group = null;
          mode = null;
          recurse = false;
          follow = true;
          src = null;
        })
        handle answer (λ e. pure (failed_with env result "fastagent file absent failed: " e))
            (λ reply.
              pure (reported result (get_or reply "changed" (bool false)) w.path (str "absent"))))

  -- state=directory
  directory : Dict → Wish → Run World Dict
  directory result w =
      if w.check_mode
      then (do
        answer ← look w.path w.follow
        handle answer (λ e. pure (reported result (bool true) w.path (str "directory")))
            (λ reply.
              pure
                (reported result (bool (not (truthy (exists_of reply)))) w.path (str "directory"))))
      else (do
        answer ←
            send (record (file_args w (str "directory")) { recurse = w.recurse; follow = w.follow })
        handle answer (λ e. pure (failed_with env result "fastagent file directory failed: " e))
            (λ reply.
              pure (set (set (update result reply) "path" w.path) "state" (str "directory"))))

  -- state=touch
  touch : Dict → Wish → Run World Dict
  touch result w =
      if w.check_mode then pure (reported result (bool true) w.path (str "file")) else (do
        answer ← send (file_args w (str "touch"))
        handle answer (λ e. pure (failed_with env result "fastagent file touch failed: " e))
            (λ reply. pure (set (update result reply) "path" w.path)))

  -- state=link and state=hard
  link : Dict → Value → Wish → Run World Dict
  link result state w =
      if not (truthy w.src)
      then pure (failed result "src is required for state=link/hard")
      else if w.check_mode
      then pure (reported result (bool true) w.path state)
      else (do
        answer ← send (record (file_args w state) { src = w.src })
        handle answer (λ e. pure (failed_with env result "fastagent file link failed: " e))
            (λ reply. pure (set (update result reply) "path" w.path)))

  -- `result[k] = stat_result.get(k, default)`, for the fields that Ansible expects
  stat_fields : Dict → Dict → Dict
  stat_fields result reply =
      let result = set result "uid" (get_or reply "uid" (nat 0)) in
      let result = set result "gid" (get_or reply "gid" (nat 0)) in
      let result = set result "owner" (get_or reply "owner" (str "")) in
      let result = set result "group" (get_or reply "group" (str "")) in
      let result = set result "mode" (get_or reply "mode" (str "")) in
      set result "size" (get_or reply "size" (nat 0))

  -- state=file, for a file that is there: the change, and then a look at the outcome. An
  -- exception of either call is reported, with what was written to the result before it.
  attributes : Dict → Wish → Run World Dict
  unfolding stat_fields
  attributes result w = do
    answer ← send (file_args w (str "file"))
    handle answer (λ e. pure (failed_with env result "fastagent file failed: " e))
        λ reply. do
          let result = set (set (update result reply) "path" w.path) "state" (str "file")
          seen ← look w.path w.follow
          handle seen (λ e. pure (failed_with env result "fastagent file failed: " e))
              (λ found. pure (stat_fields result found))

  -- state=file
  regular : Dict → Wish → Run World Dict
  unfolding attributes
  regular result w = do
    answer ← look w.path w.follow
    handle answer (λ e. pure (failed_with env result "fastagent stat failed: " e))
        λ found.
          if not (truthy (get found "exists"))
          then pure (reported result (bool false) w.path (str "absent"))
          else if truthy (get_or found "isdir" (bool false))
          then pure (failed result (text_of env w.path <> " is a directory, cannot use state=file"))
          else if w.check_mode
          then pure (reported result (bool false) w.path (str "file"))
          else attributes result w

  -- The state that was asked for or inferred.
  unfoldable pub dispatch : Dict → Wish → Value → Run World Dict
  unfolding absent directory touch link regular
  dispatch result w state =
      if eq_text state "absent"
      then absent result w
      else if eq_text state "directory"
      then directory result w
      else if eq_text state "touch"
      then touch result w
      else if eq_text state "link" || eq_text state "hard"
      then link result state w
      else regular result w

  -- `requires_builtin_file({…})`
  builtin_query : Dict → Bool → Dict
  builtin_query args follow = entry "state" (get args "state") (
      entry "src" (get args "src") (
        entry "mode" (get args "mode") (
          entry "follow" (bool follow) (
            entry "modification_time" (get args "modification_time") (
              entry "access_time" (get args "access_time") (
                entry "modification_time_format" (get args "modification_time_format")
                  (entry "access_time_format" (get args "access_time_format") empty)))))))

  path_of : Dict → Value
  path_of args = or_value (or_value (get args "path") (get args "dest")) (get args "name")

  unfoldable pub wish : Dict → Bool → Wish
  unfolding path_of
  wish args check_mode = record {
    path = path_of args;
    owner = get args "owner";
    group = get args "group";
    mode = get args "mode";
    src = get args "src";
    recurse = env.boolean (get_or args "recurse" (bool false));
    follow = env.boolean (get_or args "follow" (bool true));
    check_mode = check_mode;
  }

  module _ (connection : Link) where
    fast_path : Task → Dict → Wish → Run World Dict
    unfolding builtin_query
    fast_path task result w =
        if not (truthy w.path)
        then pure (failed result "path is required")
        else if requires_builtin_file env (builtin_query task.args w.follow)
        then run_builtin env builtin result
        else (do
          connection.connect
          state ← attempt (
              on_client
                (infer_file_state env w.path (get task.args "state") w.src w.recurse w.follow))
          handle state (λ e. pure (failed_with env result "fastagent stat failed: " e))
              (dispatch result w))

    unfoldable pub run : Task → Run World Dict
    unfolding fast_path wish
    run task = do
      result ← lift env.base_run
      if not (task.transport == "fastagent") then run_builtin env builtin result else (do
        user ← gets (get_become_user task.play)
        if is_some user
            then run_builtin env builtin result
            else fast_path task result (wish task.args task.play.check_mode))
