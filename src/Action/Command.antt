-- ===== src/Action/Command.antt =====
-- The command and shell action (plugins/action/command.py).
use ansible_go.Base.{
  String, Bool, true, false, not, ◌&&◌, ◌||◌, ◌==◌, any, has_text, starts_with, ◌<>◌, is_some,
  Option, none, some, List, [], ◌∷◌, if◌then◌else◌,
}
use ansible_go.Value.{
  Value, null, bool, nat, str, list, dict, Values, nil, cons, Dict, empty, entry, get_or, get, set,
  update, truthy, or_value, is_none, eq_nat, texts, iterate,
}
use ansible_go.Run.{
  bad_value, ansible_error, Result, ok, err, Run, pure, raise, lift, gets, attempt, handle, ◌>>=◌,
  ◌>>◌,
}
use ansible_go.Env.{Env, text_of}
use ansible_go.Client
use ansible_go.Params.{ExecArgs}
use ansible_go.Failure.{failed_with}
use ansible_go.World.{Task, World, Link, get_become_user, on_client, execute_module}
pub mod Laws
pub mod Failures

abbrev pub builtin : String
builtin = "ansible.builtin.command"

-- The arguments of a command task and what is computed from them: `argv` is none where it is
-- absent or empty, and `parts` is none where the command is not split.
pub record Order : Type 0 where
  pub uses_shell : Value
  pub cmd_string : Value
  pub argv : Option (List String)
  pub parts : Option (List String)
  pub args : Dict

-- `arg.startswith("~") or "$" in arg`
abbrev pub expands : String → Bool
expands arg = starts_with arg "~" || has_text "$" arg

-- `for arg in …: if arg.startswith("~") or "$" in arg: return …`, where only a text has
-- `startswith`
unfoldable pub any_expands : Values → Result Bool
any_expands nil = ok false
any_expands (cons (str s) vs) = if expands s then ok true else any_expands vs
any_expands (cons v vs) = err (bad_value "object has no attribute 'startswith'")

unfoldable pub scan_value : Option Values → Result Bool
unfolding any_expands
scan_value (some vs) = any_expands vs
scan_value none = err (bad_value "object is not iterable")

-- The scan for `~` and `$`, over `r["cmd"] or []`
unfoldable pub scan : Order → Result Bool
unfolding scan_value
scan o = elim o.argv [
  | some argv ↦ ok (any expands argv)
  | none ↦ elim o.parts [
    | some (x ∷ more) ↦ ok (any expands (x ∷ more))
    | _ ↦ if truthy o.cmd_string then scan_value (iterate o.cmd_string) else ok false
  ]
]

-- `r["cmd"]`
unfoldable pub cmd_of : Order → Value
cmd_of o = elim o.argv [
  | some argv ↦ list (texts argv)
  | none ↦ elim o.parts [ some (x ∷ more) ↦ list (texts (x ∷ more)) | _ ↦ o.cmd_string ]
]

abbrev pub is_guarded : Dict → Bool
is_guarded args = truthy (get args "creates") || truthy (get args "removes")

-- The dict `r`, before the command runs.
unfoldable pub blank : Order → Dict
unfolding cmd_of
blank o = entry "changed" (bool false) (
    entry "stdout" (str "") (
      entry "stderr" (str "") (
        entry "rc" null (
          entry "cmd" (cmd_of o) (
            entry "start" null
              (entry "end" null (entry "delta" null (entry "msg" (str "") empty))))))))

texts_or_null : Option (List String) → Value
texts_or_null none = null
texts_or_null (some ws) = list (texts ws)

unfoldable pub user_or_null : Option String → Value
user_or_null none = null
user_or_null (some user) = str user

-- The arguments of the Exec RPC: the words of the command, or the text that a shell reads.
unfoldable pub exec_args : Order → Dict → Option String → ExecArgs
unfolding texts_or_null user_or_null
exec_args o task_env user = record {
  argv = elim o.argv [
    | some argv ↦ list (texts argv)
    | none ↦ if truthy o.uses_shell then null else texts_or_null o.parts
  ];
  cmd_string = elim o.argv [
    | some argv ↦ null
    | none ↦ if truthy o.uses_shell then o.cmd_string else null
  ];
  use_shell = o.uses_shell;
  cwd = get o.args "chdir";
  env = or_value (dict task_env) null;
  stdin = get o.args "stdin";
  timeout = null;
  creates = get o.args "creates";
  removes = get o.args "removes";
  stdin_add_newline = get_or o.args "stdin_add_newline" (bool true);
  strip_empty_ends = get_or o.args "strip_empty_ends" (bool true);
  become_user = user_or_null user;
}

module _ (env : Env) where
  -- `_run_builtin_command`; the connection has no native async.
  unfoldable pub run_builtin_command : Task → Dict → Run World Dict
  run_builtin_command task result = do
    answer ← execute_module env builtin task.async_val
    pure (env.merge_hash result answer)

  -- `{str(k): str(v) for k, v in templated.items()}`
  rendered : Dict → Dict
  rendered empty = empty
  rendered (entry k v d) = entry k (str (text_of env v)) (rendered d)

  merge_templated : Dict → Value → Result Dict
  unfolding rendered
  merge_templated final (dict d) = ok (update final (rendered d))
  merge_templated final v = err (ansible_error "environment must template to a dict")

  -- The loop of `_compute_environment_dict`.
  merge_environment : Dict → Values → Run World Dict
  unfolding merge_templated
  merge_environment final nil = pure final
  merge_environment final (cons v vs) = do
    final ←
        (if truthy v
          then (do templated ← lift (env.template v); lift (merge_templated final templated))
          else pure final)
    merge_environment final vs

  unfoldable pub compute_environment_dict : Value → Run World Dict
  unfolding merge_environment
  compute_environment_dict null = pure empty
  compute_environment_dict (list vs) = merge_environment empty vs
  compute_environment_dict v = merge_environment empty (cons v nil)

  -- `[to_text(arg) for arg in argv]`
  to_texts : Values → List String
  to_texts nil = []
  to_texts (cons v vs) = env.to_text v ∷ to_texts vs

  argv_of : Dict → Result (Option (List String))
  unfolding to_texts
  argv_of args =
      let argv = get args "argv" in
      let read : Result (Option (List String)) = elim (iterate argv) [
        | some (cons v vs) ↦ ok (some (to_texts (cons v vs)))
        | some nil ↦ ok none
        | none ↦ err (bad_value "object is not iterable")
      ] in
      if truthy argv then read else ok none

  split : Value → Value → Run World (Option (List String))
  split uses_shell cmd_string =
      if not (truthy uses_shell) && truthy cmd_string
      then (do parts ← lift (env.shlex_split cmd_string); pure (some parts))
      else pure none

  -- The command to run.
  unfoldable pub read_order : Dict → Run World Order
  unfolding argv_of split
  read_order args = do
    let uses_shell = get_or args "_uses_shell" (bool false)
    let raw = or_value (get_or args "_raw_params" (str "")) (get_or args "cmd" (str ""))
    let cmd_string = or_value raw (str "")
    argv ← lift (argv_of args)
    parts ← split uses_shell cmd_string
    pure (record {
      uses_shell = uses_shell;
      cmd_string = cmd_string;
      argv = argv;
      parts = parts;
      args = args;
    })

  -- The dict `r` of a task in check mode.
  skipped : Dict → Dict → Dict
  skipped args r =
      let r = set r "changed" (bool true) in
      let r = set (set r "rc" (nat 0)) "msg" (str "Command would have run if not in check mode") in
      if is_none (get args "creates") && is_none (get args "removes")
      then set (set r "skipped" (bool true)) "changed" (bool false)
      else r

  -- The dict `r` behind an answer of the agent.
  finished : Dict → Dict → Run World Dict
  finished r reply = do
    let r = set r "rc" (get_or reply "rc" (nat 0))
    let r = set r "stdout" (get_or reply "stdout" (str ""))
    let r = set r "stderr" (get_or reply "stderr" (str ""))
    let r = set r "changed" (get_or reply "changed" (get r "changed"))
    let r = set r "msg" (get_or reply "msg" (get r "msg"))
    let r = if truthy (get reply "skipped") then set r "skipped" (bool true) else r
    let r = set (set r "start" (str env.start_time)) "end" (str env.end_time)
    let r = set r "delta" (str env.delta_time)
    stdout_lines ← lift (env.splitlines (get r "stdout"))
    stderr_lines ← lift (env.splitlines (get r "stderr"))
    let r = set (set r "stdout_lines" stdout_lines) "stderr_lines" stderr_lines
    let message : String = "The command exited with a non-zero return code."
    let bad = set (set r "msg" (str message)) "failed" (bool true)
    pure (if not (eq_nat (get r "rc") 0) then bad else r)

  -- The Exec RPC and its result.
  unfoldable pub execute : Order → Dict → Dict → Option String → Run World Dict
  unfolding finished
  execute o result task_env user = do
    let r = set (blank o) "changed" (bool true)
    answer ← attempt (on_client (Client.exec env (exec_args o task_env user)))
    handle answer
        (λ e. pure (
          env.merge_hash result (
            set (set (set r "rc" (nat 1)) "msg" (str ("fastagent exec failed: " <> env.show_exn e)))
              "failed" (bool true))))
        λ reply. do r ← finished r reply; pure (env.merge_hash result r)

  module _ (link : Link) where
    -- The task, behind the tests for the builtin module and for check mode.
    perform : Task → Order → Dict → Run World Dict
    unfolding execute
    perform task o result = do
      user ← gets (get_become_user task.play)
      if is_some user && is_guarded o.args then run_builtin_command task result else (do
        link.connect
        task_env ← compute_environment_dict task.environment
        execute o result task_env user)

    -- The tests of `run`, behind the reading of the arguments.
    unfoldable pub decide : Task → Order → Dict → Run World Dict
    unfolding perform skipped
    decide task o result = do
      become ← gets (λ w. w.become)
      let check_mode = task.play.check_mode
      let scans =
          not (truthy o.uses_shell) && truthy (get_or o.args "expand_argument_vars" (bool true))
      if is_some become
          then run_builtin_command task result
          else if truthy (get o.args "executable")
          then run_builtin_command task result
          else (do
            expanded ← lift (if scans then scan o else ok false)
            if expanded
                then run_builtin_command task result
                else if check_mode && is_guarded o.args
                then run_builtin_command task result
                else if check_mode
                then pure (env.merge_hash result (skipped o.args (blank o)))
                else perform task o result)

    unfoldable pub run : Task → Run World Dict
    unfolding decide
    run task = do
      result ← lift env.base_run
      if not (task.transport == "fastagent")
          then run_builtin_command task result
          else (do o ← read_order task.args; decide task o result)
