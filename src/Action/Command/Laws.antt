-- ===== src/Action/Command/Laws.antt =====
-- What a command task sends.
use ansible_go.Base.{◌≡◌, refl, String, true, List, contains, Option, ◌⊎◌, inl, inr}
use ansible_go.Value.{Value, null, list, Values, nil, cons, Dict, get}
use ansible_go.Run.Keeps.{Keeps, Keeps-then, keeps_rules}
use ansible_go.Env.{Env, Event, rpc}
use ansible_go.Client
use ansible_go.Params.Laws.{exec_params_members}
use ansible_go.World.{Task, World, Link}
use ansible_go.World.Laws.{Only, OnlyOn, IsLawful, Sends, Only-execute_module, OnlyOn-call}
use ansible_go.World.Become.{
  OnlyAs, OnlyAs-bind, OnlyAs-on_client, OnlyAs-execute_module, OnlyAs-connect,
}
use ansible_go.Action.Command.{
  builtin, Order, run_builtin_command, read_order, split, merge_environment,
  compute_environment_dict, exec_args, user_or_null, finished, execute, perform, decide, run,
}

module _ (env : Env) where
  module _ {P : World → Type 0} where
    Keeps-split : (uses_shell cmd_string : Value) → Keeps P (split env uses_shell cmd_string)
    unfolding split
    Keeps-split uses_shell cmd_string = search keeps_rules

    Keeps-read_order : (args : Dict) → Keeps P (read_order env args)
    unfolding read_order
    Keeps-read_order args = search (keeps_rules, Keeps-split) depth 8

  module _ (link : Link) (task : Task) (methods modules : List String)
      (known : contains modules builtin ≡ true) where
    abbrev Quiet : World → Type 0
    Quiet = Only (Sends methods modules)

    Quiet-run_builtin_command : (result : Dict) → Keeps Quiet (run_builtin_command env task result)
    unfolding run_builtin_command
    Quiet-run_builtin_command result = search (keeps_rules, Only-execute_module, known)

    -- In check mode a command task sends the agent nothing, and runs no module but the builtin
    -- one: the command itself is never run by the agent. Every list of methods is kept, and every
    -- list of modules with that one.
    pub command_check_mode : task.play.check_mode ≡ true → Keeps Quiet (run env link task)
    unfolding run decide
    command_check_mode check =
        search (Keeps-then, keeps_rules, Keeps-read_order, Quiet-run_builtin_command) depth 20

-- An Exec request asks the agent to run as the user: the member `become_user` is the user, and
-- None where there is none.
abbrev pub ExecsAs : Option String → Event → Type 0
ExecsAs user (rpc r) =
    (r.method ≡ "Hello") ⊎ ((r.method ≡ "Exec") × (get r.params "become_user" ≡ user_or_null user))
ExecsAs user e = Unit

module _ (env : Env) (task : Task) (user : Option String) where
  abbrev As : World → Type 0
  As = OnlyAs (ExecsAs user) task.play user

  OnlyOn-exec :
      (o : Order) (task_env : Dict)
      → Keeps (OnlyOn (ExecsAs user)) (Client.exec env (exec_args o task_env user))
  unfolding Client.exec exec_args
  OnlyOn-exec o task_env =
      OnlyOn-call env "Exec" _
        (λ id. inr (refl, (exec_params_members (exec_args o task_env user)).11))

  As-run_builtin_command : (result : Dict) → Keeps As (run_builtin_command env task result)
  unfolding run_builtin_command
  As-run_builtin_command result = search (keeps_rules, OnlyAs-execute_module)

  As-execute : (o : Order) (result task_env : Dict) → Keeps As (execute env o result task_env user)
  unfolding execute finished
  As-execute o result task_env = search (keeps_rules, OnlyAs-on_client, OnlyOn-exec) depth 16

  As-merge_environment : (final : Dict) (vs : Values) → Keeps As (merge_environment env final vs)
  unfolding merge_environment
  As-merge_environment final nil = search keeps_rules
  As-merge_environment final (cons v vs) =
      let rest = λ (d : Dict). As-merge_environment d vs in search (keeps_rules, rest) depth 8

  As-compute_environment_dict : (v : Value) → Keeps As (compute_environment_dict env v)
  unfolding compute_environment_dict
  As-compute_environment_dict null = search keeps_rules
  As-compute_environment_dict (list vs) = search As-merge_environment
  As-compute_environment_dict _ = search As-merge_environment

  module _ (link : Link) (L : IsLawful link) where
    As-connect : Keeps As link.connect
    As-connect = OnlyAs-connect _ task.play user link L (λ s. tt) (λ r h. inl h)

    As-perform : (o : Order) (result : Dict) → Keeps As (perform env link task o result)
    unfolding perform
    As-perform o result =
        search
          (
            OnlyAs-bind, keeps_rules, As-run_builtin_command, As-connect,
            As-compute_environment_dict, As-execute,
          )
          depth 12

    -- Over a lawful connection, every command that a task sends to the agent is sent to run as the
    -- task's become user, and with no user where the task has none; no other request but the
    -- handshake is sent.
    pub command-ExecsAs : Keeps As (run env link task)
    unfolding run decide
    command-ExecsAs =
        search (keeps_rules, Keeps-read_order, As-run_builtin_command, As-perform) depth 20
