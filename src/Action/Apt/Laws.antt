-- ===== src/Action/Apt/Laws.antt =====
-- Which apt tasks reach the agent.
use ansible_go.Base.{◌≡◌, String, true, List, contains}
use ansible_go.Run.Keeps.{Keeps, Keeps-then, keeps_rules}
use ansible_go.Env.{Env}
use ansible_go.World.{Task, Link}
use ansible_go.World.Laws.{Only, IsLawful, Sends, Sends-connect, Only-run_builtin}
use ansible_go.Action.Apt.{builtin, run}

module _ (env : Env) (link : Link) (L : IsLawful link) (task : Task) where
  -- Over a lawful connection, in check mode an apt task sends the agent nothing but the handshake,
  -- and runs no module but the builtin one: it keeps every list of methods, and every list of
  -- modules with that one.
  pub apt_check_mode :
      (methods modules : List String)
      → contains modules builtin ≡ true
      → task.play.check_mode ≡ true
      → Keeps (Only (Sends methods modules)) (run env link task)
  unfolding run
  apt_check_mode methods modules known check =
      search (Keeps-then, keeps_rules, Only-run_builtin, Sends-connect link L, known) depth 12
