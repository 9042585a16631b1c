-- ===== src/Action/Systemd/Laws.antt =====
-- Which systemd tasks reach the agent.
use ansible_go.Base.{◌≡◌, refl, String, Bool, true, List, contains, and-not-true, [], ◌∷◌}
use ansible_go.Value.{Dict}
use ansible_go.Run.Keeps.{Keeps, Keeps-then, Keeps-else, keeps_rules}
use ansible_go.Env.{Env}
use ansible_go.World.{Task, World, Link}
use ansible_go.World.Laws.{Only, IsLawful, Sends, Sends-connect, Only-run_builtin}
use ansible_go.Action.Systemd.{builtin, flag, settle, apply, run}

module _ (env : Env) (methods modules : List String) where
  abbrev Quiet : World → Type 0
  Quiet = Only (Sends methods modules)

  Quiet-settle :
      (args result : Dict) (check_mode : Bool)
      → check_mode ≡ true
      → Keeps Quiet (settle env args check_mode result)
  unfolding settle
  Quiet-settle args result check_mode check = search (Keeps-then, keeps_rules)

  Quiet-apply :
      (args result : Dict) (check_mode : Bool)
      → check_mode ≡ true
      → Keeps Quiet (apply env args check_mode result)
  unfolding apply
  Quiet-apply args result check_mode check =
      Keeps-else _ _ _ (and-not-true (flag env args "daemon_reload") check_mode check)
        (Quiet-settle args result check_mode check)

  module _ (link : Link) (L : IsLawful link) (task : Task) where
    -- Any list of methods is kept, and every list of modules with the builtin one.
    pub systemd-Sends :
        contains modules builtin ≡ true
        → task.play.check_mode ≡ true
        → Keeps Quiet (run env link task)
    unfolding run
    systemd-Sends known check =
        search (keeps_rules, Only-run_builtin, Quiet-apply, Sends-connect link L, known) depth 12

-- Over a lawful connection, in check mode a systemd task sends the agent nothing but the
-- handshake, neither a reload nor a change of a service, and runs no module but the builtin one.
pub systemd_check_mode :
    (env : Env) (link : Link) (L : IsLawful link) (task : Task)
    → task.play.check_mode ≡ true
    → Keeps (Only (Sends [] (builtin ∷ []))) (run env link task)
systemd_check_mode env link L task check =
    systemd-Sends env [] (builtin ∷ []) link L task refl check
