-- ===== src/Action/Systemd/Failures.antt =====
-- A systemd task whose agent is down.
use ansible_go.Base.{◌≡◌, true, false}
use ansible_go.Value.{Dict}
use ansible_go.Run.Returns.{Returns, Returns-if}
use ansible_go.Env.{Env}
use ansible_go.Failure.{IsFailed}
use ansible_go.World.Down.{IsDown, failure_rules}
use ansible_go.Value.{truthy}
use ansible_go.Action.Systemd.{name_of, manage, settle, apply}

module _ (env : Env) (down : IsDown env) (args result : Dict) where
  IsFailed-manage : Returns IsFailed (manage env args result)
  unfolding manage
  IsFailed-manage = search failure_rules depth 10

  IsFailed-settle : truthy (name_of args) ≡ true → Returns IsFailed (settle env args false result)
  unfolding settle
  IsFailed-settle named = rw named IsFailed-manage

  -- Outside check mode, a systemd task that names a unit and whose agent is down is reported as
  -- failed, with a reload and without.
  pub systemd_down : truthy (name_of args) ≡ true → Returns IsFailed (apply env args false result)
  unfolding apply
  systemd_down named = search (Returns-if, failure_rules, IsFailed-settle) depth 10
