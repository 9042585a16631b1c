-- ===== src/Action/Apt/Failures.antt =====
-- An apt task whose agent is down.
use ansible_go.Value.{Dict}
use ansible_go.Run.Returns.{Returns}
use ansible_go.Env.{Env}
use ansible_go.Failure.{IsFailed}
use ansible_go.World.Down.{IsDown, failure_rules}
use ansible_go.Action.Apt.{apply}

-- Behind the connect, an apt task whose agent is down is reported as failed.
pub apt_down :
    (env : Env) → IsDown env → (args result : Dict) → Returns IsFailed (apply env args result)
unfolding apply
apt_down env down args result = search failure_rules depth 10
