-- ===== src/Action/Stat/Failures.antt =====
-- A stat task whose agent is down.
use ansible_go.Base.{String, Bool}
use ansible_go.Value.{Value, Dict}
use ansible_go.Run.Returns.{Returns}
use ansible_go.Env.{Env}
use ansible_go.Failure.{IsFailed}
use ansible_go.World.Down.{IsDown, failure_rules}
use ansible_go.Action.Stat.{query}

-- Behind the connect, a stat task whose agent is down is reported as failed, and never as a path
-- that does not exist.
pub stat_down :
    (env : Env)
    → IsDown env
    → (result : Dict) (path : Value) (follow get_checksum : Bool) (algorithm : String)
    → Returns IsFailed (query env result path follow get_checksum algorithm)
unfolding query
stat_down env down result path follow get_checksum algorithm = search failure_rules depth 10
