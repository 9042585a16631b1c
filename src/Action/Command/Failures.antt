-- ===== src/Action/Command/Failures.antt =====
-- A command whose agent is down.
use ansible_go.Base.{◌≡◌, refl, Option, String, true}
use ansible_go.Value.{bool, Dict, set}
use ansible_go.Value.Laws.{dict_laws}
use ansible_go.Run.Returns.{Returns}
use ansible_go.Env.{Env}
use ansible_go.Failure.{IsFailed}
use ansible_go.World.Down.{IsDown, failure_rules}
use ansible_go.Action.Command.{Order, execute}

-- The task's result, merged with a dict that marks the command as failed.
abbrev pub MergesFailure : Env → Dict → Dict → Type 0
MergesFailure env result d = (r : Dict) × (d ≡ env.merge_hash result r) × IsFailed r

MergesFailure-set :
    (env : Env) (result r : Dict)
    → MergesFailure env result (env.merge_hash result (set r "failed" (bool true)))
MergesFailure-set env result r = (set r "failed" (bool true), refl, simp dict_laws)

-- Behind the connect, a command whose agent is down returns a result that is merged with a failure.
pub command_down :
    (env : Env)
    → IsDown env
    → (o : Order) (result task_env : Dict) (user : Option String)
    → Returns (MergesFailure env result) (execute env o result task_env user)
unfolding execute
command_down env down o result task_env user = search (failure_rules, MergesFailure-set) depth 10
