-- ===== src/World/Down.antt =====
-- An agent that is down: no request gets a response.
use ansible_go.Base.{ℕ, ◌≡◌, refl, String, Bool, Option, none, some, List}
use ansible_go.Value.{Value, Dict}
use ansible_go.Run.{Exn, err, no_client, Run}
use ansible_go.Run.Fails.{Fails}
use ansible_go.Run.Returns.{Returns-pure, Returns-handle_err}
use ansible_go.Run.Fails.{Returns-attempt-Fails}
use ansible_go.Failure.{IsFailed-failed}
use ansible_go.Env.{Event, Response, closed, broken, reply, Env}
use ansible_go.Client
use ansible_go.Client.{Channel, call, read_response}
use ansible_go.Params.{ExecArgs, WriteArgs, FileArgs, ServiceArgs}
use ansible_go.World.{World, use_client, on_client}

-- The stream is at its end, or the transport raises.
abbrev pub IsLost : Response → Type 0
IsLost closed = Unit
IsLost (broken e) = Unit
IsLost (reply r) = ⊥

abbrev pub IsDown : Env → Type 0
IsDown env = (log : List Event) → IsLost (env.agent log)

module _ (env : Env) (down : IsDown env) where
  lost : (id : ℕ) (r : Response) → IsLost r → (e : Exn) × (read_response env id r ≡ err e)
  unfolding read_response
  lost id closed h = (_, refl)
  lost id (broken e) h = (e, refl)
  lost id (reply r) h = absurd h

  pub Fails-call : (method : String) (params : Dict) → Fails (call env method params)
  unfolding call
  Fails-call method params = record { at = λ ch. lost ch.next_id _ (down _) }

  pub Fails-stat :
      (path : Value) (follow checksum : Bool) (algorithm : Value)
      → Fails (Client.stat env path follow checksum algorithm)
  unfolding Client.stat
  Fails-stat path follow checksum algorithm = Fails-call _ _

  pub Fails-exec : (a : ExecArgs) → Fails (Client.exec env a)
  unfolding Client.exec
  Fails-exec a = Fails-call _ _

  pub Fails-read_file : (path : Value) → Fails (Client.read_file env path)
  unfolding Client.read_file
  Fails-read_file path = Fails-call _ _

  pub Fails-write_file : (a : WriteArgs) → Fails (Client.write_file env a)
  unfolding Client.write_file
  Fails-write_file a = Fails-call _ _

  pub Fails-file : (a : FileArgs) → Fails (Client.file env a)
  unfolding Client.file
  Fails-file a = Fails-call _ _

  pub Fails-service : (a : ServiceArgs) → Fails (Client.service env a)
  unfolding Client.service
  Fails-service a = Fails-call _ _

-- Without a client a method raises too.
Fails-use_client :
    {A : Type 0} (m : Run Channel A) (c : Option ℕ) (w : World)
    → Fails m
    → (e : Exn) × ((use_client m c w).0 ≡ err e)
unfolding use_client
Fails-use_client m none w k = (no_client, refl)
Fails-use_client m (some n) w k = k.at (record { next_id = n; log = w.log })

pub Fails-on_client : {A : Type 0} (m : Run Channel A) → Fails m → Fails (on_client m)
unfolding on_client
Fails-on_client m k = record { at = λ w. Fails-use_client m w.client w k }

pub ruleset down_rules = (
  Fails-on_client, Fails-call, Fails-stat, Fails-exec, Fails-read_file, Fails-write_file,
  Fails-file, Fails-service,
)

-- A task whose agent is down fails: the rules for it.
pub ruleset failure_rules =
    (Returns-pure, Returns-handle_err, Returns-attempt-Fails, IsFailed-failed, down_rules)
