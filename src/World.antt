-- ===== src/World.antt =====
-- What an action plugin works on: its task, the play context, and the connection object
-- (plugins/connection/fastagent.py) with its become state and its client.
use ansible_go.Base.{
  ℕ, String, Bool, true, false, Option, none, some, List, ◌∷◌, ◌==◌, ◌||◌, if◌then◌else◌,
}
use ansible_go.Value.{Value, null, str, Dict}
use ansible_go.Run.{Result, ok, err, no_client, Run, pure, gets, modify, ◌>>=◌, ◌>>◌}
use ansible_go.Env.{Event, run_module, run_builtin_copy, Env}
use ansible_go.Client.{Channel}
pub mod Laws
pub mod Calls
pub mod Down
pub mod Become
pub mod Answered

-- The part of Ansible's play context that the plugins read.
pub record PlayContext : Type 0 where
  pub check_mode : Bool
  pub diff : Bool
  pub become_user : Option String

pub record Task : Type 0 where
  pub args : Dict
  pub async_val : Bool
  pub environment : Value
  pub play : PlayContext
  -- the connection's `transport`
  pub transport : String

-- The connection object; `client` holds the counter of the client, and `become` the name of a
-- become plugin that was left attached.
pub record World : Type 0 where
  pub connected : Bool
  pub has_socket : Bool
  pub client : Option ℕ
  pub use_become : Bool
  pub become : Option String
  pub log : List Event

-- The method `_connect`, which the action plugins call.
pub record Link : Type 0 where
  pub connect : Run World (Unit {0})

unfoldable pub set_become_plugin : Option String → World → World
set_become_plugin none w = record w { use_become = false }
set_become_plugin (some name) w =
    if name == "sudo"
    then record w { use_become = true }
    else record w { become = some name; use_become = false }

-- `become_user or "root"`, unless it is root
effective_user : Option String → Option String
effective_user none = none
effective_user (some user) = if user == "" || user == "root" then none else some user

unfoldable pub get_become_user : PlayContext → World → Option String
unfolding effective_user
get_become_user play w = if w.use_become then effective_user play.become_user else none

after_client : {A : Type 0} → World → Result A × Channel → Result A × World
after_client w (r, ch) = (r, record w { client = some ch.next_id; log = ch.log })

use_client : {A : Type 0} → Run Channel A → Option ℕ → Run World A
unfolding after_client
use_client m none w = (err no_client, w)
use_client m (some n) w = after_client w (m (record { next_id = n; log = w.log }))

-- A method of `self._agent_client`.
unfoldable pub on_client : {A : Type 0} → Run Channel A → Run World A
unfolding use_client
on_client m w = use_client m w.client w

module _ (env : Env) where
  -- `self._execute_module(…)`
  unfoldable pub execute_module : String → Bool → Run World Dict
  execute_module name wrap_async w =
      let log = run_module name wrap_async ∷ w.log in
      (env.module_result log, record w { log = log })

  -- `merge_hash(result, self._execute_module(module_name=…, task_vars=…))`
  unfoldable pub run_builtin : String → Dict → Run World Dict
  run_builtin name result = do
    answer ← execute_module name false
    pure (env.merge_hash result answer)

  -- `_run_builtin_copy`: the builtin action, which runs in place of this one
  unfoldable pub builtin_copy : Run World Dict
  builtin_copy w =
      let log = run_builtin_copy ∷ w.log in (env.builtin_copy log, record w { log = log })
