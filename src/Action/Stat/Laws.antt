-- ===== src/Action/Stat/Laws.antt =====
-- Which events a stat task causes.
use ansible_go.Base.{◌≡◌, refl, String, true, List, contains, [], ◌∷◌, Bool}
use ansible_go.Value.{Value, Dict}
use ansible_go.Run.Keeps.{Keeps, Keeps-lift, Keeps-if, Keeps-bind, keeps_rules}
use ansible_go.Env.{Env}
use ansible_go.World.{Task, World, Link, run_builtin}
use ansible_go.World.Laws.{
  Only, IsLawful, Sends, Sends-connect, Only-run_builtin, SendsAs, SendsAs-bind,
  SendsAs-run_builtin, SendsAs-connect,
}
use ansible_go.World.Calls.{sends_rules}
use ansible_go.Action.Stat.{builtin, build_stat, report, query, fast_path, run}

module _ (env : Env) (methods modules : List String) where
  abbrev Looks : World → Type 0
  Looks = Only (Sends methods modules)

  module _ (looks : contains methods "Stat" ≡ true) (known : contains modules builtin ≡ true) where
    Looks-run_builtin : (result : Dict) → Keeps Looks (run_builtin env builtin result)
    Looks-run_builtin result = Only-run_builtin env builtin result known

    Looks-build_stat :
        (path : Value) (get_checksum : Bool) (reply : Dict)
        → Keeps Looks (build_stat env path get_checksum reply)
    unfolding build_stat
    Looks-build_stat path get_checksum reply = search keeps_rules depth 12

    Looks-report :
        (result : Dict) (path : Value) (get_checksum : Bool) (reply : Dict)
        → Keeps Looks (report env result path get_checksum reply)
    unfolding report
    Looks-report result path get_checksum reply = search (keeps_rules, Looks-build_stat)

    Looks-query :
        (result : Dict) (path : Value) (follow get_checksum : Bool) (algorithm : String)
        → Keeps Looks (query env result path follow get_checksum algorithm)
    unfolding query
    Looks-query result path follow get_checksum algorithm =
        search (keeps_rules, sends_rules, looks, Looks-report) depth 8

    module _ (link : Link) (L : IsLawful link) where
      Looks-fast_path : (args result : Dict) → Keeps Looks (fast_path env link args result)
      unfolding fast_path
      Looks-fast_path args result = search (keeps_rules, Looks-run_builtin, Looks-query) depth 8

      -- Every list of methods with Stat is kept, and every list of modules with the builtin one.
      pub stat-Looks : (task : Task) → Keeps Looks (run env link task)
      unfolding run
      stat-Looks task =
          search (keeps_rules, Looks-run_builtin, Looks-fast_path, Sends-connect link L) depth 10

module _ (env : Env) (link : Link) (L : IsLawful link) where
  -- Over a lawful connection, a stat task sends the agent nothing but the handshake and Stat
  -- requests, and runs no module but the builtin stat, whatever the agent, the connection and the
  -- module answer.
  pub stat-Sends :
      (task : Task) → Keeps (Only (Sends ("Stat" ∷ []) (builtin ∷ []))) (run env link task)
  stat-Sends task = stat-Looks env ("Stat" ∷ []) (builtin ∷ []) refl refl link L task

  -- Over a lawful connection, a stat task with a become user sends the agent no Stat request: it
  -- runs the builtin module.
  pub stat-SendsAs :
      (task : Task) (user : String)
      → Keeps (SendsAs [] (builtin ∷ []) task.play user) (run env link task)
  unfolding run
  stat-SendsAs task user =
      search
        (
          Keeps-lift,
          Keeps-if,
          SendsAs-bind,
          Keeps-bind,
          SendsAs-run_builtin,
          SendsAs-connect,
          L,
          refl {A = Bool} {a = true},
        )
        depth 10
