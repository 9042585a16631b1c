-- ===== src/Action/File/Laws.antt =====
-- What a file task sends, and what it reports.
use ansible_go.Base.{◌≡◌, refl, String, Bool, true, List, contains, [], ◌∷◌, ◌⊎◌, inl, inr}
use ansible_go.Value.{Value, bool, Dict, get, set}
use ansible_go.Value.Laws.{dict_laws}
use ansible_go.Run.Keeps.{Keeps, Keeps-lift, Keeps-if, Keeps-then, Keeps-bind, keeps_rules}
use ansible_go.Run.Returns.{Returns, returns_rules}
use ansible_go.Env.{Env}
use ansible_go.FileState.{infer_file_state}
use ansible_go.Failure.{failed}
use ansible_go.World.{Task, World, Link, run_builtin}
use ansible_go.World.Laws.{
  Only, OnlyOn, IsLawful, Sends, Sends-connect, Only-run_builtin, Only-on_client, SendsAs,
  SendsAs-bind, SendsAs-run_builtin,
}
use ansible_go.World.Calls.{sends_rules}
use ansible_go.Action.File.{
  builtin, Wish, reported, wish, absent, directory, touch, link, stat_fields, attributes, regular,
  dispatch, fast_path, run,
}

module _ (env : Env) (methods modules : List String) where
  -- A task in check mode looks, and changes nothing.
  abbrev Looks : World → Type 0
  Looks = Only (Sends methods modules)

  module _ (looks : contains methods "Stat" ≡ true) (known : contains modules builtin ≡ true) where
    Looks-run_builtin : (result : Dict) → Keeps Looks (run_builtin env builtin result)
    Looks-run_builtin result = Only-run_builtin env builtin result known

    OnlyOn-infer_file_state :
        (path state src : Value) (recurse follow : Bool)
        → Keeps
            (OnlyOn (Sends methods modules))
            (infer_file_state env path state src recurse follow)
    unfolding infer_file_state
    OnlyOn-infer_file_state path state src recurse follow =
        search (keeps_rules, sends_rules, looks) depth 10

    module _ (w : Wish) (check : w.check_mode ≡ true) where
      Looks-absent : (result : Dict) → Keeps Looks (absent env result w)
      unfolding absent
      Looks-absent result = search (Keeps-then, keeps_rules, sends_rules, looks) depth 8

      Looks-directory : (result : Dict) → Keeps Looks (directory env result w)
      unfolding directory
      Looks-directory result = search (Keeps-then, keeps_rules, sends_rules, looks) depth 8

      Looks-touch : (result : Dict) → Keeps Looks (touch env result w)
      unfolding touch
      Looks-touch result = search (Keeps-then, keeps_rules)

      Looks-link : (result : Dict) (state : Value) → Keeps Looks (link env result state w)
      unfolding link
      Looks-link result state = search (Keeps-then, keeps_rules)

      Looks-regular : (result : Dict) → Keeps Looks (regular env result w)
      unfolding regular
      Looks-regular result = search (Keeps-then, keeps_rules, sends_rules, looks) depth 10

      Looks-dispatch : (result : Dict) (state : Value) → Keeps Looks (dispatch env result w state)
      unfolding dispatch
      Looks-dispatch result state =
          search (Keeps-if, Looks-absent, Looks-directory, Looks-touch, Looks-link, Looks-regular)
            depth 8

    module _ (connection : Link) (L : IsLawful connection) (task : Task) where
      Looks-fast_path :
          (result : Dict) (w : Wish)
          → w.check_mode ≡ true
          → Keeps Looks (fast_path env connection task result w)
      unfolding fast_path
      Looks-fast_path result w check =
          search
            (
              keeps_rules,
              Looks-run_builtin,
              Only-on_client,
              OnlyOn-infer_file_state,
              Looks-dispatch,
              Sends-connect connection L,
            )
            depth 12

      -- Every list of methods with Stat is kept, and every list of modules with the builtin one.
      pub file-Looks : task.play.check_mode ≡ true → Keeps Looks (run env connection task)
      unfolding run wish
      file-Looks check = search (keeps_rules, Looks-run_builtin, Looks-fast_path) depth 8

module _ (env : Env) (connection : Link) (L : IsLawful connection) (task : Task) where
  -- Over a lawful connection, in check mode a file task sends the agent nothing but handshakes
  -- and Stat requests, and runs no module but the builtin one, whatever state it asks for.
  pub file_check_mode :
      task.play.check_mode ≡ true
      → Keeps (Only (Sends ("Stat" ∷ []) (builtin ∷ []))) (run env connection task)
  file_check_mode = file-Looks env ("Stat" ∷ []) (builtin ∷ []) refl refl connection L task

  -- Over a lawful connection, a file task with a become user runs the builtin module, and sends
  -- the agent nothing.
  pub file-SendsAs :
      (user : String) → Keeps (SendsAs [] (builtin ∷ []) task.play user) (run env connection task)
  unfolding run
  file-SendsAs user =
      search
        (
          Keeps-lift,
          Keeps-if,
          SendsAs-bind,
          Keeps-bind,
          SendsAs-run_builtin,
          refl {A = Bool} {a = true},
        )
        depth 10

module _ (env : Env) where
  -- The result is marked as failed, or it names the path.
  abbrev pub Reports : Value → Dict → Type 0
  Reports path result = (get result "failed" ≡ bool true) ⊎ (get result "path" ≡ path)

  Reports-failed :
      (path : Value) (result : Dict) (message : String) → Reports path (failed result message)
  Reports-failed path result message = inl (simp dict_laws)

  Reports-reported :
      (result : Dict) (changed path state : Value)
      → Reports path (reported result changed path state)
  Reports-reported result changed path state = inr (simp dict_laws)

  Reports-path : (result : Dict) (path : Value) → Reports path (set result "path" path)
  Reports-path result path = inr (simp dict_laws)

  Reports-path_state :
      (result : Dict) (path state : Value)
      → Reports path (set (set result "path" path) "state" state)
  Reports-path_state result path state = inr (simp dict_laws)

  Reports-stat_fields :
      (result found : Dict) (path state : Value)
      → Reports path (stat_fields env (set (set result "path" path) "state" state) found)
  unfolding stat_fields
  Reports-stat_fields result found path state = inr (simp dict_laws)

  ruleset reports_rules = (
    returns_rules, Reports-failed, Reports-reported, Reports-path, Reports-path_state,
    Reports-stat_fields,
  )

  module _ (w : Wish) (result : Dict) where
    Reports-absent : Returns (Reports w.path) (absent env result w)
    unfolding absent
    Reports-absent = search reports_rules depth 8

    Reports-directory : Returns (Reports w.path) (directory env result w)
    unfolding directory
    Reports-directory = search reports_rules depth 8

    Reports-touch : Returns (Reports w.path) (touch env result w)
    unfolding touch
    Reports-touch = search reports_rules depth 8

    Reports-link : (state : Value) → Returns (Reports w.path) (link env result state w)
    unfolding link
    Reports-link state = search reports_rules depth 8

    Reports-attributes : Returns (Reports w.path) (attributes env result w)
    unfolding attributes
    Reports-attributes = search reports_rules depth 10

    Reports-regular : Returns (Reports w.path) (regular env result w)
    unfolding regular
    Reports-regular = search (reports_rules, Reports-attributes) depth 10

    -- Whatever the agent answers, also an error or no answer at all, the work on a file task
    -- returns a result, which is marked as failed or names the task's path.
    pub dispatch-Reports : (state : Value) → Returns (Reports w.path) (dispatch env result w state)
    unfolding dispatch
    dispatch-Reports state =
        search
          (
            returns_rules, Reports-absent, Reports-directory, Reports-touch, Reports-link,
            Reports-regular,
          )
          depth 8
