-- ===== src/Action/Copy/Laws.antt =====
-- What a copy task sends.
use ansible_go.Base.{◌≡◌, refl, String, true, List, contains, [], ◌∷◌, not-true-and}
use ansible_go.Value.{Value, Dict}
use ansible_go.Run.Keeps.{
  Keeps, Keeps-lift, Keeps-if, Keeps-then, Keeps-else, Keeps-bind, keeps_rules,
}
use ansible_go.Env.{Env, Bytes}
use ansible_go.World.{Task, World, Link, builtin_copy, get_become_user}
use ansible_go.World.Laws.{Only, IsLawful, Sends, Sends-connect, SendsAs, SendsAs-bind}
use ansible_go.World.Calls.{sends_rules}
use ansible_go.Action.Copy.Data.{
  Copy, keep_content, write, replace, settle, into_directory, transfer, copy_data,
}
use ansible_go.Action.Copy.{copy_real_file, copy_source, fast_path, run}

module _ (env : Env) (methods modules : List String) where
  abbrev Looks : World → Type 0
  Looks = Only (Sends methods modules)

  module _ (looks : contains methods "Stat" ≡ true) (reads : contains methods "ReadFile" ≡ true)
      (known : contains modules "copy" ≡ true) where
    Looks-builtin_copy : Keeps Looks (builtin_copy env)
    unfolding builtin_copy
    Looks-builtin_copy = record { at = λ w h. (known, h) }

    module _ (c : Copy) (check : c.check_mode ≡ true) where
      Looks-keep_content :
          (result : Dict) (dest : Value) → Keeps Looks (keep_content env c result dest)
      unfolding keep_content
      Looks-keep_content result dest =
          Keeps-else _ _ _ (not-true-and c.check_mode _ check) (search keeps_rules)

      Looks-write : (result : Dict) (dest : Value) → Keeps Looks (write env c result dest)
      unfolding write
      Looks-write result dest = search (Keeps-then, keeps_rules)

      Looks-replace :
          (result : Dict) (dest : Value) (remote : Dict)
          → Keeps Looks (replace env c result dest remote)
      unfolding replace
      Looks-replace result dest remote =
          search (keeps_rules, sends_rules, Looks-write, reads) depth 12

      Looks-settle :
          (result : Dict) (dest : Value) (remote : Dict)
          → Keeps Looks (settle env c result dest remote)
      unfolding settle
      Looks-settle result dest remote = search (keeps_rules, Looks-keep_content, Looks-replace)

      Looks-into_directory :
          (result : Dict) (dest : Value) → Keeps Looks (into_directory env c result dest)
      unfolding into_directory
      Looks-into_directory result dest =
          search (keeps_rules, sends_rules, Looks-settle, looks) depth 12

      Looks-transfer : (result : Dict) (dest : Value) → Keeps Looks (transfer env c result dest)
      unfolding transfer
      Looks-transfer result dest =
          search (keeps_rules, sends_rules, Looks-settle, Looks-into_directory, looks) depth 12

    module _ (link : Link) (L : IsLawful link) (task : Task)
        (check : task.play.check_mode ≡ true) where
      Looks-copy_data :
          (bytes : Bytes) (dest : Value) → Keeps Looks (copy_data env link task bytes dest)
      unfolding copy_data
      Looks-copy_data bytes dest =
          search (keeps_rules, Looks-transfer, Sends-connect link L) depth 8

      Looks-copy_real_file :
          (dest : Value) (source : String) → Keeps Looks (copy_real_file env link task dest source)
      unfolding copy_real_file
      Looks-copy_real_file dest source =
          search (keeps_rules, Looks-builtin_copy, Looks-copy_data) depth 8

      Looks-copy_source :
          (dest source : Value) → Keeps Looks (copy_source env link task dest source)
      unfolding copy_source
      Looks-copy_source dest source =
          search (keeps_rules, Looks-builtin_copy, Looks-copy_real_file) depth 10

      Looks-fast_path : (result : Dict) → Keeps Looks (fast_path env link task result)
      unfolding fast_path
      Looks-fast_path result = search (keeps_rules, Looks-copy_data, Looks-copy_source) depth 12

      -- Every list of methods with Stat and ReadFile is kept.
      pub copy-Looks : Keeps Looks (run env link task)
      unfolding run
      copy-Looks = search (keeps_rules, Looks-builtin_copy, Looks-fast_path) depth 10

module _ (env : Env) where
  module _ (link : Link) (L : IsLawful link) (task : Task)
      (check : task.play.check_mode ≡ true) where
    -- Over a lawful connection, in check mode a copy task sends the agent nothing but handshakes,
    -- Stat and ReadFile requests, or it runs the builtin action.
    pub copy_check_mode :
        Keeps (Only (Sends ("Stat" ∷ "ReadFile" ∷ []) ("copy" ∷ []))) (run env link task)
    copy_check_mode =
        copy-Looks env ("Stat" ∷ "ReadFile" ∷ []) ("copy" ∷ []) refl refl refl link L task check

  module _ (link : Link) (task : Task) (user : String) where
    SendsAs-builtin_copy : Keeps (SendsAs [] ("copy" ∷ []) task.play user) (builtin_copy env)
    unfolding builtin_copy get_become_user
    SendsAs-builtin_copy = record { at = λ w h. ((refl, h.0), h.1) }

    -- A copy task with a become user runs the builtin action, and sends the agent nothing.
    pub copy-SendsAs : Keeps (SendsAs [] ("copy" ∷ []) task.play user) (run env link task)
    unfolding run
    copy-SendsAs =
        search (Keeps-lift, Keeps-if, SendsAs-bind, Keeps-bind, SendsAs-builtin_copy) depth 10
